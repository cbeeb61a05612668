-- ===== src/Log/Recover.antt =====
-- Recovery: what initlog makes of a disk on which the log is empty or holds a transaction.
use cs.Prelude.{
  ℕ, ◌+◌, ◌≤◌, ◌<◌, zero, suc, ◌≡◌, refl, ◌∙◌, ap, sym, subst, ◌⊎◌, inl, inr, true, false, [], ◌∷◌,
  arith, ◌==◌, ==_refl,
}
use cs.Prelude.Run.{Cmd, modify, ◌>>◌, Yields, yields, Yields-bind, Yields-mono, Yields-then}
use cs.Bytes.{word_at}
use cs.Log.{
  read_blocks, install_from, write_head, Block, Disk, LogState, logsize, put_block, rounds,
  install_trans, read_head, recover_from_log, initlog,
}
use cs.Log.Head.{read_blocks-Decoded, HeadWritten, write_head-HeadWritten}
use cs.Log.Install.{All, is_home, among, Committed, Clean, install_from-Installing}

-- The blocks that recovery from disk `d` brings home are those of `target`.
abbrev pub Durable : ℕ → Disk → Disk → Type 0
Durable start target d =
    Clean start target d
    ⊎ ((n : ℕ) × (block : ℕ → ℕ) × (n ≤ logsize) × Committed start n block target d)

-- The machine starts again with disk `d`: nothing is cached, and no call is in progress.
abbrev pub off : LogState → Disk → LogState
off s d = record s {
  outstanding = 0;
  committing = false;
  cache = d;
  disk = d;
  history = [];
  dirty = λ _. false;
}

-- An empty header over a disk whose blocks are home.
Clean-header :
    (s t : LogState) (target : Disk) (h : Block)
    → s.n ≡ 0
    → ((b : ℕ) → is_home s.start b ≡ true → s.disk b ≡ target b)
    → HeadWritten s t h
    → Clean s.start target t.disk
Clean-header s t target h none home w =
    let e : t.disk ≡ put_block s.disk s.start h = ap (λ (z : LogState). z.disk) w.after in
    record {
      head_n = rw e (rw (==_refl s.start) (w.head_n ∙ none));
      homes = λ b on. let off : (b == s.start) ≡ false = ground arith in rw e (rw off (home b on));
    }

-- The end of recovery and of commit: the log is erased on a disk whose blocks are home.
abbrev pub erase_log : Cmd LogState (Unit {0})
erase_log = do modify (λ s. record s { n = 0 }); write_head

pub erase_log-Clean :
    (s : LogState) (target : Disk) (P : Disk → Type 0)
    → ((b : ℕ) → is_home s.start b ≡ true → s.disk b ≡ target b)
    → ((d : Disk) → Clean s.start target d → P d)
    → All P s.history
    → Yields (λ _ t. Clean s.start target t.disk × (t.n ≡ 0) × All P t.history) (erase_log s)
erase_log-Clean s target P home good hist =
    let s0 : LogState = record s { n = 0 } in
    Yields-mono (write_head-HeadWritten s0 (omega arith) (λ j lt. absurd (omega arith)))
      λ _ t (h, w).
        let clean = Clean-header s0 t target h refl home w in
        let past : t.history ≡ put_block s.disk s.start h ∷ s.history =
          ap (λ (z : LogState). z.history) w.after in
        let now : t.disk ≡ put_block s.disk s.start h = ap (λ (z : LogState). z.disk) w.after in
        (clean, ap (λ (z : LogState). z.n) w.after, rw past (rw now at (good t.disk clean), hist))

pub among_same :
    (f g : ℕ → ℕ) (k i b : ℕ)
    → ((j : ℕ) → i ≤ j → j < i + k → f j ≡ g j)
    → among f k i b ≡ among g k i b
among_same f g zero i b e = refl
among_same f g (suc k) i b e =
    let rest = among_same f g k (i + 1) b (λ j lo hi. e j (omega arith) (omega arith)) in
    rw (e i (omega arith) (omega arith), rest) refl

Committed-same :
    (start n : ℕ) (f g : ℕ → ℕ) (target d : Disk)
    → ((j : ℕ) → j < n → f j ≡ g j)
    → Committed start n g target d
    → Committed start n f target d
Committed-same start n f g target d e c = record {
  head_n = c.head_n;
  head_block = λ j lt. rw (e j lt) (c.head_block j lt);
  logged = λ j lt. rw (e j lt) (c.logged j lt);
  homes = λ j lt. rw (e j lt) (c.homes j lt);
  others = λ b home out.
      c.others b home (sym (among_same f g n 0 b (λ j lo hi. e j (omega arith))) ∙ out);
}

module _ (target : Disk) (P : Disk → Type 0) where
  abbrev BroughtHome : LogState → Unit {0} → LogState → Type 0
  BroughtHome s _ t =
      ((b : ℕ) → is_home s.start b ≡ true → t.disk b ≡ target b)
      × (t.start ≡ s.start)
      × All P t.history

  -- install_trans with a header of `n` block numbers in memory.
  install_header :
      (s : LogState) (n : ℕ) (block : ℕ → ℕ)
      → n ≤ logsize
      → ((d : Disk) → Durable s.start target d → P d)
      → s.cache ≡ s.disk
      → Committed s.start n block target s.disk
      → All P s.history
      → Yields (BroughtHome s) (install_trans (record s { n = n; block = block }))
  unfolding install_trans
  install_header s n block fits good same c hist =
      let u : LogState = record s { n = n; block = block } in
      let few : rounds n ≡ n = ground arith in
      rw few (
        Yields-mono
          (install_from-Installing target P n 0 u (omega arith) fits
            (λ d committed. good d (inr (n, block, fits, committed)))
            (record { disk = c; cache_log = λ j lt. rw same (c.logged j lt); home_done = c.others })
            hist)
          λ _ t (i, r, past). (
            λ b home.
                subst (λ (a : ℕ). is_home a b ≡ true → t.disk b ≡ target b)
                  (ap (λ (z : LogState). z.start) r) (λ h. i.home_done b h refl) home,
            ap (λ (z : LogState). z.start) r,
            past,
          ))

  -- read_head and then install_trans bring the blocks home.
  recover_home :
      (s : LogState)
      → ((d : Disk) → Durable s.start target d → P d)
      → s.cache ≡ s.disk
      → Durable s.start target s.disk
      → All P s.history
      → Yields (BroughtHome s) ((do read_head; install_trans) s)
  unfolding read_head read_blocks install_trans install_from
  recover_home s good same (inl c) hist =
      let none : word_at (s.cache s.start) 0 ≡ 0 = rw same c.head_n in
      rw none (yields (c.homes, refl, hist))
  recover_home s good same (inr (n, block, fits, c)) hist =
      let head : word_at (s.cache s.start) 0 ≡ n = rw same c.head_n in
      let few : rounds n ≡ n = ground arith in
      rw (head, few)
        (Yields-bind (read_blocks-Decoded (s.cache s.start) n 0 (record s { n = n }) (omega arith))
          λ _ t dec.
            let agree : (j : ℕ) → j < n → t.block j ≡ block j =
              λ j lt. dec.entry j (omega arith) (omega arith) ∙ (rw same (c.head_block j lt)) in
            subst (λ z. Yields (BroughtHome s) (install_trans z)) (sym dec.rest)
              (install_header s n t.block fits good same
                (Committed-same s.start n t.block block target s.disk agree c) hist))

-- Recovery after a crash that left disk `d`: initlog returns with an empty log, and with the blocks at
-- home that `d` and its log stand for. A crash at any write of the recovery leaves a disk that stands
-- for the same blocks.
pub initlog-Durable :
    (s : LogState) (start size : ℕ) (target d : Disk)
    → Durable start target d
    → Yields
        (λ _ t. Clean start target t.disk × (t.n ≡ 0) × All (Durable start target) t.history)
        (initlog start size (off s d))
unfolding initlog recover_from_log
initlog-Durable s start size target d durable =
    let s1 : LogState = record (off s d) { start = start; size = size } in
    Yields-then read_head install_trans erase_log s1
      (recover_home target (Durable start target) s1 (λ e h. h) refl durable tt)
      λ t (home, same, past).
        let home' : (b : ℕ) → is_home t.start b ≡ true → t.disk b ≡ target b =
          subst (λ a. (b : ℕ) → is_home a b ≡ true → t.disk b ≡ target b) (sym same) home in
        Yields-mono
          (erase_log-Clean t target (Durable start target) home'
            (λ e clean. inl (subst (λ a. Clean a target e) same clean)) past)
          λ _ u (clean, none, past'). (subst (λ a. Clean a target u.disk) same clean, none, past')
