-- ===== src/Log/Commit.antt =====
-- commit: at every moment the disk stands for the blocks before the transaction or for those after.
use cs.Prelude.{
  ℕ, zero, suc, ◌+◌, ◌^◌, ◌≤◌, ◌<◌, ◌≡◌, refl, ◌∙◌, ap, sym, subst, ◌⊎◌, inl, inr, true, false, ◌∷◌,
  arith, ◌==◌, ==_refl, ltb, Bool-cases,
}
use cs.Prelude.Run.{◌>>◌, Yields, yields, Yields-bind, Yields-mono}
use cs.Log.{
  write_head, Block, Disk, LogState, logsize, put_block, put_flag, rounds, install_trans,
  write_from, write_log, commit,
}
use cs.Log.Head.{HeadWritten, write_head-HeadWritten}
use cs.Log.Install.{All, is_home, among, Committed, Clean, install_from-Installing}
use cs.Log.Recover.{Durable, erase_log, erase_log-Clean}

-- What a transaction is before it is committed: the disk has the old blocks, and the cache has the
-- new ones, which differ only where they are logged.
pub record Ready (s : LogState) (old new : Disk) : Type 0 where
  pub clean : Clean s.start old s.disk
  pub fits : s.n ≤ logsize
  pub small : (j : ℕ) → j < s.n → s.block j < 2 ^ 32
  pub homes : (j : ℕ) → j < s.n → is_home s.start (s.block j) ≡ true
  pub cached : (j : ℕ) → j < s.n → s.cache (s.block j) ≡ new (s.block j)
  pub unchanged : (b : ℕ) → is_home s.start b ≡ true → among s.block s.n 0 b ≡ false → old b ≡ new b

-- The same with the first `tail` blocks written to the log.
record Logging (s : LogState) (old new : Disk) (tail : ℕ) : Type 0 where
  ready : Ready s old new
  logged : (j : ℕ) → j < tail → s.disk (s.start + j + 1) ≡ new (s.block j)
  cache_log : (j : ℕ) → j < tail → s.cache (s.start + j + 1) ≡ new (s.block j)

abbrev logged_one : LogState → ℕ → LogState
logged_one s tail =
    let b = s.start + tail + 1 in
    let c = put_block s.cache b (s.cache (s.block tail)) in
    let d = put_block s.disk b (s.cache (s.block tail)) in
    record s { cache = c; disk = d; history = d ∷ s.history; dirty = put_flag s.dirty b false }

-- A write into the log changes neither its header nor a block at home.
Clean-log :
    (start : ℕ) (old d : Disk) (j : ℕ) (v : Block)
    → j < logsize
    → Clean start old d
    → Clean start old (put_block d (start + j + 1) v)
Clean-log start old d j v lt c =
    let apart : (start == start + j + 1) ≡ false = ground arith in
    record {
      head_n = rw apart c.head_n;
      homes = λ b home.
          let off : (b == start + j + 1) ≡ false = ground arith in rw off (c.homes b home);
    }

Logging-step :
    (s : LogState) (old new : Disk) (tail : ℕ)
    → tail < s.n
    → Logging s old new tail
    → Logging (logged_one s tail) old new (tail + 1)
Logging-step s old new tail lt l =
    let r = l.ready in
    record {
      ready = record {
        clean = Clean-log s.start old s.disk tail (s.cache (s.block tail)) (omega arith) r.clean;
        fits = r.fits;
        small = r.small;
        homes = r.homes;
        cached = λ j h.
            let home = r.homes j h in
            let off : (s.block j == s.start + tail + 1) ≡ false = ground arith in
            rw off (r.cached j h);
        unchanged = r.unchanged;
      };
      logged = λ j h. elim (Bool-cases (j == tail)) [
        | inl e ↦
            let same : j ≡ tail = ground arith in
            rw same (rw (==_refl (s.start + tail + 1)) (r.cached tail lt))
        | inr o ↦
            let off : (s.start + j + 1 == s.start + tail + 1) ≡ false = ground arith in
            rw off (l.logged j (ground arith))
      ];
      cache_log = λ j h. elim (Bool-cases (j == tail)) [
        | inl e ↦
            let same : j ≡ tail = ground arith in
            rw same (rw (==_refl (s.start + tail + 1)) (r.cached tail lt))
        | inr o ↦
            let off : (s.start + j + 1 == s.start + tail + 1) ≡ false = ground arith in
            rw off (l.cache_log j (ground arith))
      ];
    }

-- What the loop leaves alone.
abbrev SameLog : LogState → LogState → Type 0
SameLog s t = t ≡ record s { cache = t.cache; disk = t.disk; history = t.history; dirty = t.dirty }

module _ (old new : Disk) (P : Disk → Type 0) where
  write_from-Logging :
      (k tail : ℕ) (s : LogState)
      → tail + k ≡ s.n
      → ((d : Disk) → Clean s.start old d → P d)
      → Logging s old new tail
      → All P s.history
      → Yields (λ _ t. Logging t old new t.n × SameLog s t × All P t.history) (write_from k tail s)
  unfolding write_from
  write_from-Logging zero tail s e good l hist =
      let all : tail ≡ s.n = omega arith in
      yields (subst (λ i. Logging s old new i) all l, refl, hist)
  write_from-Logging (suc k) tail s e good l hist =
      let lt : tail < s.n = omega arith in
      let fits = l.ready.fits in
      let inside : ltb tail logsize ≡ true = ground arith in
      let next = Logging-step s old new tail lt l in
      rw (inside, ==_refl (s.start + tail + 1))
        (Yields-mono
          (write_from-Logging k (tail + 1) (logged_one s tail) (omega arith) good next
            (good _ next.ready.clean, hist))
          λ _ t (a, b, c). (a, b, c))

  write_log-Logging :
      (s : LogState)
      → Ready s old new
      → ((d : Disk) → Clean s.start old d → P d)
      → All P s.history
      → Yields (λ _ t. Logging t old new t.n × SameLog s t × All P t.history) (write_log s)
  unfolding write_log
  write_log-Logging s r good hist =
      let few : rounds s.n ≡ s.n = ground (arith, r.fits) in
      rw few (
        write_from-Logging s.n 0 s (omega arith) good
          (record {
            ready = r;
            logged = λ j lt. absurd (omega arith);
            cache_log = λ j lt. absurd (omega arith);
          })
          hist)

  -- With the header written the transaction is committed.
  Logging-Committed :
      (s t : LogState) (h : Block)
      → Logging s old new s.n
      → HeadWritten s t h
      → Committed s.start s.n s.block new (put_block s.disk s.start h)
  Logging-Committed s t h l w =
      let r = l.ready in
      record {
        head_n = rw (==_refl s.start) w.head_n;
        head_block = λ j lt. rw (==_refl s.start) (w.head_block j lt);
        logged = λ j lt.
            let off : (s.start + j + 1 == s.start) ≡ false = ground arith in rw off (l.logged j lt);
        homes = r.homes;
        others = λ b home out.
            let off : (b == s.start) ≡ false = ground arith in
            rw off (r.clean.homes b home ∙ r.unchanged b home out);
      }

  abbrev AtHome : ℕ → Unit {0} → LogState → Type 0
  AtHome start _ t =
      ((b : ℕ) → is_home start b ≡ true → t.disk b ≡ new b) × (t.start ≡ start) × All P t.history

  -- From the write of the header on.
  commit_logged :
      (s : LogState)
      → Logging s old new s.n
      → ((d : Disk) → Durable s.start new d → P d)
      → All P s.history
      → Yields
          (λ _ t. Clean s.start new t.disk × (t.n ≡ 0) × All P t.history)
          ((do write_head; install_trans; erase_log) s)
  unfolding install_trans
  commit_logged s l good hist =
      let r = l.ready in
      Yields-bind (write_head-HeadWritten s r.fits r.small) λ _ t (h, w).
        let c = Logging-Committed s t h l w in
        let u : LogState = record s {
          cache = put_block s.cache s.start h;
          disk = put_block s.disk s.start h;
          history = put_block s.disk s.start h ∷ s.history;
          dirty = put_flag s.dirty s.start false;
        } in
        let few : rounds s.n ≡ s.n = ground (arith, r.fits) in
        let install : Yields (AtHome s.start) (install_trans u) = rw few (
          Yields-mono
            (install_from-Installing new P s.n 0 u (omega arith) r.fits
              (λ d committed. good d (inr (s.n, s.block, r.fits, committed)))
              (record {
                disk = c;
                cache_log = λ j lt.
                    let off : (s.start + j + 1 == s.start) ≡ false = ground arith in
                    rw off (l.cache_log j lt);
                home_done = c.others;
              })
              (good _ (inr (s.n, s.block, r.fits, c)), hist))
            λ _ v (i, e, past).
              let same : v.start ≡ s.start = ap (λ (z : LogState). z.start) e in
              (λ b home. i.home_done b (rw same home) refl, same, past)) in
        Yields-bind (subst (λ z. Yields (AtHome s.start) (install_trans z)) (sym w.after) install)
          λ _ v (home, same, past).
            Yields-mono
              (erase_log-Clean v new P
                (subst (λ a. (b : ℕ) → is_home a b ≡ true → v.disk b ≡ new b) (sym same) home)
                (λ d clean. good d (inl (subst (λ a. Clean a new d) same clean))) past)
              λ _ x (clean, none, past'). (subst (λ a. Clean a new x.disk) same clean, none, past')

-- A disk that stands for the blocks before the transaction, or for those after it.
abbrev pub AllOrNothing : ℕ → Disk → Disk → Disk → Type 0
AllOrNothing start old new d = Durable start old d ⊎ Durable start new d

-- commit of a transaction whose blocks are in the cache leaves the new blocks at home and the log
-- empty. Every disk that it leaves on the way, after any of its writes, stands for the blocks before
-- the transaction or for those after it, and for no mixture.
pub commit-AllOrNothing :
    (s : LogState) (old new : Disk)
    → Ready s old new
    → All (AllOrNothing s.start old new) s.history
    → Yields
        (λ _ t. Clean s.start new t.disk × (t.n ≡ 0) × All (AllOrNothing s.start old new) t.history)
        (commit s)
unfolding commit
commit-AllOrNothing s old new r hist =
    let P : Disk → Type 0 = AllOrNothing s.start old new in
    let few : rounds s.n ≡ s.n = ground (arith, r.fits) in
    elim (Bool-cases (s.n == 0)) [
      | inl e ↦
          let none : s.n ≡ 0 = ground arith in
          let clean : Clean s.start new s.disk = record {
            head_n = r.clean.head_n;
            homes = λ b home. r.clean.homes b home ∙ r.unchanged b home (rw none refl);
          } in
          rw (few, e) (yields (clean, none, hist))
      | inr o ↦
          rw (few, o)
            (Yields-bind (write_log-Logging old new P s r (λ d c. inl (inl c)) hist)
              λ _ t (l, e, past).
                let same : t.start ≡ s.start = ap (λ (z : LogState). z.start) e in
                Yields-mono
                  (commit_logged old new P t l (λ d h. inr (subst (λ a. Durable a new d) same h))
                    past)
                  λ _ u (clean, none, past').
                    (subst (λ a. Clean a new u.disk) same clean, none, past'))
    ]
