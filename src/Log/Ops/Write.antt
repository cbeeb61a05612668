-- ===== src/Log/Ops/Write.antt =====
-- log_write of a block that has been changed in the cache keeps the transaction ready to commit.
use cs.Prelude.{
  ℕ, zero, suc, ◌+◌, ◌^◌, ◌≤◌, ◌<◌, ◌≡◌, refl, ◌∙◌, ap, sym, subst, fun_ext, inl, inr, true, false,
  ◌||◌, arith, ◌==◌, ==_refl, leb, ltb, Bool-cases, if◌then◌else◌,
}
use cs.Prelude.Run.{ok, ◌>>◌, Yields, yields}
use cs.Proc.Table.{not_positive}
use cs.Proc.Table.Lock.{IsFree, taken, given_back, taken-IsHeld}
use cs.Log.{Block, Disk, LogState, logsize, put_block, put_number, put_flag, write_data}
use cs.Log.Install.{is_home, among, among_self}
use cs.Log.Recover.{among_same}
use cs.Log.Commit.{Ready}
use cs.Log.Ops.{find_block, log_write}
use cs.Log.Ops.Begin.{lock_log-ok, unlock_log-ok}

-- The index that the loop finds: of block `b`, or the end of the range.
abbrev index_of : (ℕ → ℕ) → (k i b : ℕ) → ℕ
index_of block zero i b = i
index_of block (suc k) i b = if block i == b then i else index_of block k (i + 1) b

find_block-ok :
    (k i b : ℕ) (s : LogState)
    → i + k ≤ logsize
    → find_block k i b s ≡ ok (index_of s.block k i b) s
unfolding find_block
find_block-ok zero i b s fits = refl
find_block-ok (suc k) i b s fits =
    let inside : ltb i logsize ≡ true = ground arith in
    let rest = find_block-ok k (i + 1) b s (omega arith) in rw inside (ground (arith, rest))

index_of_bounds :
    (block : ℕ → ℕ) (k i b : ℕ)
    → (i ≤ index_of block k i b)
      × (index_of block k i b ≤ i + k)
      × ((index_of block k i b < i + k) → block (index_of block k i b) ≡ b)
index_of_bounds block zero i b = (omega arith, omega arith, λ lt. absurd (omega arith))
index_of_bounds block (suc k) i b = elim (Bool-cases (block i == b)) [
  | inl e ↦ rw e (omega arith, omega arith, λ lt. ground arith)
  | inr o ↦
      let r = index_of_bounds block k (i + 1) b in
      rw o (omega arith, omega arith, λ lt. r.2 (omega arith))
]

among-index_of :
    (block : ℕ → ℕ) (k i b : ℕ) → among block k i b ≡ ltb (index_of block k i b) (i + k)
among-index_of block zero i b = ground arith
among-index_of block (suc k) i b =
    ground (arith, among-index_of block k (i + 1) b, index_of_bounds block k (i + 1) b)

-- A block number that is put in its own place, and one that is put behind the last.
put_number_same : (f : ℕ → ℕ) (i b : ℕ) → f i ≡ b → put_number f i b ≡ f
put_number_same f i b e = fun_ext λ j. elim (Bool-cases (j == i)) [
  | inl c ↦ let same : j ≡ i = ground arith in rw c (sym e ∙ ap f (sym same))
  | inr c ↦ rw c refl
]

among_last : (f : ℕ → ℕ) (k i c : ℕ) → among f (suc k) i c ≡ (among f k i c || (f (i + k) == c))
among_last f zero i c = let e : i + 0 ≡ i = omega arith in rw e (ground arith)
among_last f (suc k) i c =
    let e : i + suc k ≡ i + 1 + k = omega arith in
    let rest = among_last f k (i + 1) c in rw (rest, e) (ground arith)

among_put :
    (f : ℕ → ℕ) (n b c : ℕ) → among (put_number f n b) (n + 1) 0 c ≡ (among f n 0 c || (b == c))
among_put f n b c =
    let one : n + 1 ≡ suc n = omega arith in
    let last : 0 + n ≡ n = omega arith in
    let old : among (put_number f n b) n 0 c ≡ among f n 0 c =
      among_same (put_number f n b) f n 0 c λ j lo hi. ground arith in
    ap (λ k. among (put_number f n b) k 0 c) one
    ∙ (among_last (put_number f n b) n 0 c ∙ rw (old, last, ==_refl n) refl)

-- The state after log_write of block `b`, with the log's index `i` for it and `n` blocks in the log.
abbrev written : LogState → (i n b : ℕ) → Block → LogState
written s i n b v = record s {
  held = given_back (taken s.held);
  cache = put_block s.cache b v;
  block = put_number s.block i b;
  n = n;
  dirty = put_flag s.dirty b true;
}

module _ (s : LogState) (old new : Disk) (b : ℕ) (v : Block) (r : Ready s old new) where
  Ready-absorb :
      (i : ℕ) → i < s.n → s.block i ≡ b → Ready (written s i s.n b v) old (put_block new b v)
  Ready-absorb i lt e =
      let same = put_number_same s.block i b e in
      let home : is_home s.start b ≡ true =
        subst (λ c. is_home s.start c ≡ true) e (r.homes i lt) in
      rw same (record {
        clean = r.clean;
        fits = r.fits;
        small = r.small;
        homes = r.homes;
        cached = λ j h. elim (Bool-cases (s.block j == b)) [
          | inl c ↦ rw c refl
          | inr c ↦ rw c (r.cached j h)
        ];
        unchanged = λ c on out.
            let miss = among_self s.block s.n 0 i (omega arith) (omega arith) in
            elim (Bool-cases (c == b)) [
              | inl q ↦
                  let same_b : c ≡ s.block i = ground arith in
                  absurd (ground (arith, subst (λ x. among s.block s.n 0 x ≡ false) same_b out))
              | inr q ↦ rw q (r.unchanged c on out)
            ];
      })

  Ready-append :
      s.n < logsize
      → b < 2 ^ 32
      → is_home s.start b ≡ true
      → Ready (written s s.n (s.n + 1) b v) old (put_block new b v)
  Ready-append lt small home = record {
    clean = r.clean;
    fits = omega arith;
    small = λ j h. ground (arith, r.small j);
    homes = λ j h. elim (Bool-cases (j == s.n)) [
      | inl q ↦ rw q home
      | inr q ↦ rw q (r.homes j (ground arith))
    ];
    cached = λ j h. elim (Bool-cases (j == s.n)) [
      | inl q ↦ rw (q, ==_refl b) refl
      | inr q ↦ rw q (elim (Bool-cases (s.block j == b)) [
        | inl c ↦ rw c refl
        | inr c ↦ rw c (r.cached j (ground arith))
      ])
    ];
    unchanged = λ c on out.
        let parts : (among s.block s.n 0 c || (b == c)) ≡ false =
          sym (among_put s.block s.n b c) ∙ out in
        let off : (c == b) ≡ false = ground arith in rw off (r.unchanged c on (ground arith));
  }

-- log_write of a home block `b` whose data has been changed to `v` in the cache, in a transaction with
-- room for one more block, keeps the transaction ready to be committed, now with `v` as the new data
-- of `b`. A block that is in the log already takes no more room, another one takes one place; the
-- buffer is dirty, and the lock is given back.
pub log_write-Ready :
    (s : LogState) (old new : Disk) (b : ℕ) (v : Block)
    → Ready s old new
    → IsFree s.held
    → s.n < logsize
    → s.n + 1 < s.size
    → not_positive s.outstanding ≡ false
    → b < 2 ^ 32
    → is_home s.start b ≡ true
    → Yields
        (λ _ t.
          Ready t old (put_block new b v)
          × (t.n ≡ (if among s.block s.n 0 b then s.n else s.n + 1))
          × (t.dirty b ≡ true)
          × (t.held ≡ given_back (taken s.held)))
        ((write_data b v >> log_write b) s)
unfolding log_write
log_write-Ready s old new b v r free lt room inside small home =
    let i = index_of s.block s.n 0 b in
    let bounds = index_of_bounds s.block s.n 0 b in
    let fits1 : leb logsize s.n ≡ false = ground arith in
    let fits2 : leb s.size (s.n + 1) ≡ false = ground arith in
    let within : ltb i logsize ≡ true = ground arith in
    let u : LogState = record s { held = taken s.held; cache = put_block s.cache b v } in
    rw
      (
        fits1,
        fits2,
        inside,
        lock_log-ok (record s { cache = put_block s.cache b v }) free,
        find_block-ok s.n 0 b u (omega arith),
        within,
      )
      (elim (Bool-cases (i == s.n)) [
        | inl e ↦
            let same : i ≡ s.n = ground arith in
            let new_one : among s.block s.n 0 b ≡ false =
              among-index_of s.block s.n 0 b ∙ ground arith in
            rw
              (
                e,
                same,
                unlock_log-ok (record (written s s.n (s.n + 1) b v) { held = taken s.held })
                    (taken-IsHeld s.held),
                new_one,
              )
              (yields (Ready-append s old new b v r lt small home, refl, rw (==_refl b) refl, refl))
        | inr e ↦
            let found : among s.block s.n 0 b ≡ true =
              among-index_of s.block s.n 0 b ∙ ground arith in
            rw
              (
                e,
                unlock_log-ok (record (written s i s.n b v) { held = taken s.held })
                    (taken-IsHeld s.held),
                found,
              )
              (yields (
                Ready-absorb s old new b v r i (ground arith) (bounds.2 (ground arith)),
                refl,
                rw (==_refl b) refl,
                refl,
              ))
      ])
