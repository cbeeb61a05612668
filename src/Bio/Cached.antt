-- ===== src/Bio/Cached.antt =====
-- The invariant of the buffer cache.
use cs.Prelude.{
  ℕ, ◌+◌, ◌-◌, ◌^◌, ◌≤◌, ◌<◌, ◌≡◌, refl, ◌∙◌, sym, ◌≢◌, inl, inr, true, false, List, arith, ◌==◌,
  Bool-cases, length,
}
use cs.Prelude.Run.{ok}
use cs.Prelude.Finite.{has, Distinct, length-le}
use cs.Spinlock
use cs.Proc.Table.Lock.{IsFree, IsHeld, taken, given_back}
use cs.Bio.{Buf, Bcache, nbuf, head, set_at, lock_cache, unlock_cache}
use cs.Bio.Ring.{Chain}

-- The device of a buffer that has never been used.
abbrev pub unused : ℕ
unused = 2 ^ 32 - 1

-- The buffers are on the list `xs`, each once; two different ones are never for the same block; and the
-- data of a buffer that nobody holds is that of the disk, unless it is dirty.
pub record Cached (s : Bcache) (xs : List ℕ) : Type 0 where
  pub chain : Chain s.next s.prev head xs head
  pub distinct : Distinct xs
  pub members : (u : ℕ) → has u xs ≡ true → (0 < u) × (u ≤ nbuf)
  pub unique :
      (u v : ℕ)
      → has u xs ≡ true
      → has v xs ≡ true
      → (s.buf u).dev ≢ unused
      → (s.buf u).dev ≡ (s.buf v).dev
      → (s.buf u).blockno ≡ (s.buf v).blockno
      → u ≡ v
  pub pinned : (u : ℕ) → has u xs ≡ true → (s.buf u).dirty ≡ true → (s.buf u).valid ≡ true
  pub coherent :
      (u : ℕ)
      → has u xs ≡ true
      → (s.buf u).busy ≡ false
      → (s.buf u).valid ≡ true
      → (s.buf u).dirty ≡ false
      → (s.buf u).dev ≡ 1
      → (s.buf u).data_ ≡ s.disk (s.buf u).blockno

module _ (s : Bcache) (xs : List ℕ) (c : Cached s xs) where
  pub Cached-no_head : has head xs ≡ false
  Cached-no_head = elim (Bool-cases (has head xs)) [
    | inl h ↦ let r = c.members head h in absurd (omega arith)
    | inr h ↦ h
  ]

  pub Cached-length : length xs < nbuf + 1
  Cached-length = omega (arith, length-le nbuf xs c.distinct c.members)

pub lock_cache-ok :
    (s : Bcache) → IsFree s.held → lock_cache s ≡ ok tt (record s { held = taken s.held })
unfolding lock_cache Spinlock.acquire
lock_cache-ok s f = rw (f.not_held, f.no_cli) refl

pub unlock_cache-ok :
    (s : Bcache) → IsHeld s.held → unlock_cache s ≡ ok tt (record s { held = given_back s.held })
unfolding unlock_cache Spinlock.release
unlock_cache-ok s f = rw (f.is_held, f.cli, f.one_cli) refl

-- A buffer gets a new content `f` that is busy.
pub Cached-set_busy :
    (s t : Bcache) (xs : List ℕ) (b : ℕ) (f : Buf)
    → Cached s xs
    → (t.next ≡ s.next) × (t.prev ≡ s.prev) × (t.disk ≡ s.disk)
    → t.buf ≡ set_at s.buf b f
    → f.busy ≡ true
    → (f.dirty ≡ true → f.valid ≡ true)
    → ((u : ℕ)
        → has u xs ≡ true
        → f.dev ≢ unused
        → f.dev ≡ (s.buf u).dev
        → f.blockno ≡ (s.buf u).blockno
        → b ≡ u)
    → Cached t xs
Cached-set_busy s t xs b f c (en, ep, ed) eb busy pin only = record {
  chain = rw (en, ep) c.chain;
  distinct = c.distinct;
  members = c.members;
  unique = λ u v hu hv. rw eb (elim (Bool-cases (u == b)) [
    | inl ku ↦ elim (Bool-cases (v == b)) [
      | inl kv ↦ λ a d n. ground arith
      | inr kv ↦ rw (ku, kv) (λ a d n. let same : u ≡ b = ground arith in same ∙ only v hv a d n)
    ]
    | inr ku ↦ elim (Bool-cases (v == b)) [
      | inl kv ↦
          rw (ku, kv)
            (λ a d n.
              let same : v ≡ b = ground arith in
              sym (same ∙ only u hu (λ z. a (d ∙ z)) (sym d) (sym n)))
      | inr kv ↦ rw (ku, kv) (c.unique u v hu hv)
    ]
  ]);
  pinned =
      λ u h. rw eb (elim (Bool-cases (u == b)) [ inl k ↦ rw k pin | inr k ↦ rw k (c.pinned u h) ]);
  coherent = λ u h.
      rw (eb, ed)
        (elim (Bool-cases (u == b)) [
          | inl k ↦ rw k (λ free. absurd (ground (arith, free, busy)))
          | inr k ↦ rw k (c.coherent u h)
        ]);
}
