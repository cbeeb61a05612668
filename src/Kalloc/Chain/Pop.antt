-- ===== src/Kalloc/Chain/Pop.antt =====
-- kalloc takes the head of the list.
use cs.Prelude.{ℕ, ◌≡◌, refl, inl, inr, true, false, Bool-cases, arith, ◌==◌, if◌then◌else◌}
use cs.Prelude.Run.{Yields, yields}
use cs.Bytes.{word_at}
use cs.Spinlock
use cs.Spinlock.{Held}
use cs.Proc.Table.Lock.{IsFree, taken, given_back, given_back-IsFree}
use cs.Kalloc.{Kmem, lock_kmem, unlock_kmem, kalloc}

-- What kalloc leaves.
abbrev pub Taken : Kmem → ℕ → Kmem → Type 0
Taken s r t =
    (r ≡ s.freelist)
    × (t.memory ≡ s.memory)
    × (t.freelist ≡ (if s.freelist == 0 then 0 else word_at s.memory s.freelist))
    × IsFree t.held

pub kalloc-Taken : (s : Kmem) → IsFree s.held → Yields (Taken s) (kalloc s)
unfolding kalloc lock_kmem unlock_kmem Spinlock.acquire Spinlock.release
kalloc-Taken s free = elim (Bool-cases s.use_lock) [
  | inl e ↦ elim (Bool-cases (s.freelist == 0)) [
    | inl none ↦
        let nothing : s.freelist ≡ (if s.freelist == 0 then 0 else word_at s.memory s.freelist) =
          rw none (ground arith) in
        rw (e, free.not_held, free.no_cli, none)
          (yields {s = record s { held = given_back (taken s.held); use_lock = true }}
            (refl, refl, nothing, given_back-IsFree (taken s.held)))
    | inr some ↦
        let rest : word_at s.memory s.freelist
            ≡ (if s.freelist == 0 then 0 else word_at s.memory s.freelist) =
          rw some refl in
        rw (e, free.not_held, free.no_cli, some)
          (yields
            {s = record s {
              held = given_back (taken s.held);
              use_lock = true;
              freelist = word_at s.memory s.freelist;
            }}
            (refl, refl, rest, given_back-IsFree (taken s.held)))
  ]
  | inr e ↦ elim (Bool-cases (s.freelist == 0)) [
    | inl none ↦
        let nothing : s.freelist ≡ (if s.freelist == 0 then 0 else word_at s.memory s.freelist) =
          rw none (ground arith) in
        rw (e, none) (yields {s = record s { use_lock = false }} (refl, refl, nothing, free))
    | inr some ↦
        let rest : word_at s.memory s.freelist
            ≡ (if s.freelist == 0 then 0 else word_at s.memory s.freelist) =
          rw some refl in
        rw (e, some)
          (yields {s = record s { use_lock = false; freelist = word_at s.memory s.freelist }}
            (refl, refl, rest, free))
  ]
]
