-- ===== src/Kalloc/Pages.antt =====
-- A page that is given back is the next one that is handed out.
use cs.Prelude.{ℕ, ◌^◌, ◌<◌, ◌≡◌, refl, ◌≢◌, inl, inr, true, false, ==_ne, Bool-cases}
use cs.Prelude.Run.{Yields, yields, ◌>>◌}
use cs.Bytes.{poke_word, word_at, memset}
use cs.Bytes.Words.{word_at-poke_word}
use cs.Spinlock
use cs.Proc.Table.Lock.{IsFree, taken, given_back}
use cs.Kalloc.{pgsize, Kmem, is_bad_page, lock_kmem, unlock_kmem, kfree, kalloc}

-- After kfree of a page, kalloc returns that page, and the free list is what it was before; on the
-- way neither panics, and the lock, if it is used, is given back.
pub kalloc-kfree :
    (s : Kmem) (v : ℕ)
    → IsFree s.held
    → is_bad_page s v ≡ false
    → v ≢ 0
    → s.freelist < 2 ^ 32
    → Yields
        (λ r t. (r ≡ v) × (t.freelist ≡ s.freelist) × (t.use_lock ≡ s.use_lock) × IsFree t.held)
        ((kfree v >> kalloc) s)
unfolding kfree kalloc lock_kmem unlock_kmem Spinlock.acquire Spinlock.release
kalloc-kfree s v free good nv small =
    let m = poke_word (memset v 1 pgsize s.memory) v s.freelist in
    let back : word_at m v ≡ s.freelist =
      word_at-poke_word (memset v 1 pgsize s.memory) v s.freelist small in
    let t : Kmem = record s {
      memory = m;
      held = given_back (taken s.held);
      freelist = word_at m v;
    } in
    let u : Kmem = record s { memory = m; freelist = word_at m v } in
    elim (Bool-cases s.use_lock) [
      | inl e ↦
          rw (good, e, free.not_held, free.no_cli, ==_ne v 0 nv)
            (yields {s = record t { use_lock = true }}
              (refl, back, refl, record { not_held = refl; no_cli = refl }))
      | inr e ↦
          rw (good, e, ==_ne v 0 nv)
            (yields {s = record u { use_lock = false }} (refl, back, refl, free))
    ]
