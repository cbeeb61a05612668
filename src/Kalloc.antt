-- ===== src/Kalloc.antt =====
-- The page allocator of kalloc.c: a list of free pages, linked through their first words.
pub mod Pages
pub mod Chain
mod Tests
use Prim.Native.String.{String}
use cs.Prelude.{
  ℕ, zero, suc, ◌+◌, ◌-◌, ◌*◌, ◌%◌, ◌/◌, Bool, true, false, not, ◌||◌, ◌==◌, leb, ltb,
  if◌then◌else◌,
}
use cs.Prelude.Run.{Cmd, ok, panic, fault, out_of_fuel, pure, fetch, modify, ◌>>=◌, ◌>>◌}
use cs.Bytes.{Memory, poke_word, word_at, memset}
use cs.Spinlock
use cs.Spinlock.{Held, within}

abbrev pub pgsize : ℕ
pgsize = 4096

abbrev pub kernbase : ℕ
kernbase = 2147483648

abbrev pub phystop : ℕ
phystop = 234881024

-- kmem, the memory, and `end`, the first address after the kernel.
pub record Kmem : Type 0 where
  pub memory : Memory
  pub held : Held
  pub use_lock : Bool
  pub freelist : ℕ
  pub end : ℕ

-- `if(kmem.use_lock) acquire(&kmem.lock);` and the same with release.
unfoldable pub lock_kmem : Cmd Kmem (Unit {0})
lock_kmem s =
    if s.use_lock
    then within (λ s. s.held) (λ s h. record s { held = h }) Spinlock.acquire s
    else ok tt s

unfoldable pub unlock_kmem : Cmd Kmem (Unit {0})
unlock_kmem s =
    if s.use_lock
    then within (λ s. s.held) (λ s h. record s { held = h }) Spinlock.release s
    else ok tt s

-- The test of kfree; the kernel's addresses are above kernbase.
abbrev pub is_bad_page : Kmem → ℕ → Bool
is_bad_page s v = not (v % pgsize == 0) || ltb v s.end || leb phystop (v - kernbase)

unfoldable pub kfree : ℕ → Cmd Kmem (Unit {0})
kfree v s =
    if is_bad_page s v
    then panic "kfree"
    else (do
      modify (λ s. record s { memory = memset v 1 pgsize s.memory })
      lock_kmem
      modify (λ s. record s { memory = poke_word s.memory v s.freelist; freelist = v })
      unlock_kmem)
        s

unfoldable pub kalloc : Cmd Kmem ℕ
kalloc = do
  lock_kmem
  s ← fetch
  modify (λ s. if s.freelist == 0 then s else record s { freelist = word_at s.memory s.freelist })
  unlock_kmem
  pure s.freelist

-- PGROUNDUP and PGROUNDDOWN, as long as they do not wrap around.
abbrev pub round_up : ℕ → ℕ
round_up a = (a + pgsize - 1) / pgsize * pgsize

abbrev pub round_down : ℕ → ℕ
round_down a = a / pgsize * pgsize

-- The loop of freerange from `p` on, at most `k` rounds.
unfoldable pub free_loop : (k p vend : ℕ) → Cmd Kmem (Unit {0})
free_loop zero p vend = λ _. out_of_fuel
free_loop (suc k) p vend =
    if leb (p + pgsize) vend then (do kfree p; free_loop k (p + pgsize) vend) else pure tt

unfoldable pub freerange : (vstart vend : ℕ) → Cmd Kmem (Unit {0})
freerange vstart vend = free_loop (vend / pgsize + 1) (round_up vstart) vend

-- kinit1, after initlock, and kinit2.
unfoldable pub kinit1 : (vstart vend : ℕ) → Cmd Kmem (Unit {0})
unfolding freerange
kinit1 vstart vend = do modify (λ s. record s { use_lock = false }); freerange vstart vend

unfoldable pub kinit2 : (vstart vend : ℕ) → Cmd Kmem (Unit {0})
unfolding freerange
kinit2 vstart vend = do freerange vstart vend; modify (λ s. record s { use_lock = true })
