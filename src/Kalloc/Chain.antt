-- ===== src/Kalloc/Chain.antt =====
-- The free list as the list of its pages: kfree, kalloc and freerange.
pub mod Push
pub mod Pop
use cs.Prelude.{
  ℕ, zero, suc, ◌+◌, ◌-◌, ◌*◌, ◌/◌, ◌%◌, ◌^◌, ◌≤◌, ◌<◌, ◌≡◌, refl, ◌∙◌, sym, subst, ◌≢◌, ◌⊎◌, inl,
  inr, true, false, Bool-cases, List, [], ◌∷◌, arith, ◌==◌, ==_ne, ltb, leb, if◌then◌else◌,
}
use cs.Prelude.Run.{Yields, yields, Yields-bind, Yields-mono}
use cs.Bytes.{Memory, poke_word, word_at, memset}
use cs.Bytes.Words.{word_at-poke_word, word_at-poke_ne}
use cs.Bytes.Fill.{memset-filled}
use cs.Spinlock
use cs.Spinlock.{Held}
use cs.Proc.Table.Lock.{IsFree, taken, given_back, given_back-IsFree}
use cs.Kalloc.{
  pgsize, kernbase, phystop, Kmem, lock_kmem, unlock_kmem, is_bad_page, kfree, kalloc, round_up,
  free_loop, freerange,
}
use cs.Kalloc.Chain.Push.{Chain, Apart, freed, Chain-freed, Freed, kfree-Freed, head_small}
use cs.Kalloc.Chain.Pop.{Taken, kalloc-Taken}

-- The state of the allocator with these free pages.
pub record HasPages (s : Kmem) (ps : List ℕ) : Type 0 where
  pub chain : Chain s.memory s.freelist ps
  pub lock_free : IsFree s.held

-- kfree puts a page that is not free before the free pages.
pub kfree-HasPages :
    (s : Kmem) (v : ℕ) (ps : List ℕ)
    → HasPages s ps
    → is_bad_page s v ≡ false
    → 0 < v
    → v < 2 ^ 32
    → Apart v ps
    → Yields (λ _ t. HasPages t (v ∷ ps) × (t.end ≡ s.end)) (kfree v s)
kfree-HasPages s v ps pages good pos small apart =
    Yields-mono (kfree-Freed s v pages.lock_free good) λ _ t (memory, list, end, _, free). (
      record {
        chain =
            subst (λ m. Chain m t.freelist (v ∷ ps)) (sym memory)
              (
                list,
                pos,
                small,
                aligned,
                subst (λ w. Chain (freed s.memory v s.freelist) w ps)
                    (sym (
                      word_at-poke_word (memset v 1 pgsize s.memory) v s.freelist
                        (head_small s.memory s.freelist ps pages.chain)))
                    (Chain-freed s.memory v s.freelist s.freelist ps aligned apart pages.chain),
              );
        lock_free = free;
      },
      end,
    )
  where
    aligned : v % pgsize ≡ 0
    aligned = ground (arith, good)

abbrev pub first_page : List ℕ → ℕ
first_page [] = 0
first_page (p ∷ _) = p

abbrev pub later_pages : List ℕ → List ℕ
later_pages [] = []
later_pages (_ ∷ ps) = ps

next_pages :
    (m : Memory) (head : ℕ) (ps : List ℕ)
    → Chain m head ps
    → Chain m (if head == 0 then 0 else word_at m head) (later_pages ps)
next_pages m head [] e = rw e refl
next_pages m head (p ∷ ps) (e, pos, small, aligned, rest) =
    rw (==_ne head 0 (omega (arith, e, pos))) (subst (λ h. Chain m (word_at m h) ps) (sym e) rest)

-- kalloc returns the first free page and leaves the others, or returns 0 if there is none; the memory
-- stays as it was.
pub kalloc-HasPages :
    (s : Kmem) (ps : List ℕ)
    → HasPages s ps
    → Yields
        (λ r t. (r ≡ first_page ps) × (t.memory ≡ s.memory) × HasPages t (later_pages ps))
        (kalloc s)
kalloc-HasPages s ps pages =
    Yields-mono (kalloc-Taken s pages.lock_free) λ r t (first, memory, list, free). (
      first ∙ head_first ps pages.chain,
      memory,
      record {
        chain =
            subst (λ m. Chain m t.freelist (later_pages ps)) (sym memory)
              (subst (λ h. Chain s.memory h (later_pages ps)) (sym list)
                (next_pages s.memory s.freelist ps pages.chain));
        lock_free = free;
      },
    )
  where
    head_first : (qs : List ℕ) → Chain s.memory s.freelist qs → s.freelist ≡ first_page qs
    head_first [] e = e
    head_first (q ∷ qs) (e, _, _, _, _) = e

-- The pages from `p` on, `n` of them, put before `ps` one after the other.
abbrev pub pushed : (n p : ℕ) → List ℕ → List ℕ
pushed zero p ps = ps
pushed (suc n) p ps = pushed n (p + pgsize) (p ∷ ps)

free_loop-HasPages :
    (k n p vend : ℕ) (s : Kmem) (ps : List ℕ)
    → HasPages s ps
    → n < k
    → p % pgsize ≡ 0
    → 0 < p
    → s.end ≤ p
    → p + n * pgsize ≤ vend
    → vend < p + (n + 1) * pgsize
    → vend ≤ kernbase + phystop
    → ((q : ℕ) → p ≤ q → Apart q ps)
    → Yields (λ _ t. HasPages t (pushed n p ps)) (free_loop k p vend s)
unfolding free_loop
free_loop-HasPages zero n p vend s ps pages fuel aligned pos low enough short top apart =
    absurd (omega arith)
free_loop-HasPages (suc k) zero p vend s ps pages fuel aligned pos low enough short top apart =
    let done : leb (p + pgsize) vend ≡ false = ground arith in rw done (yields pages)
free_loop-HasPages (suc k) (suc n) p vend s ps pages fuel aligned pos low enough short top apart =
    let more : leb (p + pgsize) vend ≡ true = ground arith in
    let good : is_bad_page s p ≡ false = ground arith in
    rw more (
      Yields-bind (kfree-HasPages s p ps pages good pos (omega arith) (apart p (omega arith)))
        λ _ t (pages', end).
          free_loop-HasPages k n (p + pgsize) vend t (p ∷ ps) pages' (omega arith) (omega arith)
            (omega arith) (omega (arith, end)) (omega arith) (omega arith) top
            (λ q a. (omega arith, apart q (omega arith))))

-- freerange above the kernel and up to KERNBASE + PHYSTOP at most, where no page at or above the start of
-- the range is free, makes every page that lies in the range free, and keeps the pages that were free.
pub freerange-HasPages :
    (s : Kmem) (vstart vend : ℕ) (ps : List ℕ)
    → HasPages s ps
    → 0 < vstart
    → s.end ≤ vstart
    → round_up vstart ≤ vend
    → vend ≤ kernbase + phystop
    → ((q : ℕ) → vstart ≤ q → Apart q ps)
    → Yields
        (λ _ t. HasPages t (pushed ((vend - round_up vstart) / pgsize) (round_up vstart) ps))
        (freerange vstart vend s)
unfolding freerange
freerange-HasPages s vstart vend ps pages pos low le top apart =
    free_loop-HasPages (vend / pgsize + 1) ((vend - round_up vstart) / pgsize) (round_up vstart)
      vend s ps pages (omega arith) (omega arith) (omega arith) (omega arith) (omega arith)
      (omega arith) top (λ q a. apart q (omega arith))
