-- ===== src/Proc/Alloc/Invariant.antt =====
-- allocproc keeps the invariant on each of its paths.
use cs.Prelude.{
  ℕ, ◌+◌, ◌%◌, ◌^◌, ◌≡◌, refl, ◌∙◌, ap, ◌≢◌, ◌⊎◌, inl, inr, true, false, [], arith, ◌==◌, ==_refl,
  ==_ne, ==_iff, Bool-cases,
}
use cs.Prelude.Finite.{has}
use cs.Prelude.Run.{Yields, yields, Yields-mono}
use cs.Spinlock.{Held}
use cs.Proc.Table.{
  Ptr, null, initial_budget, unused, embryo, Proc, free_list, embryo_list, Kern, put,
}
use cs.Proc.Table.Lock.{IsFree, IsHeld, taken, given_back, acquire-ok, release-ok, taken-IsHeld}
use cs.Proc.Lists.{home_of}
use cs.Proc.Lists.Members.{Members, Lists-fields}
use cs.Proc.Lists.Moves.{Inv, move, has-move_self}
use cs.Proc.Lists.Updates.{Inv-Entry, assign-ok, head_cases}
use cs.Proc.Lists.Change.{
  Changed, Changed-self, Changed-else, change_then, on-ne_null, held-SameBut,
}
use cs.Proc.Alloc.{alloc_undo, alloc_stack, alloc_found, allocproc, fresh}

-- The lock, the interrupt state and the lists' pointers do not matter to the invariant.
pub Inv-held : (s : Kern) (L : Members) (h : Held) → Inv s L → Inv (record s { held = h }) L
Inv-held s L h v = record {
  lists = Lists-fields s _ L v.lists (λ q. refl) (λ n. refl);
  homes = v.homes;
  prios = v.prios;
}

alloc_undo-Inv :
    (s : Kern) (L : Members) (p : Ptr)
    → Inv s L
    → has p (L embryo_list) ≡ true
    → Yields
        (λ r t. (r ≡ null) × Inv t (move L embryo_list free_list p) × (t.held ≡ s.held))
        (alloc_undo p s)
unfolding alloc_undo home_of
alloc_undo-Inv s L p v i =
    change_then s L p embryo_list free_list (λ q. record q { kstack = 0; state = unused }) _ _
      unused _ v refl refl i refl refl (v.prios p) refl
      λ t v' d. yields (refl, v', held-SameBut _ t d)

-- What the caller gets: `t` is `s` with process `p` made new on the kernel stack `kstack`.
pub record IsFresh (s t : Kern) (p : Ptr) (kstack : ℕ) : Type 0 where
  pub state : (t.procs p).state ≡ embryo
  pub pid : (t.procs p).pid ≡ s.next_pid
  pub start_ticks : (t.procs p).start_ticks ≡ s.ticks
  pub owner : ((t.procs p).uid ≡ 0) × ((t.procs p).gid ≡ 0)
  pub schedule : ((t.procs p).priority ≡ 0) × ((t.procs p).budget ≡ initial_budget)
  pub stack : (t.procs p).kstack ≡ kstack
  pub starts_at : ((t.procs p).saved.eip ≡ s.forkret) × ((t.procs p).return_to ≡ s.trapret)
  pub next_pid : t.next_pid ≡ (s.next_pid + 1) % 2 ^ 32
  pub current : t.current ≡ s.current
  pub else_same : (q : Ptr) → p ≢ q → t.procs q ≡ record (s.procs q) { next = (t.procs q).next }

-- A successful call on list level, and one that finds no memory for the kernel stack.
abbrev pub Found : Kern → Members → Ptr → ℕ → Ptr → Kern → Type 0
Found s L p kstack r t =
    ((r ≡ p)
      × (kstack ≢ 0)
      × Inv t (move L free_list embryo_list p)
      × IsFresh s t p kstack
      × (t.held ≡ given_back s.held))
    ⊎ ((r ≡ null)
        × (kstack ≡ 0)
        × Inv t (move (move L free_list embryo_list p) embryo_list free_list p)
        × (t.held ≡ given_back s.held))

-- The process that the first critical section leaves.
abbrev made : Kern → Ptr → Kern
made t p = record t {
  procs = put t.procs p (fresh t.next_pid t.ticks (t.procs p));
  next_pid = (t.next_pid + 1) % 2 ^ 32;
  held = given_back t.held;
}

made-Inv :
    (t : Kern) (L : Members) (p : Ptr) → Inv t L → (t.procs p).state ≡ embryo → Inv (made t p) L
unfolding fresh home_of
made-Inv t L p v e =
    Inv-Entry t (made t p) L p (fresh t.next_pid t.ticks (t.procs p)) v
      (record { procs = refl; ends = refl }) refl (rw e refl) (omega arith)

alloc_stack-Fresh :
    (s t : Kern) (L : Members) (p : Ptr) (kstack : ℕ)
    → Inv s L
    → has p (L free_list) ≡ true
    → kstack ≢ 0
    → Inv t (move L free_list embryo_list p)
    → Changed s t p (record (s.procs p) { state = embryo })
    → Yields (Found s L p kstack) (alloc_stack p kstack (made t p))
unfolding alloc_stack fresh home_of
alloc_stack-Fresh s t L p kstack v i nk v' d =
    let np = on-ne_null s L free_list p v i in
    let at_p = Changed-self s t p _ d in
    let pid : t.next_pid ≡ s.next_pid = ap (λ (z : Kern). z.next_pid) d.rest in
    let now : t.ticks ≡ s.ticks = ap (λ (z : Kern). z.ticks) d.rest in
    let forkret : t.forkret ≡ s.forkret = ap (λ (z : Kern). z.forkret) d.rest in
    let trapret : t.trapret ≡ s.trapret = ap (λ (z : Kern). z.trapret) d.rest in
    let state : (t.procs p).state ≡ embryo = ap (λ (z : Proc). z.state) at_p in
    rw (assign-ok (made t p) p _ np) (
      yields (
        inl (
          refl,
          nk,
          Inv-Entry (made t p) _ _ p _ (made-Inv t _ p v' state)
              (record { procs = refl; ends = refl }) (rw (==_refl p) refl) (rw (==_refl p) refl)
              (rw (==_refl p) (omega arith)),
          record {
            state = rw (==_refl p) state;
            pid = rw (==_refl p) pid;
            start_ticks = rw (==_refl p) now;
            owner = rw (==_refl p) (refl, refl);
            schedule = rw (==_refl p) (refl, refl);
            stack = rw (==_refl p) refl;
            starts_at = rw (==_refl p) (forkret, trapret);
            next_pid = rw pid refl;
            current = ap (λ (z : Kern). z.current) d.rest;
            else_same = λ q ne.
                let miss : (q == p) ≡ false = ground arith in rw miss (Changed-else s t p q _ d ne);
          },
          ap given_back (held-SameBut _ t d),
        )))

alloc_found-Inv :
    (s : Kern) (L : Members) (p : Ptr) (kstack : ℕ)
    → Inv s L
    → IsHeld s.held
    → has p (L free_list) ≡ true
    → Yields (Found s L p kstack) (alloc_found p kstack s)
unfolding alloc_found home_of fresh
alloc_found-Inv s L p kstack v held i =
    change_then s L p free_list embryo_list (λ q. record q { state = embryo }) _ _ embryo _ v refl
      refl i refl refl (v.prios p) refl
      λ t v' d.
        let np = on-ne_null s L free_list p v i in
        let h : t.held ≡ s.held = held-SameBut _ t d in
        let t2 : Kern = record t {
          procs = put t.procs p (fresh t.next_pid t.ticks (t.procs p));
          next_pid = (t.next_pid + 1) % 2 ^ 32;
        } in
        rw (assign-ok t p (fresh t.next_pid t.ticks) np, release-ok t2 (rw h held))
          (elim (Bool-cases (kstack == 0)) [
            | inl none_left ↦
                let at_p = ap (λ (z : Proc). z.state) (Changed-self s t p _ d) in
                rw none_left (
                  Yields-mono
                    (alloc_undo-Inv (made t p) _ p (made-Inv t _ p v' at_p)
                      (has-move_self L free_list embryo_list p))
                    λ r u (e, w, g). inr (e, (==_iff kstack 0).0 none_left, w, g ∙ ap given_back h))
            | inr got ↦ rw got (alloc_stack-Fresh s t L p kstack v i (λ e. ground arith) v' d)
          ])

-- allocproc on each of its paths: with no free process it returns null and changes nothing but the
-- lock's history; without a kernel stack it returns null and the process goes to the end of the free
-- list; and else it returns the head of the free list, made new, as the last embryo. The invariant
-- of the process table holds afterwards, and the lock is given back.
pub allocproc-Inv :
    (s : Kern) (L : Members) (kstack : ℕ)
    → Inv s L
    → IsFree s.held
    → Yields
        (λ r t.
          ((r ≡ null) × (L free_list ≡ []) × (t ≡ record s { held = given_back (taken s.held) }))
          ⊎ Found (record s { held = taken s.held }) L (s.ends free_list).head kstack r t)
        (allocproc kstack s)
unfolding allocproc
allocproc-Inv s L kstack v free =
    let s1 : Kern = record s { held = taken s.held } in
    rw (acquire-ok s free) (elim (head_cases s L free_list v.lists refl) [
      | inl (e, empty) ↦
          rw (e, release-ok s1 (taken-IsHeld s.held)) (yields (inl (refl, empty, refl)))
      | inr (ne, i) ↦ rw (==_ne _ null ne) (
          Yields-mono
            (alloc_found-Inv s1 L _ kstack (Inv-held s L (taken s.held) v) (taken-IsHeld s.held) i)
            λ r t found. inr found)
    ])
