-- ===== src/Proc/Init/First.antt =====
-- The first process: what userinit leaves.
use cs.Prelude.{
  ℕ, ◌≤◌, ◌≡◌, refl, ◌∙◌, ap, sym, subst, ◌≢◌, inl, inr, true, [], arith, ==_refl, ==_ne,
}
use cs.Prelude.Finite.{has}
use cs.Prelude.Count.{count}
use cs.Prelude.Run.{Yields, yields, Yields-bind, Yields-mono}
use cs.Bytes.{Memory}
use cs.Proc.Table.{Ptr, nproc, maxprio, runnable, Proc, ready, free_list, embryo_list, Kern, put}
use cs.Proc.Table.Lock.{
  IsFree, IsHeld, taken, given_back, acquire-ok, release-ok, taken-IsHeld, given_back-IsFree,
}
use cs.Proc.Lists.{home_of}
use cs.Proc.Lists.Members.{Members}
use cs.Proc.Lists.Moves.{Inv, move, relist-Inv, has-move_self, assert_state-ok}
use cs.Proc.Lists.Updates.{Inv-Entry, Pending-Entry, assign-ok, deref-ok}
use cs.Proc.Lists.Change.{on-ne_null, held-SameBut}
use cs.Proc.Sched.Budget.{is_list-ready}
use cs.Proc.Alloc.Invariant.{allocproc-Inv}
use cs.Proc.Init.{page_size, first_fields, start_first, userinit}
use cs.Proc.Init.FreeList.{freed, init_table-AllFree}

-- `t` has process `p` as init, at the entry of its program and with the owner 0.
pub record Launched (t : Kern) (p pgdir root : ℕ) : Type 0 where
  pub state : (t.procs p).state ≡ runnable
  pub is_init : t.initproc ≡ p
  pub memory : ((t.procs p).sz ≡ page_size) × ((t.procs p).pgdir ≡ pgdir)
  pub entry : ((t.procs p).frame.eip ≡ 0) × ((t.procs p).frame.esp ≡ page_size)
  pub cwd : (t.procs p).cwd ≡ root
  pub owner : ((t.procs p).uid ≡ 0) × ((t.procs p).gid ≡ 0)

start_first-Launched :
    (s : Kern) (L : Members) (p pgdir cwd : ℕ) (initcode : Memory)
    → Inv s L
    → IsFree s.held
    → has p (L embryo_list) ≡ true
    → (s.procs p).priority ≡ 0
    → pgdir ≢ 0
    → Yields
        (λ _ t.
          Inv t (move L embryo_list (ready 0) p)
          × Launched t p pgdir cwd
          × (t.held ≡ given_back (taken s.held)))
        (start_first p pgdir cwd initcode s)
unfolding start_first first_fields home_of
start_first-Launched s L p pgdir cwd initcode v free on prio np0 =
    let np = on-ne_null s L embryo_list p v on in
    let v2 : Proc = record (s.procs p) { pgdir = pgdir } in
    let s1 : Kern = record s { initproc = p } in
    let s2 : Kern = record s1 { procs = put s.procs p v2 } in
    let i2 = Inv-Entry s s2 L p v2 v (record { procs = refl; ends = refl }) refl refl (v.prios p) in
    let e2 : s2.procs p ≡ v2 = rw (==_refl p) refl in
    let v3 = first_fields cwd initcode (s2.procs p) in
    let s3 : Kern = record s2 { procs = put s2.procs p v3 } in
    let s4 : Kern = record s3 { held = taken s.held } in
    let e3 : s4.procs p ≡ first_fields cwd initcode v2 = rw (==_refl p) refl in
    let zero_prio : (s4.procs p).priority ≡ 0 = ap (λ (z : Proc). z.priority) e3 ∙ prio in
    let same : ready (s2.procs p).priority ≡ ready (s4.procs p).priority =
      ap ready (ap (λ (z : Proc). z.priority) e2 ∙ prio ∙ sym zero_prio) in
    let pending =
      Pending-Entry s2 s4 L p v3 (ready (s4.procs p).priority) i2
        (record { procs = refl; ends = refl }) refl same (i2.prios p) in
    let named = is_list-ready (s4.procs p).priority (rw zero_prio (omega arith)) in
    rw
      (
        assign-ok s1 p (λ q. record q { pgdir = pgdir }) np,
        ==_ne pgdir 0 np0,
        assign-ok s2 p (first_fields cwd initcode) np,
        acquire-ok s3 free,
        deref-ok s4 p np,
      )
      (Yields-bind
        (relist-Inv s4 L p embryo_list (ready (s4.procs p).priority) _ _ pending refl named on)
        λ _ t (w, d).
          let held = held-SameBut s4 t d in
          let still : IsHeld t.held = rw held (taken-IsHeld s.held) in
          let e4 : t.procs p ≡ record (first_fields cwd initcode v2) { next = (t.procs p).next } =
            d.fields p ∙ ap (λ (z : Proc). record z { next = (t.procs p).next }) e3 in
          let state : (t.procs p).state ≡ runnable = ap (λ (z : Proc). z.state) e4 in
          let w0 : Inv t (move L embryo_list (ready 0) p) =
            subst (λ i. Inv t (move L embryo_list (ready i) p)) zero_prio w in
          let t1 : Kern = record t { held = given_back t.held } in
          rw
            (
              assert_state-ok t p runnable np state,
              release-ok t still,
              assign-ok t1 p (λ q. record q { uid = 0; gid = 0 }) np,
            )
            (yields (
              Inv-Entry t _ _ p (record (t.procs p) { uid = 0; gid = 0 }) w0
                  (record { procs = refl; ends = refl }) refl refl (w0.prios p),
              record {
                state = rw (==_refl p) state;
                is_init = ap (λ (z : Kern). z.initproc) d.rest;
                memory = rw (==_refl p) (ap (λ (z : Proc). z.sz) e4, ap (λ (z : Proc). z.pgdir) e4);
                entry =
                    rw (==_refl p)
                      (ap (λ (z : Proc). z.frame.eip) e4, ap (λ (z : Proc). z.frame.esp) e4);
                cwd = rw (==_refl p) (ap (λ (z : Proc). z.cwd) e4);
                owner = rw (==_refl p) (refl, refl);
              },
              ap given_back held,
            )))

-- userinit with memory for the kernel stack and the page table makes the first process of the table
-- init: it is runnable, at the entry of its program, with the owner 0, and it is alone on the ready
-- list of priority 0, with all other processes on the free list in the order of the table. The table
-- invariant holds, and the lock is given back. Before, the table may be in any state with priorities
-- up to MAXPRIO.
pub userinit-Launched :
    (s : Kern) (kstack pgdir cwd : ℕ) (initcode : Memory)
    → IsFree s.held
    → ((q : Ptr) → (s.procs q).priority ≤ maxprio)
    → kstack ≢ 0
    → pgdir ≢ 0
    → Yields
        (λ _ t.
          Inv t (move (move (freed nproc) free_list embryo_list 1) embryo_list (ready 0) 1)
          × Launched t 1 pgdir cwd
          × (t.held ≡ given_back (taken s.held)))
        (userinit kstack pgdir cwd initcode s)
unfolding userinit
userinit-Launched s kstack pgdir cwd initcode free prios nk np =
    Yields-bind (init_table-AllFree s free prios) λ _ s1 (v, _, held, _, _).
      let first : (s1.ends free_list).head ≡ 1 = (v.lists.queue free_list refl).chain.0 in
      let free1 : IsFree s1.held = rw held (given_back-IsFree (taken s.held)) in
      Yields-bind (allocproc-Inv s1 (freed nproc) kstack v free1) λ p t w. elim w [
        | inl (_, none, _) ↦ let k : count 1 nproc ≡ [] = none in cc
        | inr (inl (e, _, i, f, held')) ↦
            let i1 : Inv t (move (freed nproc) free_list embryo_list 1) =
              subst (λ h. Inv t (move (freed nproc) free_list embryo_list h)) first i in
            let prio : (t.procs 1).priority ≡ 0 =
              subst (λ h. (t.procs h).priority ≡ 0) first f.schedule.0 in
            let free2 : IsFree t.held = rw held' (given_back-IsFree (taken s1.held)) in
            let chosen : p ≡ 1 = e ∙ first in
            rw chosen (
              Yields-mono
                (start_first-Launched t _ 1 pgdir cwd initcode i1 free2
                  (has-move_self (freed nproc) free_list embryo_list 1) prio np)
                λ _ u (a, b, c). (
                  a,
                  b,
                  c ∙ ap (λ z. given_back (taken z)) held' ∙ ap (λ z. given_back (taken z)) held,
                ))
        | inr (inr (_, z, _, _)) ↦ absurd (nk z)
      ]
