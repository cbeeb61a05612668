-- ===== src/Proc/Fork/Invariant.antt =====
-- fork on each of its paths.
use cs.Prelude.{
  ℕ, ◌≡◌, refl, ◌∙◌, ap, sym, subst, ◌≢◌, ◌⊎◌, inl, inr, true, false, [], arith, ◌==◌, ==_ne,
  Bool-cases,
}
use cs.Prelude.Finite.{has}
use cs.Prelude.Int.{ℤ, negsuc, to_int}
use cs.Prelude.Run.{Yields, yields, Yields-bind, Yields-mono}
use cs.Proc.Table.{
  Ptr, null, Proc, ListName, ready, free_list, embryo_list, running_list, Kern, put, same_list,
  same_list_iff,
}
use cs.Proc.Table.Lock.{IsFree, taken, given_back, given_back-IsFree}
use cs.Proc.Lists.{home_of}
use cs.Proc.Lists.Members.{Members}
use cs.Proc.Lists.Moves.{Inv, move, has-move_self}
use cs.Proc.Lists.Updates.{Inv-Entry, assign-ok}
use cs.Proc.Lists.Change.{on-ne_null}
use cs.Proc.Alloc.Invariant.{IsFresh, allocproc-Inv}
use cs.Proc.Fork.{fork_found, fork}
use cs.Proc.Fork.Child.{fork_undo-Inv, IsChild, fork_child-Born}

-- fork on each of its paths: `p` is the head of the free list.
abbrev pub Forked : Kern → Members → (p kstack pgdir : ℕ) → ℤ → Kern → Type 0
Forked s L p kstack pgdir r t =
    ((r ≡ negsuc 0) × (L free_list ≡ []) × (t ≡ record s { held = given_back (taken s.held) }))
    ⊎ ((r ≡ negsuc 0)
        × ((kstack ≡ 0) ⊎ (pgdir ≡ 0))
        × Inv t (move (move L free_list embryo_list p) embryo_list free_list p))
    ⊎ ((r ≡ to_int s.next_pid)
        × (kstack ≢ 0)
        × (pgdir ≢ 0)
        × Inv t (move (move L free_list embryo_list p) embryo_list (ready 0) p)
        × IsChild s.current (s.procs s.current) s.next_pid kstack pgdir (t.procs p)
        × ((q : Ptr) → p ≢ q → t.procs q ≡ record (s.procs q) { next = (t.procs q).next }))

-- A process on one list is not the process on another.
elsewhere :
    (s : Kern) (L : Members) (m n : ListName) (p q : Ptr)
    → Inv s L
    → has p (L m) ≡ true
    → has q (L n) ≡ true
    → same_list m n ≡ false
    → p ≢ q
elsewhere s L m n p q v a b o e =
    let a' : has q (L m) ≡ true = subst (λ z. has z (L m) ≡ true) e a in
    let same = (same_list_iff m n).1 (v.lists.apart m n q a' b) in cc

fork_found-Forked :
    (s t : Kern) (L : Members) (p kstack pgdir : ℕ)
    → has s.current (L running_list) ≡ true
    → kstack ≢ 0
    → Inv t (move L free_list embryo_list p)
    → IsFresh (record s { held = taken s.held }) t p kstack
    → t.held ≡ given_back (taken s.held)
    → Yields
        (λ r u. Forked s L p kstack pgdir r u × (u.held ≡ given_back (taken s.held)))
        (fork_found pgdir p t)
unfolding fork_found home_of
fork_found-Forked s t L p kstack pgdir on nk v f held =
    let me = t.current in
    let on' : has me (L running_list) ≡ true =
      subst (λ z. has z (L running_list) ≡ true) (sym f.current) on in
    let L1 = move L free_list embryo_list p in
    let on_p = has-move_self L free_list embryo_list p in
    let np = on-ne_null t L1 embryo_list p v on_p in
    let n1 = on-ne_null t L1 running_list me v on' in
    let apart = elsewhere t L1 embryo_list running_list p me v on_p on' refl in
    let e : Proc = record (t.procs p) { pgdir = pgdir } in
    let t1 : Kern = record t { procs = put t.procs p e } in
    let v1 = Inv-Entry t t1 L1 p e v (record { procs = refl; ends = refl }) refl refl (v.prios p) in
    let free : IsFree t.held = rw held (given_back-IsFree (taken s.held)) in
    rw (assign-ok t p (λ r. record r { pgdir = pgdir }) np) (elim (Bool-cases (pgdir == 0)) [
      | inl z ↦ rw z (
          Yields-mono (fork_undo-Inv t1 L1 p v1 free on_p) λ r u (a, b, c).
            (inr (inl (a, inr (ground arith), b)), c ∙ ap (λ z. given_back (taken z)) held))
      | inr o ↦ rw o (
          Yields-mono (fork_child-Born t L1 me p pgdir v free on_p n1 apart) λ r u (a, b). (
            inr (
                inr (
                  a ∙ ap to_int f.pid,
                  nk,
                  ground arith,
                  subst (λ i. Inv u (move L1 embryo_list (ready i) p)) f.schedule.0 b.inv,
                  subst (λ z. IsChild z (s.procs z) s.next_pid kstack pgdir (u.procs p)) f.current
                      (b.child (s.procs me) s.next_pid kstack (f.else_same me apart) f.pid f.stack
                        f.schedule),
                  λ q ne.
                      b.else_same q ne
                      ∙ ap (λ (z : Proc). record z { next = (u.procs q).next }) (f.else_same q ne),
                )),
            b.held ∙ ap (λ z. given_back (taken z)) held,
          ))
    ])

-- For a running process, on a table that meets the invariant and with a free lock:
-- fork without a free process returns -1 and changes no process. Without memory for the kernel stack
-- or for the copy of the parent's memory it returns -1, and the process that it took is at the end of
-- the free list. Else it returns the next pid, and the head of the free list is a ready child of the
-- current process, at the end of the ready list of priority 0, with the parent's size, trap frame
-- (but for the result 0), open files, directory, name and owner, and no other process changes but
-- for links. The lock is given back, and the table invariant holds.
pub fork-Forked :
    (s : Kern) (L : Members) (kstack pgdir : ℕ)
    → Inv s L
    → IsFree s.held
    → has s.current (L running_list) ≡ true
    → Yields
        (λ r t.
          Forked s L (s.ends free_list).head kstack pgdir r t
          × (t.held ≡ given_back (taken s.held)))
        (fork kstack pgdir s)
unfolding fork
fork-Forked s L kstack pgdir v free on = Yields-bind (allocproc-Inv s L kstack v free) λ r t w.
    elim w [
      | inl (e, none, same) ↦ rw e (yields (inl (refl, none, same), ap (λ (z : Kern). z.held) same))
      | inr (inl (e, nk, i, f, held)) ↦
          let p = (s.ends free_list).head in
          let np =
            on-ne_null t (move L free_list embryo_list p) embryo_list p i
              (has-move_self L free_list embryo_list p) in
          rw (e, ==_ne p null np) (fork_found-Forked s t L p kstack pgdir on nk i f held)
      | inr (inr (e, z, i, held)) ↦ rw e (yields (inr (inl (refl, inl z, i)), held))
    ]
