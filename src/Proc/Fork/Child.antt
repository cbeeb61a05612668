-- ===== src/Proc/Fork/Child.antt =====
-- The ends of fork: the new process is given up, or becomes a ready child.
use cs.Prelude.{ℕ, ◌≡◌, refl, ◌∙◌, ap, subst, ◌≢◌, true, false, ◌∷◌, arith, ◌==◌, ==_refl, ltb}
use cs.Prelude.Finite.{has}
use cs.Prelude.Int.{negsuc, to_int}
use cs.Prelude.Run.{Yields, yields, Yields-bind}
use cs.Proc.Table.{
  Ptr, null, unused, runnable, Proc, ready, free_list, embryo_list, Kern, put, call, kfree, nofile,
  initial_budget,
}
use cs.Proc.Table.Lock.{IsFree, IsHeld, taken, given_back, acquire-ok, release-ok, taken-IsHeld}
use cs.Proc.Lists.{home_of}
use cs.Proc.Lists.Members.{Members}
use cs.Proc.Lists.Moves.{Inv, move, relist-Inv, assert_state-ok}
use cs.Proc.Lists.Updates.{Inv-Entry, Inv-same, Pending-Entry, assign-ok, deref-ok}
use cs.Proc.Lists.Change.{Changed-self, Changed-else, change_then, on-ne_null, held-SameBut}
use cs.Proc.Sched.Budget.{is_list-ready}
use cs.Proc.Fork.{fork_undo, fork_start, fork_child, name_size}
use cs.Bytes.{Memory, safestrcpy}
use cs.Proc.Fork.Files.{Inherits, fork_copy-ForkCopied, ForkCopied-Inv}

pub fork_undo-Inv :
    (s : Kern) (L : Members) (p : Ptr)
    → Inv s L
    → IsFree s.held
    → has p (L embryo_list) ≡ true
    → Yields
        (λ r t.
          (r ≡ negsuc 0)
          × Inv t (move L embryo_list free_list p)
          × (t.held ≡ given_back (taken s.held)))
        (fork_undo p s)
unfolding fork_undo home_of call
fork_undo-Inv s L p v free on =
    let np = on-ne_null s L embryo_list p v on in
    let q : Proc = record (s.procs p) { kstack = 0; state = unused } in
    let s1 : Kern = record s { calls = kfree (s.procs p).kstack ∷ s.calls } in
    let s2 : Kern = record s1 { procs = put s.procs p q } in
    let s3 : Kern = record s2 { held = taken s.held } in
    let pending =
      Pending-Entry s s3 L p q free_list v (record { procs = refl; ends = refl }) refl refl
        (v.prios p) in
    rw
      (
        deref-ok s p np,
        assign-ok s1 p (λ q. record q { kstack = 0; state = unused }) np,
        acquire-ok s2 free,
      )
      (Yields-bind (relist-Inv s3 L p embryo_list free_list _ _ pending refl refl on) λ _ t (v', d).
        let held = held-SameBut s3 t d in
        let still : IsHeld t.held = rw held (taken-IsHeld s.held) in
        let state : (t.procs p).state ≡ unused =
          ap (λ (z : Proc). z.state) (d.fields p) ∙ rw (==_refl p) refl in
        rw (assert_state-ok t p unused np state, release-ok t still)
          (yields (refl, Inv-same t _ _ v' refl refl, ap given_back held)))

-- The child is ready, at its priority.
record Started (s t : Kern) (L : Members) (p : Ptr) : Type 0 where
  inv : Inv t (move L embryo_list (ready (s.procs p).priority) p)
  child : t.procs p ≡ record (s.procs p) { state = runnable; next = (t.procs p).next }
  else_same : (q : Ptr) → p ≢ q → t.procs q ≡ record (s.procs q) { next = (t.procs q).next }
  held : t.held ≡ given_back (taken s.held)

fork_start-Started :
    (s : Kern) (L : Members) (p : Ptr)
    → Inv s L
    → IsFree s.held
    → has p (L embryo_list) ≡ true
    → Yields (λ _ t. Started s t L p) (fork_start p s)
unfolding fork_start home_of
fork_start-Started s L p v free on =
    let np = on-ne_null s L embryo_list p v on in
    let s1 : Kern = record s { held = taken s.held } in
    let v1 = Inv-same s s1 L v refl refl in
    rw (acquire-ok s free, deref-ok s1 p np)
      (change_then s1 L p embryo_list (ready (s.procs p).priority)
        (λ q. record q { state = runnable }) _ _ runnable _ v1 refl (is_list-ready _ (v.prios p)) on
        refl refl (v.prios p) refl
        λ t v' d.
          let held = held-SameBut _ t d in
          let still : IsHeld t.held = rw held (taken-IsHeld s.held) in
          rw (release-ok t still) (
            yields (record {
              inv = Inv-same t _ _ v' refl refl;
              child = Changed-self s1 t p _ d;
              else_same = λ q ne. Changed-else s1 t p q _ d ne;
              held = ap given_back held;
            })))

-- Child `v` of a process that was `q`: `number` is its pid.
pub record IsChild (me : Ptr) (q : Proc) (number kstack pgdir : ℕ) (v : Proc) : Type 0 where
  pub state : v.state ≡ runnable
  pub parent : v.parent ≡ me
  pub pid : v.pid ≡ number
  pub memory : (v.sz ≡ q.sz) × (v.pgdir ≡ pgdir) × (v.kstack ≡ kstack)
  pub frame : v.frame ≡ record (q.frame) { eax = 0 }
  pub files : (i : ℕ) → ltb i nofile ≡ true → (q.ofile i == 0) ≡ false → v.ofile i ≡ q.ofile i
  pub cwd : v.cwd ≡ q.cwd
  pub name : (old : Memory) × (v.name ≡ safestrcpy q.name name_size old)
  pub owner : (v.uid ≡ q.uid) × (v.gid ≡ q.gid)
  pub schedule : (v.priority ≡ 0) × (v.budget ≡ initial_budget)

-- The child's entry, put together from the steps: `v1` is the entry that allocproc has made, `v3`
-- the one after the copies, and `v4` after the move to the ready list.
IsChild-steps :
    (me : Ptr) (q q' q'' v1 v3 v4 : Proc) (n n' pid kstack pgdir : ℕ)
    → q' ≡ record q { next = n }
    → q'' ≡ record q { next = n' }
    → Inherits me q' (record v1 { pgdir = pgdir }) v3
    → v4 ≡ record v3 { state = runnable; next = v4.next }
    → v1.pid ≡ pid
    → v1.kstack ≡ kstack
    → (v1.priority ≡ 0) × (v1.budget ≡ initial_budget)
    → IsChild me q pid kstack pgdir (record v4 { uid = q''.uid; gid = q''.gid })
IsChild-steps me q q' q'' v1 v3 v4 n n' pid kstack pgdir same same' h e4 epid estack esched =
    let e3 = h.entry in
    record {
      state = ap (λ (z : Proc). z.state) e4;
      parent = ap (λ (z : Proc). z.parent) e4 ∙ ap (λ (z : Proc). z.parent) e3;
      pid = ap (λ (z : Proc). z.pid) e4 ∙ ap (λ (z : Proc). z.pid) e3 ∙ epid;
      memory = (
        ap (λ (z : Proc). z.sz) e4 ∙ ap (λ (z : Proc). z.sz) e3 ∙ ap (λ (z : Proc). z.sz) same,
        ap (λ (z : Proc). z.pgdir) e4 ∙ ap (λ (z : Proc). z.pgdir) e3,
        ap (λ (z : Proc). z.kstack) e4 ∙ ap (λ (z : Proc). z.kstack) e3 ∙ estack,
      );
      frame =
          ap (λ (z : Proc). z.frame) e4
          ∙ ap (λ (z : Proc). z.frame) e3
          ∙ ap (λ (z : Proc). record (z.frame) { eax = 0 }) same;
      files = λ i lo open_.
          ground
            (arith, ap (λ (z : Proc). z.ofile i) e4, h.ofile i, ap (λ (z : Proc). z.ofile i) same);
      cwd =
          ap (λ (z : Proc). z.cwd) e4 ∙ ap (λ (z : Proc). z.cwd) e3 ∙ ap (λ (z : Proc). z.cwd) same;
      name = (
        v1.name,
        ap (λ (z : Proc). z.name) e4
            ∙ ap (λ (z : Proc). z.name) e3
            ∙ ap (λ (z : Proc). safestrcpy z.name name_size v1.name) same,
      );
      owner = (ap (λ (z : Proc). z.uid) same', ap (λ (z : Proc). z.gid) same');
      schedule = (
        ap (λ (z : Proc). z.priority) e4 ∙ ap (λ (z : Proc). z.priority) e3 ∙ esched.0,
        ap (λ (z : Proc). z.budget) e4 ∙ ap (λ (z : Proc). z.budget) e3 ∙ esched.1,
      );
    }

-- fork_child from the kernel `s1` that allocproc has left, with `np` an embryo.
pub record Born (s1 t : Kern) (L : Members) (me np pgdir : ℕ) : Type 0 where
  pub inv : Inv t (move L embryo_list (ready (s1.procs np).priority) np)
  pub child :
      (q : Proc) (pid kstack : ℕ)
      → s1.procs me ≡ record q { next = (s1.procs me).next }
      → (s1.procs np).pid ≡ pid
      → (s1.procs np).kstack ≡ kstack
      → ((s1.procs np).priority ≡ 0) × ((s1.procs np).budget ≡ initial_budget)
      → IsChild me q pid kstack pgdir (t.procs np)
  pub else_same : (q : Ptr) → np ≢ q → t.procs q ≡ record (s1.procs q) { next = (t.procs q).next }
  pub held : t.held ≡ given_back (taken s1.held)

pub fork_child-Born :
    (s1 : Kern) (L : Members) (me np pgdir : ℕ)
    → Inv s1 L
    → IsFree s1.held
    → has np (L embryo_list) ≡ true
    → me ≢ null
    → np ≢ me
    → Yields
        (λ r t. (r ≡ to_int (s1.procs np).pid) × Born s1 t L me np pgdir)
        (fork_child me np
          (record s1 { procs = put s1.procs np (record (s1.procs np) { pgdir = pgdir }) }))
unfolding fork_child home_of
fork_child-Born s1 L me np pgdir v free on n1 apart =
    let n2 = on-ne_null s1 L embryo_list np v on in
    let e : Proc = record (s1.procs np) { pgdir = pgdir } in
    let s2 : Kern = record s1 { procs = put s1.procs np e } in
    let v2 =
      Inv-Entry s1 s2 L np e v (record { procs = refl; ends = refl }) refl refl (v.prios np) in
    let e2 : s2.procs np ≡ e = rw (==_refl np) refl in
    let miss : (me == np) ≡ false = ground arith in
    let m2 : s2.procs me ≡ s1.procs me = rw miss refl in
    Yields-bind (fork_copy-ForkCopied me np s2 n1 n2 apart) λ _ s3 g.
      let v3 = ForkCopied-Inv s2 s3 L me np v2 g in
      let held3 : s3.held ≡ s1.held = ap (λ (z : Kern). z.held) g.rest in
      rw (deref-ok s3 np n2) (
        Yields-bind (fork_start-Started s3 L np v3 (rw held3 free) on) λ _ s4 w.
          let m4 : s4.procs me ≡ record (s1.procs me) { next = (s4.procs me).next } =
            w.else_same me apart
            ∙ ap (λ (z : Proc). record z { next = (s4.procs me).next }) (g.others me apart ∙ m2) in
          let prio : (s3.procs np).priority ≡ (s1.procs np).priority =
            ap (λ (z : Proc). z.priority) g.child.entry ∙ ap (λ (z : Proc). z.priority) e2 in
          let number : (s3.procs np).pid ≡ (s1.procs np).pid =
            ap (λ (z : Proc). z.pid) g.child.entry ∙ ap (λ (z : Proc). z.pid) e2 in
          let h : Inherits me (s2.procs me) e (s3.procs np) =
            subst (λ z. Inherits me (s2.procs me) z (s3.procs np)) e2 g.child in
          let w' : Inv s4 (move L embryo_list (ready (s1.procs np).priority) np) =
            subst (λ i. Inv s4 (move L embryo_list (ready i) np)) prio w.inv in
          let q4 = s4.procs me in
          rw (deref-ok s4 me n1, assign-ok s4 np (λ r. record r { uid = q4.uid; gid = q4.gid }) n2)
            (yields (
              ap to_int number,
              record {
                inv =
                    Inv-Entry s4 _ _ np (record (s4.procs np) { uid = q4.uid; gid = q4.gid }) w'
                      (record { procs = refl; ends = refl }) refl refl (w'.prios np);
                child = λ q pid kstack same ep es sched. rw (==_refl np) (
                    IsChild-steps me q (s2.procs me) q4 (s1.procs np) (s3.procs np) (s4.procs np) _
                      _ pid kstack pgdir (m2 ∙ same)
                      (m4 ∙ ap (λ (z : Proc). record z { next = q4.next }) same) h w.child ep es
                      sched);
                else_same = λ q ne.
                    let off : (q == np) ≡ false = ground arith in
                    let s2q : s2.procs q ≡ s1.procs q = rw off refl in
                    rw off (
                      w.else_same q ne
                      ∙ ap (λ (z : Proc). record z { next = (s4.procs q).next })
                          (g.others q ne ∙ s2q));
                held = w.held ∙ ap (λ z. given_back (taken z)) held3;
              },
            )))
