-- ===== src/Proc/Fork/Files.antt =====
-- What the child of fork takes over from its parent.
use cs.Prelude.{
  ℕ, zero, suc, ◌+◌, ◌≡◌, refl, ◌∙◌, ap, ◌≢◌, inl, inr, false, not, ◌&&◌, ◌∷◌, arith, ◌==◌, ==_refl,
  ==_iff, subst, leb, ltb, if◌then◌else◌, Bool-cases,
}
use cs.Prelude.Run.{Yields, yields, Yields-bind, Yields-mono}
use cs.Bytes.{poke, safestrcpy}
use cs.Proc.Table.{Ptr, null, nofile, Proc, Kern, put, call, filedup, idup}
use cs.Proc.Lists.{home, home_of}
use cs.Proc.Lists.Members.{Members, Lists-fields}
use cs.Proc.Lists.Moves.{Inv}
use cs.Proc.Lists.Updates.{assign-ok, deref-ok}
use cs.Proc.Fork.{copy_file, copy_files, inherit, name_size, fork_copy}

-- `t` is `s` with the open descriptors of `me`, from `fd` on and `k` of them, copied to `np`.
pub record Copied (s t : Kern) (me np k fd : ℕ) : Type 0 where
  pub ofile :
      (i : ℕ)
      → (t.procs np).ofile i ≡ (
          if leb fd i && ltb i (fd + k) && not ((s.procs me).ofile i == 0)
          then (s.procs me).ofile i
          else (s.procs np).ofile i)
  pub child : t.procs np ≡ record (s.procs np) { ofile = (t.procs np).ofile }
  pub others : (q : Ptr) → np ≢ q → t.procs q ≡ s.procs q
  pub rest : t ≡ record s { procs = t.procs; calls = t.calls }

module _ (me np : Ptr) (n1 : me ≢ null) (n2 : np ≢ null) (apart : np ≢ me) where
  copy_file-Copied :
      (fd : ℕ) (s : Kern) → Yields (λ _ t. Copied s t me np 1 fd) (copy_file me np fd s)
  unfolding copy_file call
  copy_file-Copied fd s = rw (deref-ok s me n1) (elim (Bool-cases ((s.procs me).ofile fd == 0)) [
    | inl e ↦ rw e (
        yields
          (record { ofile = λ i. ground arith; child = refl; others = λ q ne. refl; rest = refl }))
    | inr o ↦
        let f = (s.procs me).ofile fd in
        let s1 : Kern = record s { calls = filedup f ∷ s.calls } in
        rw (o, assign-ok s1 np (λ r. record r { ofile = poke r.ofile fd f }) n2)
          (yields (record {
            ofile = λ i. rw (==_refl np) (ground arith);
            child = rw (==_refl np) refl;
            others = λ q ne. let miss : (q == np) ≡ false = ground arith in rw miss refl;
            rest = refl;
          }))
  ])

  Copied-suc :
      (s t u : Kern) (k fd : ℕ)
      → Copied s t me np 1 fd
      → Copied t u me np k (fd + 1)
      → Copied s u me np (suc k) fd
  Copied-suc s t u k fd a b = record {
    ofile = λ i.
        let same : (t.procs me).ofile i ≡ (s.procs me).ofile i =
          ap (λ (z : Proc). z.ofile i) (a.others me apart) in
        ground (arith, a.ofile i, b.ofile i);
    child = b.child ∙ ap (λ (z : Proc). record z { ofile = (u.procs np).ofile }) a.child;
    others = λ q ne. b.others q ne ∙ a.others q ne;
    rest = b.rest ∙ ap (λ (z : Kern). record z { procs = u.procs; calls = u.calls }) a.rest;
  }

  copy_files-Copied :
      (k fd : ℕ) (s : Kern) → Yields (λ _ t. Copied s t me np k fd) (copy_files me np k fd s)
  unfolding copy_files
  copy_files-Copied zero fd s =
      yields
        (record { ofile = λ i. ground arith; child = refl; others = λ q ne. refl; rest = refl })
  copy_files-Copied (suc k) fd s =
      Yields-bind (copy_file-Copied fd s)
        λ _ t a. Yields-mono (copy_files-Copied k (fd + 1) t) λ _ u b. Copied-suc s t u k fd a b

-- What child `v` of `me` has of its parent `q`; `old` is the entry before.
pub record Inherits (me : Ptr) (q old v : Proc) : Type 0 where
  pub entry : v ≡ record old {
    sz = q.sz;
    parent = me;
    frame = record (q.frame) { eax = 0 };
    ofile = v.ofile;
    cwd = q.cwd;
    name = safestrcpy q.name name_size old.name;
  }
  pub ofile :
      (i : ℕ)
      → v.ofile i ≡ (if ltb i nofile && not (q.ofile i == 0) then q.ofile i else old.ofile i)

pub record ForkCopied (s t : Kern) (me np : Ptr) : Type 0 where
  pub child : Inherits me (s.procs me) (s.procs np) (t.procs np)
  pub others : (q : Ptr) → np ≢ q → t.procs q ≡ s.procs q
  pub rest : t ≡ record s { procs = t.procs; calls = t.calls }

pub fork_copy-ForkCopied :
    (me np : Ptr) (s : Kern)
    → me ≢ null
    → np ≢ null
    → np ≢ me
    → Yields (λ _ t. ForkCopied s t me np) (fork_copy me np s)
unfolding fork_copy call inherit
fork_copy-ForkCopied me np s n1 n2 apart =
    let s1 : Kern = record s { procs = put s.procs np (inherit me (s.procs me) (s.procs np)) } in
    let mine : s1.procs me ≡ s.procs me =
      let miss : (me == np) ≡ false = ground arith in rw miss refl in
    let new : s1.procs np ≡ inherit me (s.procs me) (s.procs np) = rw (==_refl np) refl in
    rw (deref-ok s me n1, assign-ok s np (inherit me (s.procs me)) n2)
      (Yields-bind (copy_files-Copied me np n1 n2 apart nofile 0 s1) λ _ t a.
        let mine' : t.procs me ≡ s.procs me = a.others me apart ∙ mine in
        let q = s.procs me in
        let t1 : Kern = record t { calls = idup q.cwd ∷ t.calls } in
        let f : Proc → Proc =
          λ r. record r { cwd = q.cwd; name = safestrcpy q.name name_size r.name } in
        let made : t.procs np ≡ record (inherit me q (s.procs np)) { ofile = (t.procs np).ofile } =
          a.child ∙ ap (λ (z : Proc). record z { ofile = (t.procs np).ofile }) new in
        rw (deref-ok t me n1, mine', assign-ok t1 np f n2)
          (yields (record {
            child = rw (==_refl np) (record {
              entry = ap f made;
              ofile = λ i. ground (
                arith,
                a.ofile i,
                ap (λ (z : Proc). z.ofile i) mine,
                ap (λ (z : Proc). z.ofile i) new,
              );
            });
            others = λ r ne.
                let miss : (r == np) ≡ false = ground arith in
                let same : t.procs r ≡ s.procs r = rw miss at (a.others r ne) in rw miss same;
            rest =
                ap
                  (λ (z : Kern). record z {
                    procs = put t.procs np (f (t.procs np));
                    calls = idup q.cwd ∷ t.calls;
                  })
                  a.rest;
          })))

-- The child's place in the table does not change.
ForkCopied-fields :
    (s t : Kern) (me np : Ptr)
    → ForkCopied s t me np
    → (q : Ptr)
    → ((t.procs q).next ≡ (s.procs q).next)
      × (home (t.procs q) ≡ home (s.procs q))
      × ((t.procs q).priority ≡ (s.procs q).priority)
unfolding home_of
ForkCopied-fields s t me np g q = elim (Bool-cases (np == q)) [
  | inl e ↦
      let same : np ≡ q = (==_iff np q).0 e in
      subst
        (λ z.
          ((t.procs z).next ≡ (s.procs z).next)
          × (home (t.procs z) ≡ home (s.procs z))
          × ((t.procs z).priority ≡ (s.procs z).priority))
        same
        (
          ap (λ (z : Proc). z.next) g.child.entry,
          ap home g.child.entry,
          ap (λ (z : Proc). z.priority) g.child.entry,
        )
  | inr o ↦ rw (g.others q (ground arith)) (refl, refl, refl)
]

pub ForkCopied-Inv :
    (s t : Kern) (L : Members) (me np : Ptr) → Inv s L → ForkCopied s t me np → Inv t L
ForkCopied-Inv s t L me np v g =
    let same = ForkCopied-fields s t me np g in
    record {
      lists =
          Lists-fields s t L v.lists (λ q. (same q).0) (λ n. ap (λ (z : Kern). z.ends n) g.rest);
      homes = λ q lo hi. rw (same q).1 (v.homes q lo hi);
      prios = λ q. rw (same q).2 (v.prios q);
    }
