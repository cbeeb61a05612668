-- ===== src/Proc/Exit/Adopt.antt =====
-- The loops of exit over the children: which processes change their parent.
use cs.Prelude.{
  ℕ, zero, suc, ◌+◌, ◌<◌, ◌≡◌, refl, ◌∙◌, ap, ◌≢◌, inl, inr, Bool, false, ◌||◌, List, [], ◌∷◌,
  arith, ◌==◌, ==_ne, if◌then◌else◌, Bool-cases, length,
}
use cs.Prelude.Finite.{has}
use cs.Prelude.Run.{Yields, yields, Yields-bind, Yields-mono}
use cs.Proc.Table.{Ptr, null, nproc, Proc, ListName, Kern, read_ends}
use cs.Proc.StateList.Queue.{Chain, Chain-frame}
use cs.Proc.Lists.{home, home_of}
use cs.Proc.Lists.Members.{Members, Lists, Lists-length, Lists-fields}
use cs.Proc.Lists.Moves.{Inv}
use cs.Proc.Lists.Updates.{assign-ok, deref-ok}
use cs.Proc.Scan.First.{AllLists}
use cs.Proc.Exit.{adopted, adopt_one, adopt, adopt_lists}

-- `t` is `s` with the children of `me` among the chosen processes handed to `init`.
pub record Adopted (s t : Kern) (me init : Ptr) (chosen : Ptr → Bool) : Type 0 where
  pub entry : (q : Ptr) → t.procs q ≡ (if chosen q then adopted me init (s.procs q) else s.procs q)
  pub rest : t ≡ record s { procs = t.procs }

adopted_twice : (me init : Ptr) (q : Proc) → adopted me init (adopted me init q) ≡ adopted me init q
adopted_twice me init q = ground arith

-- One choice after another is a choice of both.
Adopted-trans :
    (s t u : Kern) (me init : Ptr) (c d : Ptr → Bool)
    → Adopted s t me init c
    → Adopted t u me init d
    → Adopted s u me init (λ q. c q || d q)
Adopted-trans s t u me init c d a b = record {
  entry = λ q. ground (arith, a.entry q, b.entry q, adopted_twice me init (s.procs q));
  rest = b.rest ∙ ap (λ (z : Kern). record z { procs = u.procs }) a.rest;
}

Adopted-next :
    (s t : Kern) (me init : Ptr) (c : Ptr → Bool)
    → Adopted s t me init c
    → (q : Ptr) → (t.procs q).next ≡ (s.procs q).next
Adopted-next s t me init c a q = ground (arith, a.entry q)

adopt_one-Adopted :
    (me init p : Ptr) (s : Kern)
    → p ≢ null
    → Yields (λ _ t. Adopted s t me init (λ q. p == q)) (adopt_one me init p s)
unfolding adopt_one
adopt_one-Adopted me init p s np =
    rw (deref-ok s p np) (elim (Bool-cases ((s.procs p).parent == me)) [
      | inl e ↦
          rw (e, assign-ok s p (λ q. record q { parent = init }) np)
            (yields (record { entry = λ q. ground arith; rest = refl }))
      | inr o ↦ rw o (yields (record { entry = λ q. ground arith; rest = refl }))
    ])

adopt-Adopted :
    (k : ℕ) (me init h : Ptr) (s : Kern) (l : List Ptr)
    → Chain s.procs h l
    → length l < k
    → Yields (λ _ t. Adopted s t me init (λ q. has q l)) (adopt k me init h s)
unfolding adopt
adopt-Adopted zero me init h s l c fuel = absurd (omega arith)
adopt-Adopted (suc k) me init h s [] c fuel =
    rw c (yields (record { entry = λ q. refl; rest = refl }))
adopt-Adopted (suc k) me init h s (x ∷ xs) c fuel =
    rw (c.0, ==_ne x null c.1)
      (Yields-bind (adopt_one-Adopted me init x s c.1) λ _ t a.
        let next = Adopted-next s t me init _ a in
        let tail : Chain t.procs (s.procs x).next xs =
          Chain-frame s.procs t.procs _ xs (λ q _. next q) c.2 in
        rw (deref-ok t x c.1, next x)
          (Yields-mono (adopt-Adopted k me init _ t xs tail (omega arith))
            λ _ u b. Adopted-trans s t u me init _ _ a b))

-- Whether a process is on one of the lists.
abbrev pub has_any : Ptr → Members → List ListName → Bool
has_any q L [] = false
has_any q L (n ∷ ns) = has q (L n) || has_any q L ns

Adopted-ends :
    (s t : Kern) (me init : Ptr) (c : Ptr → Bool)
    → Adopted s t me init c
    → (n : ListName) → t.ends n ≡ s.ends n
Adopted-ends s t me init c a n = ap (λ (z : Kern). z.ends n) a.rest

Adopted-Lists :
    (s t : Kern) (L : Members) (me init : Ptr) (c : Ptr → Bool)
    → Lists s L
    → Adopted s t me init c
    → Lists t L
Adopted-Lists s t L me init c v a =
    Lists-fields s t L v (Adopted-next s t me init c a) (Adopted-ends s t me init c a)

pub adopt_lists-Adopted :
    (ns : List ListName) (me init : Ptr) (s : Kern) (L : Members)
    → Lists s L
    → AllLists ns
    → Yields (λ _ t. Adopted s t me init (λ q. has_any q L ns)) (adopt_lists ns me init s)
unfolding adopt_lists read_ends
adopt_lists-Adopted [] me init s L v named = yields (record { entry = λ q. refl; rest = refl })
adopt_lists-Adopted (n ∷ ns) me init s L v named = rw named.0 (
    Yields-bind
      (adopt-Adopted (nproc + 1) me init _ s (L n) (v.queue n named.0).chain
        (omega (arith, Lists-length s L v n)))
      λ _ t a.
        Yields-mono (adopt_lists-Adopted ns me init t L (Adopted-Lists s t L me init _ v a) named.1)
          λ _ u b. Adopted-trans s t u me init _ _ a b)

Adopted-home :
    (s t : Kern) (me init : Ptr) (c : Ptr → Bool)
    → Adopted s t me init c
    → (q : Ptr)
    → (home (t.procs q) ≡ home (s.procs q)) × ((t.procs q).priority ≡ (s.procs q).priority)
unfolding home_of
Adopted-home s t me init c a q = rw (a.entry q) (ground arith)

pub Adopted-Inv :
    (s t : Kern) (L : Members) (me init : Ptr) (c : Ptr → Bool)
    → Inv s L
    → Adopted s t me init c
    → Inv t L
Adopted-Inv s t L me init c v a = record {
  lists = Adopted-Lists s t L me init c v.lists a;
  homes = λ q lo hi. rw (Adopted-home s t me init c a q).0 (v.homes q lo hi);
  prios = λ q. rw (Adopted-home s t me init c a q).1 (v.prios q);
}
