-- ===== src/Proc/Lists/Change.antt =====
-- A process takes a new state and the list of that state: the rule for the sequence of writes that
-- nearly every operation of proc.c makes.
use Prim.Native.String.{String}
use cs.Prelude.{ℕ, ◌≤◌, ◌≡◌, refl, ◌∙◌, ap, ◌≢◌, true, false, arith, ◌==◌, ==_refl}
use cs.Prelude.Finite.{has}
use cs.Prelude.Run.{Cmd, Yields, Yields-bind, ◌>>◌}
use cs.Proc.Table.{
  Ptr, null, maxprio, Procstate, runnable, Proc, ListName, ready, is_list, Kern, put, assign,
}
use cs.Proc.Lists.{home, home_of, relist, assert_state}
use cs.Proc.Lists.Members.{Members, SameBut}
use cs.Proc.Lists.Moves.{Inv, Pending, move, relist-Inv, assert_state-ok}
use cs.Proc.Lists.Updates.{Pending-Entry, assign-ok}

-- `t` is `s` with `v` for process `p`, but for links.
abbrev pub Changed : Kern → Kern → Ptr → Proc → Type 0
Changed s t p v = SameBut (record s { procs = put s.procs p v }) t

pub on-ne_null :
    (s : Kern) (L : Members) (a : ListName) (p : Ptr) → Inv s L → has p (L a) ≡ true → p ≢ null
on-ne_null s L a p v i e = let b = v.lists.bound a p i in absurd (omega arith)

pub Changed-self :
    (s t : Kern) (p : Ptr) (v : Proc)
    → Changed s t p v
    → t.procs p ≡ record v { next = (t.procs p).next }
Changed-self s t p v d =
    let same : put s.procs p v p ≡ v = rw (==_refl p) refl in
    d.fields p ∙ ap (λ (z : Proc). record z { next = (t.procs p).next }) same

pub Changed-else :
    (s t : Kern) (p q : Ptr) (v : Proc)
    → Changed s t p v
    → p ≢ q
    → t.procs q ≡ record (s.procs q) { next = (t.procs q).next }
Changed-else s t p q v d ne =
    let miss : (q == p) ≡ false = ground arith in
    let same : put s.procs p v q ≡ s.procs q = rw miss refl in
    d.fields q ∙ ap (λ (z : Proc). record z { next = (t.procs q).next }) same

pub held-SameBut : (s t : Kern) → SameBut s t → t.held ≡ s.held
held-SameBut s t d = ap (λ (z : Kern). z.held) d.rest

pub change_by :
    {B : Type 0} {Q : B → Kern → Type 0} (s : Kern) (L : Members) (p : Ptr) (a b : ListName)
    (f : Proc → Proc) (m : Cmd Kern (Unit {0})) (state : Procstate) (k : Cmd Kern B)
    → Inv s L
    → has p (L a) ≡ true
    → (f (s.procs p)).next ≡ (s.procs p).next
    → home (f (s.procs p)) ≡ b
    → (f (s.procs p)).priority ≤ maxprio
    → (f (s.procs p)).state ≡ state
    → (Pending (record s { procs = put s.procs p (f (s.procs p)) }) L p b
        → Yields
            (λ _ t. Inv t (move L a b p) × Changed s t p (f (s.procs p)))
            (m (record s { procs = put s.procs p (f (s.procs p)) })))
    → ((t : Kern) → Inv t (move L a b p) → Changed s t p (f (s.procs p)) → Yields Q (k t))
    → Yields Q ((do assign p f; m; assert_state p state; k) s)
change_by s L p a b f m state k v i n h small st moves after =
    let np : p ≢ null = on-ne_null s L a p v i in
    let s' : Kern = record s { procs = put s.procs p (f (s.procs p)) } in
    let pending =
      Pending-Entry s s' L p (f (s.procs p)) b v (record { procs = refl; ends = refl }) n h small in
    rw (assign-ok s p f np) (
      Yields-bind (moves pending) λ _ t (v', d).
        let e : (t.procs p).state ≡ state =
          ap (λ (z : Proc). z.state) (Changed-self s t p _ d) ∙ st in
        rw (assert_state-ok t p state np e) (after t v' d))

pub change_then :
    {B : Type 0} {Q : B → Kern → Type 0} (s : Kern) (L : Members) (p : Ptr) (a b : ListName)
    (f : Proc → Proc) (why why' : String) (state : Procstate) (k : Cmd Kern B)
    → Inv s L
    → is_list a ≡ true
    → is_list b ≡ true
    → has p (L a) ≡ true
    → (f (s.procs p)).next ≡ (s.procs p).next
    → home (f (s.procs p)) ≡ b
    → (f (s.procs p)).priority ≤ maxprio
    → (f (s.procs p)).state ≡ state
    → ((t : Kern) → Inv t (move L a b p) → Changed s t p (f (s.procs p)) → Yields Q (k t))
    → Yields Q ((do assign p f; relist a b p why why'; assert_state p state; k) s)
change_then s L p a b f why why' state k v na nb i n h small st after =
    change_by s L p a b f (relist a b p why why') state k v i n h small st
      (λ pending. relist-Inv _ L p a b why why' pending na nb i) after

-- A process on a list is at home there.
pub home_on :
    (s : Kern) (L : Members) (a : ListName) (p : Ptr)
    → Inv s L
    → has p (L a) ≡ true
    → home (s.procs p) ≡ a
home_on s L a p v on =
    let b = v.lists.bound a p on in v.lists.apart (home (s.procs p)) a p (v.homes p b.0 b.1) on

pub ready_home : (q : Proc) (i : ℕ) → home q ≡ ready i → (q.state ≡ runnable) × (q.priority ≡ i)
unfolding home_of
ready_home q i h = ground arith
