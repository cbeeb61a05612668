-- ===== src/Proc/Exit/Woken.antt =====
-- What the wake-up in exit changes.
use cs.Prelude.{
  ◌≢◌, not, ==_refl, ◌≡◌, refl, ◌∙◌, ap, inl, inr, false, ◌&&◌, arith, ◌==◌, if◌then◌else◌,
  Bool-cases,
}
use cs.Proc.Table.{Procstate, runnable, Ptr, null, Proc, ready, sleep_list, Kern, put}
use cs.Proc.Lists.Members.{Members}
use cs.Proc.Lists.Moves.{Inv, move}
use cs.Proc.Lists.Change.{Changed, Changed-self, Changed-else}
use cs.Proc.Wakeup.First.{FirstWoken, Woken}

-- The lists after process `x`, if any, has been woken.
abbrev pub woken_lists : Kern → Members → Ptr → Members
woken_lists s L x = if x == null then L else move L sleep_list (ready (s.procs x).priority) x

-- The state of process `q` after process `x`, if any, has been woken.
abbrev pub woken_state : Kern → (x q : Ptr) → Procstate
woken_state s x q = if not (x == null) && (q == x) then runnable else (s.procs q).state

pub Woken-entry :
    (s t : Kern) (x q : Ptr)
    → (x == null) ≡ false
    → Changed s t x (record (s.procs x) { state = runnable })
    → t.procs q ≡ record (s.procs q) { state = woken_state s x q; next = (t.procs q).next }
Woken-entry s t x q np d = elim (Bool-cases (q == x)) [
  | inl e ↦ let same : q ≡ x = ground arith in rw (np, same, ==_refl x) (Changed-self s t x _ d)
  | inr o ↦ let ne : x ≢ q = ground arith in rw (np, o) (Changed-else s t x q _ d ne)
]

-- What waking changes no more than.
pub record Kept (s t : Kern) (L : Members) (x : Ptr) : Type 0 where
  pub inv : Inv t (woken_lists s L x)
  pub parent : (q : Ptr) → (t.procs q).parent ≡ (s.procs q).parent
  pub held : t.held ≡ s.held
  pub initproc : t.initproc ≡ s.initproc
  pub entry :
      (q : Ptr)
      → t.procs q ≡ record (s.procs q) { state = woken_state s x q; next = (t.procs q).next }
  pub rest : t ≡ record s { procs = t.procs; ends = t.ends }

pub Changed-parent :
    (s t : Kern) (p q : Ptr) (v : Proc)
    → Changed s t p v
    → v.parent ≡ (s.procs p).parent
    → (t.procs q).parent ≡ (s.procs q).parent
Changed-parent s t p q v d same =
    let e : (put s.procs p v q).parent ≡ (s.procs q).parent = ground arith in
    ap (λ (z : Proc). z.parent) (d.fields q) ∙ e

pub FirstWoken-Kept :
    (s t : Kern) (L : Members) (x : Ptr) → Inv s L → FirstWoken s L x t → Kept s t L x
FirstWoken-Kept s t L x v w = elim (Bool-cases (x == null)) [
  | inl e ↦
      let same : t ≡ s = rw e at w in
      rw same (record {
        inv = rw e v;
        parent = λ q. refl;
        held = refl;
        initproc = refl;
        entry = λ q. rw e refl;
        rest = refl;
      })
  | inr o ↦
      let w' : Woken s L x t = rw o at w in
      record {
        inv = rw o w'.inv;
        parent = λ q. Changed-parent s t x q _ w'.changed refl;
        held = w'.held;
        initproc = ap (λ (z : Kern). z.initproc) w'.changed.rest;
        entry = λ q. Woken-entry s t x q o w'.changed;
        rest = ap (λ (z : Kern). record z { procs = t.procs; ends = t.ends }) w'.changed.rest;
      }
]
