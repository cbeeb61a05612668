-- ===== src/Files/Pipes/Took.antt =====
-- Free entries of the table of open files, taken and closed again.
use cs.Prelude.{
  ℕ, ◌+◌, ◌<◌, ◌≡◌, refl, ◌∙◌, ap, sym, subst, ◌≢◌, ◌⊎◌, inl, inr, false, arith, ◌==◌, ==_refl,
  ==_ne, Bool-cases,
}
use cs.Prelude.Run.{Yields, Yields-mono, Yields-bind, ◌>>◌}
use cs.Proc.Table.{Ptr, null}
use cs.Proc.Table.Lock.{IsFree, taken, given_back-IsFree}
use cs.Files.{nfile, fd_none, File, Ftable, put_file, filealloc, fileclose}
use cs.Files.Counts.{fileclose-last}
use cs.Files.Counts.First.{filealloc-first}
use cs.Files.Pipes.{set_end, Unopened, Opened}

-- Entry `f` was free in `s`, and is taken in `t`.
pub record Took (s t : Ftable) (f : Ptr) : Type 0 where
  pub inside : (0 < f) × (f < nfile + 1)
  pub not_null : f ≢ null
  pub was_free : (s.file f).ref ≡ 0
  pub file : t.file ≡ put_file s.file f (record (s.file f) { ref = 1 })
  pub calls : t.calls ≡ s.calls
  pub free : IsFree t.held

pub taken_file : (s t : Ftable) (f : Ptr) → Took s t f → t.file f ≡ record (s.file f) { ref = 1 }
taken_file s t f o = rw o.file (rw (==_refl f) refl)

pub other_file : (s t : Ftable) (f q : Ptr) → Took s t f → f ≢ q → t.file q ≡ s.file q
other_file s t f q o ne = let off : (q == f) ≡ false = ground arith in rw o.file (rw off refl)

pub filealloc-Took :
    (s : Ftable)
    → IsFree s.held
    → Yields
        (λ f t.
          ((f ≡ null)
            × ((q : Ptr) → 0 < q → q < nfile + 1 → (s.file q).ref ≢ 0)
            × (t.file ≡ s.file)
            × (t.calls ≡ s.calls)
            × IsFree t.held)
          ⊎ Took s t f)
        (filealloc s)
filealloc-Took s free = Yields-mono (filealloc-first s free) λ f t (a, held, calls).
    let back : IsFree t.held = subst IsFree (sym held) (given_back-IsFree (taken s.held)) in
    elim a [
      | inl (e, full, same) ↦ inl (e, (λ q a b. full q a (omega arith)), same, calls, back)
      | inr (lo, hi, was_free, first, same) ↦ inr (record {
        inside = (omega arith, omega arith);
        not_null = λ e. absurd (omega arith);
        was_free = was_free;
        file = same;
        calls = calls;
        free = back;
      })
    ]

fileclose-only :
    (t : Ftable) (f : Ptr)
    → IsFree t.held
    → f ≢ null
    → (t.file f).ref ≡ 1
    → (t.file f).type_ ≡ fd_none
    → Yields
        (λ _ u.
          ((u.file f).ref ≡ 0)
          × ((q : Ptr) → f ≢ q → u.file q ≡ t.file q)
          × (u.calls ≡ t.calls)
          × IsFree u.held)
        (fileclose f t)
fileclose-only t f free np one none =
    Yields-mono (fileclose-last t f free np one) λ _ u (ref, type, same, calls, held). (
      ref,
      same,
      calls ∙ (rw none refl),
      subst IsFree (sym held) (given_back-IsFree (taken t.held)),
    )

-- Taking an entry and closing it again.
pub close_one :
    (s t : Ftable) (f : Ptr)
    → Took s t f
    → (s.file f).type_ ≡ fd_none
    → Yields (λ _ u. Unopened s u × IsFree u.held) (fileclose f t)
close_one s t f o none =
    let e = taken_file s t f o in
    Yields-mono
      (fileclose-only t f o.free o.not_null (ap (λ (z : File). z.ref) e)
        (ap (λ (z : File). z.type_) e ∙ none))
      λ _ u (ref, same, calls, back). (
        (
          λ q. elim (Bool-cases (f == q)) [
            | inl k ↦
                let here : f ≡ q = ground arith in
                subst (λ z. (u.file z).ref ≡ (s.file z).ref) here (ref ∙ sym o.was_free)
            | inr k ↦
                let ne : f ≢ q = ground arith in
                ap (λ (z : File). z.ref) (same q ne ∙ other_file s t f q o ne)
          ],
          calls ∙ o.calls,
        ),
        back,
      )

-- Two entries taken one after the other.
module _ (s t0 t1 : Ftable) (f0 f1 : Ptr) (o0 : Took s t0 f0) (o1 : Took t0 t1 f1) where
  Took-apart : f0 ≢ f1
  Took-apart e =
      let one : (t0.file f0).ref ≡ 1 = ap (λ (z : File). z.ref) (taken_file s t0 f0 o0) in
      let zero : (t0.file f0).ref ≡ 0 = subst (λ f. (t0.file f).ref ≡ 0) (sym e) o1.was_free in
      absurd (omega arith)

  first_file : t1.file f0 ≡ record (s.file f0) { ref = 1 }
  first_file = other_file t0 t1 f1 f0 o1 (λ e. Took-apart (sym e)) ∙ taken_file s t0 f0 o0

  second_file : t0.file f1 ≡ s.file f1
  second_file = other_file s t0 f0 f1 o0 Took-apart

  -- Both are closed again.
  pub close_two :
      ((q : Ptr) → (s.file q).ref ≡ 0 → (s.file q).type_ ≡ fd_none)
      → Yields (λ _ u. Unopened s u × IsFree u.held) ((fileclose f0 >> fileclose f1) t1)
  close_two none =
      Yields-bind
        (fileclose-only t1 f0 o1.free o0.not_null (ap (λ (z : File). z.ref) first_file)
          (ap (λ (z : File). z.type_) first_file ∙ none f0 o0.was_free))
        λ _ u (ref, same, calls, back).
          let here : u.file f1 ≡ record (s.file f1) { ref = 1 } =
            same f1 Took-apart
            ∙ taken_file t0 t1 f1 o1
            ∙ ap (λ (z : File). record z { ref = 1 }) second_file in
          let was1 : (s.file f1).ref ≡ 0 =
            ap (λ (z : File). z.ref) (sym second_file) ∙ o1.was_free in
          Yields-mono
            (fileclose-only u f1 back o1.not_null (ap (λ (z : File). z.ref) here)
              (ap (λ (z : File). z.type_) here ∙ none f1 was1))
            λ _ v (ref', same', calls', back'). (
              (
                λ q. elim (Bool-cases (f1 == q)) [
                  | inl k ↦
                      let e : f1 ≡ q = ground arith in
                      subst (λ z. (v.file z).ref ≡ (s.file z).ref) e (ref' ∙ sym was1)
                  | inr k ↦
                      let ne1 : f1 ≢ q = ground arith in
                      elim (Bool-cases (f0 == q)) [
                        | inl k0 ↦
                            let e : f0 ≡ q = ground arith in
                            ap (λ (z : File). z.ref) (same' q ne1)
                            ∙ subst (λ z. (u.file z).ref ≡ (s.file z).ref) e (ref ∙ sym o0.was_free)
                        | inr k0 ↦
                            let ne0 : f0 ≢ q = ground arith in
                            ap (λ (z : File). z.ref)
                              (same' q ne1
                                ∙ same q ne0
                                ∙ other_file t0 t1 f1 q o1 ne1
                                ∙ other_file s t0 f0 q o0 ne0)
                      ]
                ],
                calls' ∙ calls ∙ o1.calls ∙ o0.calls,
              ),
              back',
            )

  -- Both become ends of a pipe.
  pub open_two :
      (page : ℕ)
      → Opened s page f0 f1 (record t1 {
        file =
            put_file
              (put_file t1.file f0 (set_end page 1 0 (t1.file f0)))
              f1
              (set_end page 0 1 (put_file t1.file f0 (set_end page 1 0 (t1.file f0)) f1));
      })
  open_two page =
      let ne : (f0 == f1) ≡ false = ==_ne f0 f1 Took-apart in
      let ne' : (f1 == f0) ≡ false = ground arith in
      record {
        apart = Took-apart;
        inside0 = o0.inside;
        inside1 = o1.inside;
        was_free0 = o0.was_free;
        was_free1 = ap (λ (z : File). z.ref) (sym second_file) ∙ o1.was_free;
        reader = rw (ne, ==_refl f0) (ap (set_end page 1 0) first_file);
        writer =
            rw (==_refl f1, ne')
              (ap (set_end page 0 1)
                (taken_file t0 t1 f1 o1 ∙ ap (λ (z : File). record z { ref = 1 }) second_file));
        others = λ q a b.
            let off0 : (q == f0) ≡ false = ground arith in
            let off1 : (q == f1) ≡ false = ground arith in
            rw (off1, off0) (other_file t0 t1 f1 q o1 b ∙ other_file s t0 f0 q o0 a);
      }
