-- ===== src/Files/Pipes/Alloc.antt =====
-- What pipealloc leaves behind.
use cs.Prelude.{ℕ, ◌≡◌, ◌≢◌, subst, refl, ◌∙◌, ap, ◌⊎◌, inl, inr, arith, ◌==◌, ==_ne, Bool-cases}
use cs.Prelude.Int.{pos, negsuc}
use cs.Prelude.Run.{Yields, yields, Yields-bind, Yields-then}
use cs.Proc.Table.{Ptr, null}
use cs.Proc.Table.Lock.{IsFree}
use cs.Pipe.{Pipe, new_pipe}
use cs.Files.{fd_none, File, Ftable, fileclose}
use cs.Files.Pipes.{pipealloc, Unopened, Opened, FewFree, IsNew}
use cs.Files.Pipes.Took.{Took, other_file, filealloc-Took, close_one, close_two, open_two}

new_pipe-IsNew : (p : Pipe) → IsNew (new_pipe p)
new_pipe-IsNew p = (
  record {
    few = omega arith;
    start = omega arith;
    stop = refl;
    byte = λ j lt. absurd (omega arith);
  },
  refl,
  refl,
)

-- pipealloc takes two free entries of the table of open files, and makes them the ends for reading and
-- for writing of a new pipe, which is empty, where there is a page for it; or there is no page, or no two
-- entries are free, and it returns -1 with every count as it was before. Free entries are to have no type.
-- The lock is free afterwards.
pub pipealloc-Opened :
    (page : ℕ) (p : Pipe) (s : Ftable)
    → IsFree s.held
    → ((q : Ptr) → (s.file q).ref ≡ 0 → (s.file q).type_ ≡ fd_none)
    → Yields
        (λ r t.
          (((r.0 ≡ negsuc 0) × ((page ≡ null) ⊎ FewFree s) × Unopened s t)
            ⊎ ((r.0 ≡ pos 0)
                × (page ≢ null)
                × Opened s page r.1 r.2 t
                × IsNew r.3
                × (t.calls ≡ s.calls)))
          × IsFree t.held)
        (pipealloc page p s)
unfolding pipealloc
pipealloc-Opened page p s free none = Yields-bind (filealloc-Took s free) λ f0 t0 a0. elim a0 [
  | inl (e, full, same, calls, back) ↦ rw e (
      yields (
        inl (
          refl,
          inr (null, λ q a b _. full q a b),
          (λ q. ap (λ (z : Ptr → File). (z q).ref) same, calls),
        ),
        back,
      ))
  | inr o0 ↦ rw (==_ne f0 null o0.not_null) (
      Yields-bind (filealloc-Took t0 o0.free) λ f1 t1 a1. elim a1 [
        | inl (e, full, same, calls, back) ↦ rw e (
            let few : FewFree s = (
              f0,
              λ q a b ne. subst (λ (z : File). z.ref ≢ 0) (other_file s t0 f0 q o0 ne) (full q a b),
            ) in
            let o : Took s t1 f0 = record {
              inside = o0.inside;
              not_null = o0.not_null;
              was_free = o0.was_free;
              file = same ∙ o0.file;
              calls = calls ∙ o0.calls;
              free = back;
            } in
            Yields-bind (close_one s t1 f0 o (none f0 o0.was_free))
              λ _ u (un, held). yields (inl (refl, inr few, un), held))
        | inr o1 ↦ elim (Bool-cases (page == null)) [
          | inl e ↦
              rw (==_ne f1 null o1.not_null, e)
                (Yields-then (fileclose f0) (fileclose f1) _ t1 (close_two s t0 t1 f0 f1 o0 o1 none)
                  λ u (un, held). yields (inl (refl, inl (ground arith), un), held))
          | inr e ↦
              rw
                (==_ne f1 null o1.not_null, e, ==_ne f0 null o0.not_null, ==_ne f1 null o1.not_null)
                (yields (
                  inr (
                    refl,
                    (λ e'. absurd (ground (arith, e, e'))),
                    open_two s t0 t1 f0 f1 o0 o1 page,
                    new_pipe-IsNew p,
                    o1.calls ∙ o0.calls,
                  ),
                  o1.free,
                ))
        ]
      ])
]
