-- ===== src/Proc/Exit/Files.antt =====
-- The open files that exit closes.
use cs.Prelude.{
  ℕ, zero, suc, ◌+◌, ◌≤◌, List, ◌≡◌, refl, ◌∙◌, ap, sym, subst, ◌≢◌, inl, inr, true, false, ◌&&◌,
  ◌∷◌, arith, ◌==◌, ==_refl, ==_iff, leb, ltb, if◌then◌else◌, Bool-cases,
}
use cs.Prelude.Run.{Yields, yields, Yields-bind, Yields-mono}
use cs.Bytes.{poke}
use cs.Proc.Table.{
  Call, Ptr, null, nofile, Proc, Kern, put, call, fileclose, iput, begin_op, end_op,
}
use cs.Proc.Lists.{home, home_of}
use cs.Proc.Lists.Members.{Members, Lists-fields}
use cs.Proc.Lists.Moves.{Inv}
use cs.Proc.Lists.Updates.{assign-ok, deref-ok}
use cs.Proc.Exit.{close_file, close_files, exit_files}

-- The calls of fileclose for the open ones of the descriptors from `fd` on, `k` of them, after the calls
-- `cs`; the last call is the first of the list.
abbrev pub closes : (k fd : ℕ) → (ofile : ℕ → ℕ) → List Call → List Call
closes zero fd ofile cs = cs
closes (suc k) fd ofile cs =
    closes k (fd + 1) ofile (if ofile fd == 0 then cs else fileclose (ofile fd) ∷ cs)

closes-same :
    (k fd : ℕ) (f g : ℕ → ℕ) (cs : List Call)
    → ((i : ℕ) → fd ≤ i → f i ≡ g i)
    → closes k fd f cs ≡ closes k fd g cs
closes-same zero fd f g cs same = refl
closes-same (suc k) fd f g cs same =
    rw (same fd (omega arith)) (closes-same k (fd + 1) f g _ (λ i h. same i (omega arith)))

-- `t` is `s` with the descriptors from `fd` on, `k` of them, of `me` closed.
pub record Closed (s t : Kern) (me k fd : ℕ) : Type 0 where
  pub ofile :
      (i : ℕ)
      → (t.procs me).ofile i ≡ (if leb fd i && ltb i (fd + k) then 0 else (s.procs me).ofile i)
  pub mine : t.procs me ≡ record (s.procs me) { ofile = (t.procs me).ofile }
  pub calls : t.calls ≡ closes k fd (s.procs me).ofile s.calls
  pub others : (q : Ptr) → me ≢ q → t.procs q ≡ s.procs q
  pub rest : t ≡ record s { procs = t.procs; calls = t.calls }

close_file-Closed :
    (me fd : ℕ) (s : Kern) → me ≢ null → Yields (λ _ t. Closed s t me 1 fd) (close_file me fd s)
unfolding close_file call
close_file-Closed me fd s np =
    rw (deref-ok s me np) (elim (Bool-cases ((s.procs me).ofile fd == 0)) [
      | inl e ↦ rw e (
          yields (record {
            ofile = λ i. ground arith;
            mine = refl;
            calls = rw e refl;
            others = λ q ne. refl;
            rest = refl;
          }))
      | inr o ↦
          let s1 : Kern = record s { calls = fileclose ((s.procs me).ofile fd) ∷ s.calls } in
          rw (o, assign-ok s1 me (λ q. record q { ofile = poke q.ofile fd 0 }) np)
            (yields (record {
              ofile = λ i. rw (==_refl me) (ground arith);
              mine = rw (==_refl me) refl;
              calls = rw o refl;
              others = λ q ne. let miss : (q == me) ≡ false = ground arith in rw miss refl;
              rest = refl;
            }))
    ])

Closed-suc :
    (s t u : Kern) (me k fd : ℕ)
    → Closed s t me 1 fd
    → Closed t u me k (fd + 1)
    → Closed s u me (suc k) fd
Closed-suc s t u me k fd a b = record {
  ofile = λ i. ground (arith, a.ofile i, b.ofile i);
  mine = b.mine ∙ ap (λ (z : Proc). record z { ofile = (u.procs me).ofile }) a.mine;
  calls =
      b.calls
      ∙ closes-same k (fd + 1) (t.procs me).ofile (s.procs me).ofile t.calls
          (λ i h. a.ofile i ∙ ground arith)
      ∙ ap (closes k (fd + 1) (s.procs me).ofile) a.calls;
  others = λ q ne. b.others q ne ∙ a.others q ne;
  rest = b.rest ∙ ap (λ (z : Kern). record z { procs = u.procs; calls = u.calls }) a.rest;
}

close_files-Closed :
    (k me fd : ℕ) (s : Kern)
    → me ≢ null
    → Yields (λ _ t. Closed s t me k fd) (close_files me k fd s)
unfolding close_files
close_files-Closed zero me fd s np = yields (record {
  ofile = λ i. ground arith;
  mine = refl;
  calls = refl;
  others = λ q ne. refl;
  rest = refl;
})
close_files-Closed (suc k) me fd s np = Yields-bind (close_file-Closed me fd s np) λ _ t a.
    Yields-mono (close_files-Closed k me (fd + 1) t np) λ _ u b. Closed-suc s t u me k fd a b

-- `t` is `s` without open files and working directory in `me`, which have been given up by the calls.
pub record FilesGone (s t : Kern) (me : Ptr) : Type 0 where
  pub ofile : (i : ℕ) → ltb i nofile ≡ true → (t.procs me).ofile i ≡ 0
  pub mine : t.procs me ≡ record (s.procs me) { ofile = (t.procs me).ofile; cwd = 0 }
  pub calls :
      t.calls
      ≡ end_op ∷ iput (s.procs me).cwd ∷ begin_op ∷ closes nofile 0 (s.procs me).ofile s.calls
  pub others : (q : Ptr) → me ≢ q → t.procs q ≡ s.procs q
  pub rest : t ≡ record s { procs = t.procs; calls = t.calls }

pub exit_files-FilesGone :
    (me : Ptr) (s : Kern) → me ≢ null → Yields (λ _ t. FilesGone s t me) (exit_files me s)
unfolding exit_files call
exit_files-FilesGone me s np = Yields-bind (close_files-Closed nofile me 0 s np) λ _ t a.
    let t1 : Kern = record t { calls = begin_op ∷ t.calls } in
    let t2 : Kern = record t1 { calls = end_op ∷ iput (t.procs me).cwd ∷ t1.calls } in
    rw (deref-ok t1 me np, assign-ok t2 me (λ q. record q { cwd = 0 }) np)
      (yields (record {
        ofile = λ i lo. rw (==_refl me) (ground (arith, a.ofile i));
        mine = rw (==_refl me) (ap (λ (z : Proc). record z { cwd = 0 }) a.mine);
        calls =
            ap (λ (z : Proc). end_op ∷ iput z.cwd ∷ begin_op ∷ t.calls) a.mine
            ∙ ap (λ cs. end_op ∷ iput (s.procs me).cwd ∷ begin_op ∷ cs) a.calls;
        others = λ q ne. let miss : (q == me) ≡ false = ground arith in rw miss (a.others q ne);
        rest =
            ap
              (λ (z : Kern). record z {
                procs = put t.procs me (record (t.procs me) { cwd = 0 });
                calls = t2.calls;
              })
              a.rest;
      }))

FilesGone-fields :
    (s t : Kern) (me q : Ptr)
    → FilesGone s t me
    → t.procs q ≡ record (s.procs q) { ofile = (t.procs q).ofile; cwd = (t.procs q).cwd }
FilesGone-fields s t me q g = elim (Bool-cases (me == q)) [
  | inl e ↦
      subst
        (λ z. t.procs z ≡ record (s.procs z) { ofile = (t.procs z).ofile; cwd = (t.procs z).cwd })
        ((==_iff me q).0 e)
        (g.mine
          ∙ ap (λ (z : Proc). record (s.procs me) { ofile = (t.procs me).ofile; cwd = z.cwd })
              (sym g.mine))
  | inr o ↦
      let same = g.others q (ground arith) in
      same ∙ ap (λ (z : Proc). record (s.procs q) { ofile = z.ofile; cwd = z.cwd }) (sym same)
]

pub FilesGone-Inv : (s t : Kern) (L : Members) (me : Ptr) → Inv s L → FilesGone s t me → Inv t L
unfolding home_of
FilesGone-Inv s t L me v g = record {
  lists =
      Lists-fields s t L v.lists (λ q. ap (λ (z : Proc). z.next) (FilesGone-fields s t me q g))
        (λ n. ap (λ (z : Kern). z.ends n) g.rest);
  homes = λ q lo hi. rw (ap home (FilesGone-fields s t me q g)) (v.homes q lo hi);
  prios = λ q. rw (ap (λ (z : Proc). z.priority) (FilesGone-fields s t me q g)) (v.prios q);
}
