-- ===== src/Proc/Init/FreeList.antt =====
-- The first free list: every process, in the order of the table.
use cs.Prelude.{
  ℕ, zero, suc, ◌+◌, ◌%◌, ◌^◌, ◌≤◌, ◌<◌, ◌≡◌, refl, ◌∙◌, ap, sym, subst, not, fun_ext, true, false,
  [], ◌∷◌, ◌++◌, arith,
}
use cs.Prelude.Finite.{has}
use cs.Prelude.Count.{count, has-count}
use cs.Prelude.Run.{Yields, yields, Yields-bind, Yields-mono, and_then}
use cs.Spinlock.{Held}
use cs.Proc.Table.{
  Ptr, null, nproc, maxprio, unused, Proc, ListName, ready, free_list, sleep_list, zombie_list,
  running_list, embryo_list, is_list, Ends, add32, ticks_to_promote, Kern, put, write_ends,
  panic_if,
}
use cs.Proc.Table.Lock.{IsFree, IsHeld, taken, given_back, acquire-ok, release-ok, taken-IsHeld}
use cs.Proc.Lists.{home_of}
use cs.Proc.Lists.Members.{Members, Lists, Lists-fields}
use cs.Proc.Lists.Joins.{join, Lists-add}
use cs.Proc.Lists.Moves.{Inv, priority-SameBut}
use cs.Proc.Lists.Updates.{assign-ok, Inv-same}
use cs.Proc.Init.{clear, clear_ready, init_process_lists, free_all, init_free_list, init_table}

-- The first `m` processes are free, and the others on no list.
abbrev pub freed : ℕ → Members
freed m free_list = count 1 m
freed m (ready i) = []
freed m sleep_list = []
freed m zombie_list = []
freed m running_list = []
freed m embryo_list = []

count_snoc : (a m : ℕ) → count a m ++ (a + m) ∷ [] ≡ count a (suc m)
count_snoc a zero = ground arith
count_snoc a (suc m) = ground (arith, count_snoc (a + 1) m)

freed_suc_at : (m : ℕ) (n : ListName) → join (freed m) free_list (m + 1) n ≡ freed (suc m) n
freed_suc_at m (ready i) = refl
freed_suc_at m free_list = ground (arith, count_snoc 1 m)
freed_suc_at m sleep_list = refl
freed_suc_at m zombie_list = refl
freed_suc_at m running_list = refl
freed_suc_at m embryo_list = refl

freed_suc : (m : ℕ) → join (freed m) free_list (m + 1) ≡ freed (m + 1)
freed_suc m =
    let one : suc m ≡ m + 1 = omega arith in (fun_ext λ n. freed_suc_at m n) ∙ ap freed one

freed_out : (m : ℕ) (n : ListName) → has (m + 1) (freed m n) ≡ false
freed_out m (ready i) = refl
freed_out m free_list = ground (arith, has-count (m + 1) 1 m)
freed_out m sleep_list = refl
freed_out m zombie_list = refl
freed_out m running_list = refl
freed_out m embryo_list = refl

freed-Inv :
    (s : Kern)
    → Lists s (freed nproc)
    → ((q : Ptr) → 0 < q → q ≤ nproc → (s.procs q).state ≡ unused)
    → ((q : Ptr) → (s.procs q).priority ≤ maxprio)
    → Inv s (freed nproc)
unfolding home_of
freed-Inv s l st prios = record {
  lists = l;
  homes = λ q lo hi. rw (st q lo hi) (ground (arith, has-count q 1 nproc));
  prios = prios;
}

-- `t` is `s` but for processes and lists, with every process free.
abbrev pub AllFree : Kern → Kern → Type 0
AllFree s t = Inv t (freed nproc) × (t ≡ record s { procs = t.procs; ends = t.ends })

free_all-AllFree :
    (k m : ℕ) (s : Kern)
    → m + k ≡ nproc
    → Lists s (freed m)
    → ((q : Ptr) → 0 < q → q ≤ m → (s.procs q).state ≡ unused)
    → ((q : Ptr) → (s.procs q).priority ≤ maxprio)
    → Yields (λ _ t. AllFree s t) (free_all k (m + 1) s)
unfolding free_all
free_all-AllFree zero m s e l st prios =
    let all : m ≡ nproc = omega arith in
    yields (
      freed-Inv s (subst (λ i. Lists s (freed i)) all l) (λ q lo hi. st q lo (omega arith)) prios,
      refl,
    )
free_all-AllFree (suc k) m s e l st prios =
    let p = m + 1 in
    let v : Proc = record (s.procs p) { state = unused } in
    let s1 : Kern = record s { procs = put s.procs p v } in
    let l1 = Lists-fields s s1 (freed m) l (λ q. ground arith) (λ n. refl) in
    rw (assign-ok s p (λ q. record q { state = unused }) (omega arith)) (
      Yields-bind
        (Lists-add s1 (freed m) free_list p l1 refl (freed_out m) (omega arith) (omega arith))
        λ _ t (e', l2, d).
          Yields-mono
            (free_all-AllFree k (m + 1) t (omega arith) (subst (Lists t) (freed_suc m) l2)
              (λ q lo hi. ap (λ (z : Proc). z.state) (d.fields q) ∙ ground (arith, st q lo))
              (λ q. rw (priority-SameBut s1 t d q) (ground (arith, prios q))))
            λ _ u (i, r).
              (i, r ∙ ap (λ (z : Kern). record z { procs = u.procs; ends = u.ends }) d.rest))

freed_none : (n : ListName) → freed 0 n ≡ []
freed_none (ready i) = refl
freed_none free_list = refl
freed_none sleep_list = refl
freed_none zombie_list = refl
freed_none running_list = refl
freed_none embryo_list = refl

abbrev no_ends : Ends
no_ends = record { head = null; tail = null }

-- The lists after initProcessLists.
empty-Lists :
    (s : Kern) → ((n : ListName) → is_list n ≡ true → s.ends n ≡ no_ends) → Lists s (freed 0)
empty-Lists s e = record {
  queue = λ n named. rw (e n named, freed_none n) (record { chain = refl; tail_is = tt });
  distinct = λ n. rw (freed_none n) tt;
  apart = λ m n p i j. let k : false ≡ true = rw (freed_none m) at i in cc;
  bound = λ n p i. let k : false ≡ true = rw (freed_none n) at i in cc;
}

init_process_lists-Lists :
    (s : Kern)
    → Yields (λ _ t. Lists t (freed 0) × (t ≡ record s { ends = t.ends })) (init_process_lists s)
unfolding init_process_lists clear clear_ready write_ends
init_process_lists-Lists s = yields (empty-Lists _ (λ n named. ground arith), refl)

init_free_list-AllFree :
    (s : Kern)
    → s.held.holding ≡ true
    → Lists s (freed 0)
    → ((q : Ptr) → (s.procs q).priority ≤ maxprio)
    → Yields (λ _ t. AllFree s t) (init_free_list s)
unfolding init_free_list
init_free_list-AllFree s held l prios =
    let all = free_all-AllFree nproc 0 s refl l (λ q lo hi. absurd (omega arith)) prios in
    subst
      (λ b.
        Yields (λ _ t. AllFree s t)
          (and_then (panic_if (not b) "acquire the ptable lock before calling initFreeList\n" s)
            (λ _. free_all nproc 1)))
      (sym held) all

-- initProcessLists and initFreeList make every process free, whatever states and links the table
-- had, and set the time of the first promotion; the invariant holds and the lock is given back.
pub init_table-AllFree :
    (s : Kern)
    → IsFree s.held
    → ((q : Ptr) → (s.procs q).priority ≤ maxprio)
    → Yields
        (λ _ t.
          Inv t (freed nproc)
          × (t.promote_at ≡ (s.ticks + ticks_to_promote) % 2 ^ 32)
          × (t.held ≡ given_back (taken s.held))
          × (t.next_pid ≡ s.next_pid)
          × (t.current ≡ s.current))
        (init_table s)
unfolding init_table
init_table-AllFree s free prios =
    let s1 : Kern = record s { held = taken s.held } in
    rw (acquire-ok s free) (
      Yields-bind (init_process_lists-Lists s1) λ _ t (l, r).
        let held : t.held ≡ taken s.held = ap (λ (z : Kern). z.held) r in
        let small : (q : Ptr) → (t.procs q).priority ≤ maxprio =
          λ q. subst (λ (z : Kern). (z.procs q).priority ≤ maxprio) (sym r) (prios q) in
        Yields-bind (init_free_list-AllFree t (ap (λ (z : Held). z.holding) held) l small)
          λ _ u (i, r').
            let held' : u.held ≡ taken s.held = ap (λ (z : Kern). z.held) r' ∙ held in
            let still : IsHeld u.held = rw held' (taken-IsHeld s.held) in
            rw (release-ok (record u { promote_at = add32 u.ticks ticks_to_promote }) still) (
              yields (
                Inv-same u _ _ i refl refl,
                ap (λ (z : Kern). add32 z.ticks ticks_to_promote) r'
                    ∙ ap (λ (z : Kern). add32 z.ticks ticks_to_promote) r,
                ap given_back held',
                ap (λ (z : Kern). z.next_pid) r' ∙ ap (λ (z : Kern). z.next_pid) r,
                ap (λ (z : Kern). z.current) r' ∙ ap (λ (z : Kern). z.current) r,
              )))
