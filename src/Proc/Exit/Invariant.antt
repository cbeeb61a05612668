-- ===== src/Proc/Exit/Invariant.antt =====
-- What exit does to the process table.
use cs.Prelude.{
  ℕ, ◌<◌, ◌≢◌, sym, Bool, ==_refl, lt→ltb, ◌≡◌, refl, ◌∙◌, ap, inl, inr, true, false, ◌&&◌, List,
  [], ◌∷◌, arith, ◌==◌, if◌then◌else◌, Bool-cases,
}
use cs.Prelude.Finite.{has}
use cs.Prelude.Run.{Yields, yields, Yields-bind, Yields-mono}
use cs.Proc.Table.{
  nofile, Procstate, begin_op, end_op, iput, Ptr, null, zombie, chan_of, Proc, ListName, sleep_list,
  running_list, zombie_list, same_list, same_list_iff, Kern,
}
use cs.Proc.Table.Lock.{IsFree, taken, acquire-ok}
use cs.Proc.Lists.{home_of}
use cs.Proc.Lists.Members.{Members}
use cs.Proc.Lists.Moves.{Inv, move}
use cs.Proc.Lists.Updates.{Inv-same, deref-ok}
use cs.Proc.Lists.Change.{
  Changed, Changed-self, Changed-else, change_then, on-ne_null, held-SameBut,
}
use cs.Proc.Scan.First.{AllLists, AllOf, first}
use cs.Proc.Wakeup.First.{on_chan, wakeup1-first}
use cs.Proc.Exit.{abandoned_lists, exit_locked, exit_begin}
use cs.Proc.Exit.Files.{closes, FilesGone, exit_files-FilesGone, FilesGone-Inv}
use cs.Proc.Exit.Adopt.{Adopted, has_any, adopt_lists-Adopted, Adopted-Inv}
use cs.Proc.Exit.Woken.{woken_lists, woken_state, Changed-parent, FirstWoken-Kept}

woken_running : (s : Kern) (L : Members) (x : Ptr) → woken_lists s L x running_list ≡ L running_list
woken_running s L x = elim (Bool-cases (x == null)) [ inl e ↦ rw e refl | inr o ↦ rw o refl ]

woken_zombie : (s : Kern) (L : Members) (x : Ptr) → woken_lists s L x zombie_list ≡ L zombie_list
woken_zombie s L x = elim (Bool-cases (x == null)) [ inl e ↦ rw e refl | inr o ↦ rw o refl ]

abandoned_AllLists : AllLists abandoned_lists
abandoned_AllLists =
    (refl, (refl, (refl, (refl, (refl, (refl, (refl, (refl, (refl, (refl, tt))))))))))

NotZombie : ListName → Type 0
NotZombie n = same_list n zombie_list ≡ false

abandoned_NotZombie : AllOf NotZombie abandoned_lists
unfolding NotZombie
abandoned_NotZombie =
    (refl, (refl, (refl, (refl, (refl, (refl, (refl, (refl, (refl, (refl, tt))))))))))

-- A zombie is on none of the lists whose children are handed over.
zombie_not_any :
    (s : Kern) (L : Members) (q : Ptr) (ns : List ListName)
    → Inv s L
    → has q (L zombie_list) ≡ true
    → AllOf NotZombie ns
    → has_any q L ns ≡ false
unfolding NotZombie
zombie_not_any s L q [] v on all = refl
zombie_not_any s L q (n ∷ ns) v on all =
    let rest = zombie_not_any s L q ns v on all.1 in
    elim (Bool-cases (has q (L n))) [
      | inl e ↦
          let same = (same_list_iff n zombie_list).1 (v.lists.apart n zombie_list q e on) in cc
      | inr o ↦ rw (o, rest) refl
    ]

-- `t` is the kernel after exit's work with the lock held, `s` the one before, `me` the process, and
-- `x` the process that wakeup1 has woken.
pub record Left (s t : Kern) (L : Members) (me x : Ptr) : Type 0 where
  pub inv : Inv t (move (woken_lists s L x) running_list zombie_list me)
  pub entry :
      (q : Ptr)
      → t.procs q ≡ record (s.procs q) {
        state = if q == me then zombie else woken_state s x q;
        parent = (t.procs q).parent;
        next = (t.procs q).next;
      }
  pub rest : t ≡ record s { procs = t.procs; ends = t.ends }
  pub parents :
      (q : Ptr)
      → (t.procs q).parent ≡ (
          if has_any q (woken_lists s L x) abandoned_lists && ((s.procs q).parent == me)
          then s.initproc
          else (s.procs q).parent)
  pub zombies : (q : Ptr) → has q (L zombie_list) ≡ true → (t.procs q).parent ≡ (s.procs q).parent
  pub held : t.held ≡ s.held

-- An entry through the steps: it may have been woken, been given another parent, and become a zombie.
Left-entry :
    (v a b c : Proc) (w : Procstate) (mine : Bool)
    → a ≡ record v { state = w; next = a.next }
    → b ≡ record a { parent = b.parent }
    → c ≡ record b { state = if mine then zombie else b.state; next = c.next }
    → c ≡ record v { state = if mine then zombie else w; parent = c.parent; next = c.next }
Left-entry v a b c w mine e1 e2 e3 =
    e3
    ∙ ap (λ (z : Proc). record z { state = if mine then zombie else z.state; next = c.next }) e2
    ∙ ap
        (λ (z : Proc). record z {
          parent = b.parent;
          state = if mine then zombie else z.state;
          next = c.next;
        })
        e1
    ∙ ap (λ r. record v { parent = r; state = if mine then zombie else w; next = c.next })
        (sym (ap (λ (z : Proc). z.parent) e3))

Adopted-entry :
    (t u : Kern) (me init : Ptr) (chosen : Ptr → Bool) (q : Ptr)
    → Adopted t u me init chosen
    → u.procs q ≡ record (t.procs q) { parent = (u.procs q).parent }
Adopted-entry t u me init chosen q a = ground (arith, a.entry q)

Changed-zombie :
    (s t : Kern) (me q : Ptr)
    → Changed s t me (record (s.procs me) { state = zombie })
    → t.procs q ≡ record (s.procs q) {
      state = if q == me then zombie else (s.procs q).state;
      next = (t.procs q).next;
    }
Changed-zombie s t me q d = elim (Bool-cases (q == me)) [
  | inl e ↦ let same : q ≡ me = ground arith in rw (same, ==_refl me) (Changed-self s t me _ d)
  | inr o ↦ let ne : me ≢ q = ground arith in rw o (Changed-else s t me q _ d ne)
]

abbrev pub sleeper : Kern → Members → Ptr → Ptr
sleeper s L me = first s.procs (on_chan (chan_of (s.procs me).parent)) (L sleep_list)

Left-parents :
    (s t u w : Kern) (L L1 : Members) (me : Ptr) (v : Proc)
    → ((q : Ptr) → (t.procs q).parent ≡ (s.procs q).parent)
    → Adopted t u me s.initproc (λ q. has_any q L1 abandoned_lists)
    → Changed u w me v
    → v.parent ≡ (u.procs me).parent
    → (q : Ptr)
    → (w.procs q).parent ≡ (
        if has_any q L1 abandoned_lists && ((s.procs q).parent == me)
        then s.initproc
        else (s.procs q).parent)
Left-parents s t u w L L1 me v kept a d same q =
    ground (arith, kept q, a.entry q, Changed-parent u w me q v d same)

exit_locked-Left :
    (s : Kern) (L : Members) (me : Ptr)
    → Inv s L
    → has me (L running_list) ≡ true
    → Yields (λ _ t. Left s t L me (sleeper s L me)) (exit_locked me s)
unfolding exit_locked home_of
exit_locked-Left s L me v on =
    let x = sleeper s L me in
    let L1 = woken_lists s L x in
    let np = on-ne_null s L running_list me v on in
    rw (deref-ok s me np) (
      Yields-bind (wakeup1-first (chan_of (s.procs me).parent) s L v) λ _ t w.
        let k = FirstWoken-Kept s t L x v w in
        Yields-bind
          (adopt_lists-Adopted abandoned_lists me s.initproc t L1 k.inv.lists abandoned_AllLists)
          λ _ u a.
            let v1 = Adopted-Inv t u L1 me s.initproc _ k.inv a in
            let on1 : has me (L1 running_list) ≡ true = rw (woken_running s L x) on in
            change_then u L1 me running_list zombie_list (λ q. record q { state = zombie }) _ _
              zombie _ v1 refl refl on1 refl refl (v1.prios me) refl
              λ t' v' d.
                let parents = Left-parents s t u t' L L1 me _ k.parent a d refl in
                yields (record {
                  inv = v';
                  entry = λ q.
                      Left-entry (s.procs q) (t.procs q) (u.procs q) (t'.procs q)
                        (woken_state s x q) (q == me) (k.entry q) (Adopted-entry t u me _ _ q a)
                        (Changed-zombie u t' me q d);
                  rest =
                      ap (λ (z : Kern). record z { procs = t'.procs; ends = t'.ends }) d.rest
                      ∙ ap (λ (z : Kern). record z { procs = t'.procs; ends = t'.ends }) a.rest
                      ∙ ap (λ (z : Kern). record z { procs = t'.procs; ends = t'.ends }) k.rest;
                  parents = parents;
                  zombies = λ q z.
                      let z1 : has q (L1 zombie_list) ≡ true = rw (woken_zombie s L x) z in
                      let out =
                        zombie_not_any t L1 q abandoned_lists k.inv z1 abandoned_NotZombie in
                      parents q ∙ rw out refl;
                  held = held-SameBut _ t' d ∙ ap (λ (z : Kern). z.held) a.rest ∙ k.held;
                }))

-- `t` is the kernel where exit calls sched, and `s` the one where it began.
abbrev pub ExitBegun : (s : Kern) → (L : Members) → (t : Kern) → Type 0
ExitBegun s L t =
    (t1 : Kern) × FilesGone s t1 s.current
    × (let s1 : Kern = record t1 { held = taken s.held } in
        Left s1 t L s.current (sleeper s1 L s.current))
    × ((t.procs s.current).state ≡ zombie)
    × ((i : ℕ) → i < nofile → (t.procs s.current).ofile i ≡ 0)
    × ((t.procs s.current).cwd ≡ 0)
    × (t.calls
        ≡ end_op
          ∷ iput (s.procs s.current).cwd
          ∷ begin_op
          ∷ closes nofile 0 (s.procs s.current).ofile s.calls)

-- exit of a running process, other than init, up to its call of sched. It calls fileclose for each open
-- file, and iput for the working directory in a transaction, in this order, and asks nothing else of other
-- parts of the kernel; no file is open then and there is no working directory. It wakes the first process
-- that sleeps on the parent; makes init the parent of the children on the ready, sleep, embryo and running
-- lists, while children that are zombies keep the exiting process as their parent; and makes the process a
-- zombie, at the end of the zombie list. Nothing else changes in the table but links, the lock is held and
-- the table invariant holds. `t1` is the kernel with the files closed.
pub exit_begin-Left :
    (s : Kern) (L : Members)
    → Inv s L
    → IsFree s.held
    → has s.current (L running_list) ≡ true
    → (s.current == s.initproc) ≡ false
    → Yields (λ _ t. ExitBegun s L t) (exit_begin s)
unfolding exit_begin
exit_begin-Left s L v free on other =
    let me = s.current in
    let np = on-ne_null s L running_list me v on in
    rw other (
      Yields-bind (exit_files-FilesGone me s np) λ _ t g.
        let same : t.held ≡ s.held = ap (λ (z : Kern). z.held) g.rest in
        let v1 = FilesGone-Inv s t L me v g in
        let s1 : Kern = record t { held = taken s.held } in
        let v2 = Inv-same t s1 L v1 refl refl in
        rw (acquire-ok t (rw same free), same)
          (Yields-mono (exit_locked-Left s1 L me v2 on) λ _ u l. (
            t,
            g,
            l,
            ap (λ (z : Proc). z.state) (l.entry me) ∙ rw (==_refl me) refl,
            (λ i lt. ap (λ (z : Proc). z.ofile i) (l.entry me) ∙ g.ofile i (lt→ltb i nofile lt)),
            ap (λ (z : Proc). z.cwd) (l.entry me) ∙ ap (λ (z : Proc). z.cwd) g.mine,
            ap (λ (z : Kern). z.calls) l.rest ∙ g.calls,
          )))
