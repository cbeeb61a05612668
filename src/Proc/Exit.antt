-- ===== src/Proc/Exit.antt =====
-- exit of proc.c.
pub mod Files
pub mod Adopt
pub mod Invariant
pub mod Woken
use Prim.Native.String.{String}
use cs.Prelude.{ℕ, zero, suc, ◌+◌, List, [], ◌∷◌, ◌++◌, ◌==◌, if◌then◌else◌}
use cs.Prelude.Run.{Cmd, ok, out_of_fuel, pure, panic, fetch, ◌>>=◌, ◌>>◌}
use cs.Bytes.{poke}
use cs.Proc.Table.{
  Ptr, null, nproc, nofile, zombie, chan_of, Proc, ListName, zombie_list, running_list, sleep_list,
  embryo_list, Call, fileclose, iput, begin_op, end_op, Kern, deref, assign, read_ends, call,
  panic_if, acquire,
}
use cs.Proc.Lists.{relist, assert_state}
use cs.Proc.Scan.{ready_lists}
use cs.Proc.Sched.{sched}
use cs.Proc.Wakeup.{wakeup1}

-- One descriptor, and the loop over them from `fd` on, `k` of them.
unfoldable pub close_file : Ptr → ℕ → Cmd Kern (Unit {0})
close_file me fd = do
  q ← deref me
  if q.ofile fd == 0 then pure tt else (do
    call (fileclose (q.ofile fd))
    assign me (λ q. record q { ofile = poke q.ofile fd 0 }))

unfoldable pub close_files : Ptr → ℕ → ℕ → Cmd Kern (Unit {0})
close_files me zero fd = pure tt
close_files me (suc k) fd = do close_file me fd; close_files me k (fd + 1)

-- A child of `me` becomes a child of `init`.
abbrev pub adopted : Ptr → Ptr → Proc → Proc
adopted me init q = if q.parent == me then record q { parent = init } else q

-- `if(p->parent == proc) p->parent = initproc;`
unfoldable pub adopt_one : Ptr → Ptr → Ptr → Cmd Kern (Unit {0})
adopt_one me init p = do
  q ← deref p
  if q.parent == me then assign p (λ q. record q { parent = init }) else pure tt

-- The loop over one list, and the loops over all of them.
unfoldable pub adopt : ℕ → Ptr → Ptr → Ptr → Cmd Kern (Unit {0})
adopt zero me init p = λ _. out_of_fuel
adopt (suc k) me init p =
    if p == null then pure tt else (do adopt_one me init p; q ← deref p; adopt k me init q.next)

unfoldable pub adopt_lists : List ListName → Ptr → Ptr → Cmd Kern (Unit {0})
adopt_lists [] me init = pure tt
adopt_lists (n ∷ ns) me init = do
  e ← read_ends n
  adopt (nproc + 1) me init e.head
  adopt_lists ns me init

abbrev pub abandoned_lists : List ListName
abandoned_lists = ready_lists ++ (sleep_list ∷ embryo_list ∷ running_list ∷ [])

-- The open files and the working directory are given up.
unfoldable pub exit_files : Ptr → Cmd Kern (Unit {0})
exit_files me = do
  close_files me nofile 0
  call begin_op
  q ← deref me
  call (iput q.cwd)
  call end_op
  assign me (λ q. record q { cwd = 0 })

-- With ptable.lock held, up to the call of sched.
unfoldable pub exit_locked : Ptr → Cmd Kern (Unit {0})
exit_locked me = do
  s ← fetch
  q ← deref me
  wakeup1 (chan_of q.parent)
  adopt_lists abandoned_lists me s.initproc
  assign me (λ q. record q { state = zombie })
  relist running_list zombie_list me "Error removing from running." "error adding to zombie list."
  assert_state me zombie
  pure tt

-- `exit` up to its call of sched.
unfoldable pub exit_begin : Cmd Kern (Unit {0})
exit_begin = do
  s ← fetch
  panic_if (s.current == s.initproc) "init exiting"
  exit_files s.current
  acquire
  exit_locked s.current

unfoldable pub exit : (elsewhere : Kern → Kern) → Cmd Kern (Unit {0})
exit elsewhere = do exit_begin; sched elsewhere; λ _. panic "zombie exit"
