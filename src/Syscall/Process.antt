-- ===== src/Syscall/Process.antt =====
-- The system calls of sysproc.c that take their arguments from the process and call proc.c. `m` is the
-- memory of the current process.
use cs.Prelude.{
  ℕ, ◌≤◌, ◌≡◌, refl, ◌≢◌, inl, inr, false, not, Option, none, some, arith, ◌==◌, leb, ==_ne,
  ==_refl, Bool-cases, if◌then◌else◌, subst, sym, ◌∙◌, ap,
}
use cs.Prelude.Int.{ℤ, pos, negsuc, to_int}
use cs.Prelude.Run.{Cmd, pure, fetch, ◌>>=◌, ◌>>◌, Yields, yields, Yields-bind, Yields-mono}
use cs.Bytes.{Memory}
use cs.Proc.Table.{Ptr, null, Proc, Kern, put, deref, assign}
use cs.Proc.Kill.{kill}
use cs.Proc.Priority.{setpriority}
use cs.Syscall.{argint}

-- argint of the current process.
unfoldable pub arg : Memory → ℕ → Cmd Kern (Option ℕ)
unfolding deref
arg m n = do s ← fetch; q ← deref s.current; pure (argint m q.sz q.frame.esp n)

unfoldable pub sys_kill : Memory → Cmd Kern ℤ
sys_kill m = do pid ← arg m 0; elim pid [ none ↦ pure (negsuc 0) | some pid ↦ kill pid ]

unfoldable pub sys_getpid : Cmd Kern ℤ
sys_getpid = do s ← fetch; q ← deref s.current; pure (to_int q.pid)

unfoldable pub sys_uptime : Cmd Kern ℤ
sys_uptime = do s ← fetch; pure (to_int s.ticks)

unfoldable pub sys_getuid : Cmd Kern ℕ
sys_getuid = do s ← fetch; q ← deref s.current; pure q.uid

unfoldable pub sys_getgid : Cmd Kern ℕ
sys_getgid = do s ← fetch; q ← deref s.current; pure q.gid

-- The pid of the parent, or of the process itself if it has none.
unfoldable pub sys_getppid : Cmd Kern ℕ
sys_getppid = do
  s ← fetch
  q ← deref s.current
  if not (q.parent == null) then (do r ← deref q.parent; pure r.pid) else pure q.pid

-- The variable of sys_setuid and sys_setgid: the argument, or what it held before if there is none.
abbrev pub or_before : ℕ → Option ℕ → ℕ
or_before before none = before
or_before before (some u) = u

-- `0 <= u <= 32767` of an int is that of its bit pattern.
unfoldable pub sys_setuid : Memory → (before : ℕ) → Cmd Kern ℤ
sys_setuid m before = do
  a ← arg m 0
  s ← fetch
  let u = or_before before a
  if leb u 32767
      then (do assign s.current (λ q. record q { uid = u }); pure (pos 0))
      else pure (negsuc 0)

unfoldable pub sys_setgid : Memory → (before : ℕ) → Cmd Kern ℤ
sys_setgid m before = do
  a ← arg m 0
  s ← fetch
  let u = or_before before a
  if leb u 32767
      then (do assign s.current (λ q. record q { gid = u }); pure (pos 0))
      else pure (negsuc 0)

unfoldable pub sys_setpriority : Memory → Cmd Kern ℤ
sys_setpriority m = do
  pid ← arg m 0
  elim pid [
    | none ↦ pure (negsuc 0)
    | some pid ↦ (do
      value ← arg m 1
      elim value [ none ↦ pure (negsuc 0) | some v ↦ setpriority (to_int pid) (to_int v) ])
  ]

-- The ids of all processes are in the range of sys_setuid and sys_setgid.
abbrev pub IdsInRange : Kern → Type 0
IdsInRange s = (p : Ptr) → ((s.procs p).uid ≤ 32767) × ((s.procs p).gid ≤ 32767)

-- Only the ids of the current process may have changed.
abbrev pub SameButIds : Kern → Kern → Type 0
SameButIds s t =
    (t ≡ record s { procs = t.procs })
    × ((p : Ptr) → s.current ≢ p → t.procs p ≡ s.procs p)
    × (t.procs s.current ≡ record (s.procs s.current) {
      uid = (t.procs s.current).uid;
      gid = (t.procs s.current).gid;
    })

ids_put :
    (s : Kern) (q : Proc)
    → IdsInRange s
    → q.uid ≤ 32767
    → q.gid ≤ 32767
    → IdsInRange (record s { procs = put s.procs s.current q })
ids_put s q ids u g p = elim (Bool-cases (p == s.current)) [
  | inl e ↦ rw e (u, g)
  | inr e ↦ rw e (ids p)
]

put_same :
    (s : Kern) (u g : ℕ)
    → SameButIds s (record s {
      procs = put s.procs s.current (record (s.procs s.current) { uid = u; gid = g });
    })
put_same s u g = (
  refl,
  λ p ne. let off : (p == s.current) ≡ false = ground arith in rw off refl,
  rw (==_refl s.current) refl,
)

SameButIds-trans : (s t u : Kern) → SameButIds s t → SameButIds t u → SameButIds s u
SameButIds-trans s t u (e, a, b) (f, c, d) =
    let cur : t.current ≡ s.current = ap (λ (z : Kern). z.current) e in
    let d' =
      subst (λ x. u.procs x ≡ record (t.procs x) { uid = (u.procs x).uid; gid = (u.procs x).gid })
        cur d in
    (
      f ∙ ap (λ (z : Kern). record z { procs = u.procs }) e,
      λ p ne. c p (λ z. ne (sym cur ∙ z)) ∙ a p ne,
      d'
          ∙ ap
              (λ (z : Proc). record z {
                uid = (u.procs s.current).uid;
                gid = (u.procs s.current).gid;
              })
              b,
    )

sys_setuid-ids :
    (m : Memory) (before : ℕ) (s : Kern)
    → s.current ≢ null
    → IdsInRange s
    → Yields (λ _ t. IdsInRange t × SameButIds s t) (sys_setuid m before s)
unfolding sys_setuid arg deref assign
sys_setuid-ids m before s np ids =
    let q = s.procs s.current in
    let u = or_before before (argint m q.sz q.frame.esp 0) in
    elim (Bool-cases (leb u 32767)) [
      | inl e ↦
          let le : u ≤ 32767 = ground arith in
          let own = ids s.current in
          rw (==_ne s.current null np, e, ==_ne s.current null np)
            (yields (ids_put s (record q { uid = u }) ids le own.1, put_same s u q.gid))
      | inr e ↦ rw (==_ne s.current null np, e) (yields (ids, (refl, λ p ne. refl, refl)))
    ]

sys_setgid-ids :
    (m : Memory) (before : ℕ) (s : Kern)
    → s.current ≢ null
    → IdsInRange s
    → Yields (λ _ t. IdsInRange t × SameButIds s t) (sys_setgid m before s)
unfolding sys_setgid arg deref assign
sys_setgid-ids m before s np ids =
    let q = s.procs s.current in
    let u = or_before before (argint m q.sz q.frame.esp 0) in
    elim (Bool-cases (leb u 32767)) [
      | inl e ↦
          let le : u ≤ 32767 = ground arith in
          let own = ids s.current in
          rw (==_ne s.current null np, e, ==_ne s.current null np)
            (yields (ids_put s (record q { gid = u }) ids own.0 le, put_same s q.uid u))
      | inr e ↦ rw (==_ne s.current null np, e) (yields (ids, (refl, λ p ne. refl, refl)))
    ]

-- sys_setuid and then sys_setgid by a process, whatever its arguments, and also without any, return; they
-- change no more than the ids of that process, and leave the ids of all processes in their range.
pub sys_setgid-sys_setuid :
    (m : Memory) (before1 before2 : ℕ) (s : Kern)
    → s.current ≢ null
    → IdsInRange s
    → Yields
        (λ _ t. IdsInRange t × SameButIds s t)
        ((sys_setuid m before1 >>= λ _. sys_setgid m before2) s)
sys_setgid-sys_setuid m before1 before2 s np ids =
    Yields-bind (sys_setuid-ids m before1 s np ids) λ _ t (ids1, same).
      let cur : t.current ≡ s.current = ap (λ (z : Kern). z.current) same.0 in
      Yields-mono (sys_setgid-ids m before2 t (λ z. np (sym cur ∙ z)) ids1)
        λ _ u (ids2, same2). (ids2, SameButIds-trans s t u same same2)
