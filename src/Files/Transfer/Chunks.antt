-- ===== src/Files/Transfer/Chunks.antt =====
-- filewrite splits a write into transactions.
use cs.Prelude.{
  ℕ, zero, suc, ◌+◌, ◌-◌, ◌^◌, ◌≤◌, ◌<◌, ◌≡◌, refl, ◌∙◌, ap, sym, subst, ◌⊎◌, inl, inr, true, false,
  List, [], ◌∷◌, ◌++◌, arith, ◌==◌, ==_refl, ltb, Bool-cases, if◌then◌else◌,
}
use cs.Prelude.Int.{ℤ, pos, negsuc}
use cs.Prelude.Run.{Yields, yields, Yields-bind, Yields-mono}
use cs.Proc.Table.{add32}
use cs.Files.{fd_inode}
use cs.Files.Transfer.{
  InodeCall, ilock, iunlock, begin_op, end_op, writei, Transfer, max_write, chunk, write_loop,
  write_as, filewrite,
}

-- writei writes all that it is asked for, or fails.
abbrev pub AllOrFails : (ℕ → ℕ → ℤ) → Type 0
AllOrFails written = (j c : ℕ) → (written j c ≡ pos c) ⊎ ((e : ℕ) × (written j c ≡ negsuc e))

-- The calls are transactions that write the bytes from `i` up to `n` at the offset `off`, one after the
-- other, in pieces that a transaction can hold, and the offset is `last` after them. The result is
-- n, or -1 if the last of the writes has failed.
pub data Pieces (written : ℕ → ℕ → ℤ) (n : ℕ)
    : (i off : ℕ) → List InodeCall → (last : ℕ) → ℤ → Type 0 where
  done : {off : ℕ} → Pieces written n n off [] off (pos n)
  failed :
      {i off e c : ℕ}
      → 0 < c
      → c ≤ max_write
      → i + c ≤ n
      → written i c ≡ negsuc e
      → Pieces written n i off
          (begin_op ∷ ilock ∷ writei i off c ∷ iunlock ∷ end_op ∷ [])
          off
          (negsuc 0)
  piece :
      {i off c last : ℕ} {cs : List InodeCall} {r : ℤ}
      → 0 < c
      → c ≤ max_write
      → written i c ≡ pos c
      → Pieces written n (i + c) (add32 off c) cs last r
      → Pieces written n i off (begin_op ∷ ilock ∷ writei i off c ∷ iunlock ∷ end_op ∷ cs) last r

snoc_append :
    (xs : List InodeCall) (x : InodeCall) (ys : List InodeCall)
    → (xs ++ x ∷ []) ++ ys ≡ xs ++ x ∷ ys
snoc_append [] x ys = refl
snoc_append (z ∷ xs) x ys = ap (λ l. z ∷ l) (snoc_append xs x ys)

append_nil : (xs : List InodeCall) → xs ≡ xs ++ []
append_nil [] = refl
append_nil (x ∷ xs) = ap (λ l. x ∷ l) (append_nil xs)

-- The calls after one round.
abbrev round_calls : List InodeCall → (i off c : ℕ) → List InodeCall
round_calls cs i off c =
    ((((cs ++ begin_op ∷ []) ++ ilock ∷ []) ++ writei i off c ∷ []) ++ iunlock ∷ []) ++ end_op ∷ []

round_calls_append :
    (cs : List InodeCall) (i off c : ℕ) (ds : List InodeCall)
    → round_calls cs i off c ++ ds
      ≡ cs ++ (begin_op ∷ ilock ∷ writei i off c ∷ iunlock ∷ end_op ∷ ds)
round_calls_append cs i off c ds =
    snoc_append _ end_op ds
    ∙ snoc_append _ iunlock _
    ∙ snoc_append _ (writei i off c) _
    ∙ snoc_append _ ilock _
    ∙ snoc_append cs begin_op _

abbrev Written : (ℕ → ℕ → ℤ) → (n i : ℕ) → Transfer → ℤ → Transfer → Type 0
Written written n i s r t =
    (cs : List InodeCall) × (t.calls ≡ s.calls ++ cs)
    × Pieces written n i s.file.off cs t.file.off r
    × (t.file ≡ record s.file { off = t.file.off })

Written-done :
    (written : ℕ → ℕ → ℤ) (n i : ℕ) (s : Transfer)
    → i ≡ n
    → Written written n i s (if i == n then pos n else negsuc 0) s
Written-done written n i s e =
    let whole : Written written n n s (pos n) s = ([], append_nil s.calls, done, refl) in
    rw (e, ==_refl n) whole

write_loop-Written :
    (written : ℕ → ℕ → ℤ) (k n i : ℕ) (s : Transfer)
    → AllOrFails written
    → i ≤ n
    → n ≤ i + k
    → Yields
        (λ j t. Written written n i s (if j == n then pos n else negsuc 0) t)
        (write_loop written k n i s)
unfolding write_loop
write_loop-Written written zero n i s all le fuel =
    let same : i ≡ n = omega arith in
    let stop : ltb i n ≡ false = ground arith in rw stop (yields (Written-done written n i s same))
write_loop-Written written (suc k) n i s all le fuel = elim (Bool-cases (ltb i n)) [
  | inl go ↦
      let c = chunk (n - i) in
      let some_ : 0 < c = ground arith in
      let small : c ≤ max_write = ground arith in
      let inside : i + c ≤ n = ground arith in
      rw go (elim (all i (chunk (n - i))) [
        | inl full ↦
            let s2 : Transfer = record {
              file = record s.file { off = add32 s.file.off c };
              calls = round_calls s.calls i s.file.off c;
            } in
            rw (full, ==_refl c)
              (Yields-mono (write_loop-Written written k n (i + c) s2 all inside (omega arith))
                λ j t (cs, e, p, f). (
                  begin_op ∷ ilock ∷ writei i s.file.off c ∷ iunlock ∷ end_op ∷ cs,
                  e ∙ round_calls_append s.calls i s.file.off c cs,
                  piece some_ small full p,
                  f,
                ))
        | inr (e, bad) ↦
            let short : (i == n) ≡ false = ground arith in
            rw (bad) (
              yields (
                rw short (
                  begin_op ∷ ilock ∷ writei i s.file.off c ∷ iunlock ∷ end_op ∷ [],
                  append_nil _ ∙ round_calls_append s.calls i s.file.off c [],
                  failed some_ small inside bad,
                  refl,
                )))
      ])
  | inr stop ↦ rw stop (yields (Written-done written n i s (ground arith)))
]

abbrev Outcome : (ℕ → ℕ → ℤ) → ℕ → Transfer → ℤ → Transfer → Type 0
Outcome written n s r t =
    Pieces written n 0 s.file.off t.calls t.file.off r
    × (t.file ≡ record s.file { off = t.file.off })

-- filewrite of `n` bytes, an int that is not negative, to an inode that is open for writing, where writei
-- writes all that it is asked for or fails, returns, with one round of fuel for each byte: the
-- bytes are written in order, in transactions of at most max_write bytes each, with the inode locked
-- inside of the transaction; the offset of the file moves behind the last byte written, and nothing
-- else of it changes. The result is n, or -1 after the first write that fails.
pub filewrite-Pieces :
    (piped : ℤ) (written : ℕ → ℕ → ℤ) (n : ℕ) (s : Transfer)
    → AllOrFails written
    → n < 2 ^ 31
    → (s.file.writable == 0) ≡ false
    → s.file.type_ ≡ fd_inode
    → s.calls ≡ []
    → Yields
        (λ r t.
          Pieces written n 0 s.file.off t.calls t.file.off r
          × (t.file ≡ record s.file { off = t.file.off }))
        (filewrite piped written n n s)
unfolding filewrite
filewrite-Pieces piped written n s all small can inode none =
    let few : ltb n (2 ^ 31) ≡ true = ground arith in
    let run : Yields (Outcome written n s) (write_as piped written n n fd_inode s) = rw few (
      Yields-bind (write_loop-Written written n n 0 s all (omega arith) (omega arith))
        λ j t (cs, e, p, f). yields (
          subst (λ l. Pieces written n 0 s.file.off l t.file.off _)
              (sym (e ∙ ap (λ l. l ++ cs) none)) p,
          f,
        )) in
    rw can
      (subst (λ ty. Yields (Outcome written n s) (write_as piped written n n ty s)) (sym inode) run)
