-- ===== src/Files/Counts.antt =====
-- The reference counts of the table of open files.
pub mod First
use cs.Prelude.{
  ℕ, zero, suc, ◌+◌, ◌^◌, ◌≤◌, ◌<◌, ◌≡◌, refl, ◌∙◌, ap, ◌≢◌, ◌⊎◌, inl, inr, true, false, List, ◌∷◌,
  arith, ◌==◌, ==_refl, ==_ne, Bool-cases,
}
use cs.Prelude.Run.{Yields, yields, Yields-mono, ok, ◌>>=◌}
use cs.Spinlock
use cs.Spinlock.{Held}
use cs.Proc.Table.{Ptr, null, add32, sub32, not_positive}
use cs.Proc.Table.Lock.{IsFree, IsHeld, taken, given_back, taken-IsHeld, given_back-IsFree}
use cs.Files.{
  nfile, fd_none, fd_pipe, fd_inode, FileCall, pipeclose, iput, begin_op, end_op, File, Ftable,
  put_file, lock_table, unlock_table, alloc_loop, filealloc, filedup, fileclose, close_last,
}
use cs.Files.Counts.First.{lock_table-ok, unlock_table-ok}

-- What is asked of other parts of the kernel when a file is closed for good.
abbrev pub asked : File → List FileCall → List FileCall
asked f calls = elim f.type_ [
  | fd_none ↦ calls
  | fd_pipe ↦ pipeclose f.pipe f.writable ∷ calls
  | fd_inode ↦ end_op ∷ iput f.ip ∷ begin_op ∷ calls
]

filedup-ok :
    (s : Ftable) (p : Ptr)
    → IsFree s.held
    → p ≢ null
    → not_positive (s.file p).ref ≡ false
    → filedup p s
      ≡ ok p (record s {
        file = put_file s.file p (record (s.file p) { ref = add32 (s.file p).ref 1 });
        held = given_back (taken s.held);
      })
unfolding filedup
filedup-ok s p free np pos =
    let s1 : Ftable = record s {
      file = put_file s.file p (record (s.file p) { ref = add32 (s.file p).ref 1 });
      held = taken s.held;
    } in
    rw
      (
        lock_table-ok s free,
        ==_ne p null np,
        pos,
        ==_ne p null np,
        unlock_table-ok s1 (taken-IsHeld s.held),
      )
      refl

fileclose-shared :
    (s : Ftable) (p : Ptr)
    → IsFree s.held
    → p ≢ null
    → not_positive (s.file p).ref ≡ false
    → not_positive (sub32 (s.file p).ref 1) ≡ false
    → fileclose p s
      ≡ ok tt (record s {
        file = put_file s.file p (record (s.file p) { ref = sub32 (s.file p).ref 1 });
        held = given_back (taken s.held);
      })
unfolding fileclose
fileclose-shared s p free np pos more =
    let s1 : Ftable = record s {
      file = put_file s.file p (record (s.file p) { ref = sub32 (s.file p).ref 1 });
      held = taken s.held;
    } in
    rw
      (
        lock_table-ok s free,
        ==_ne p null np,
        pos,
        ==_ne p null np,
        ==_ne p null np,
        ==_refl p,
        more,
        unlock_table-ok s1 (taken-IsHeld s.held),
      )
      refl

put_back :
    (f : Ptr → File) (p : Ptr) (v w : File) (q : Ptr)
    → w ≡ f p
    → put_file (put_file f p v) p w q ≡ f q
put_back f p v w q e = elim (Bool-cases (q == p)) [
  | inl k ↦ let same : q ≡ p = ground arith in rw same (rw (==_refl p) e)
  | inr k ↦ rw k refl
]

-- With references left, and fewer than an int can count, filedup and then fileclose leave all files
-- as they were; neither asks anything of other parts of the kernel, and the lock is given back.
pub fileclose-filedup :
    (s : Ftable) (p : Ptr)
    → IsFree s.held
    → p ≢ null
    → 0 < (s.file p).ref
    → (s.file p).ref + 1 < 2 ^ 31
    → Yields
        (λ _ t.
          ((q : Ptr) → t.file q ≡ s.file q)
          × (t.calls ≡ s.calls)
          × (t.held ≡ given_back (taken s.held)))
        ((filedup p >>= λ q. fileclose q) s)
fileclose-filedup s p free np lo hi =
    let v : File = record (s.file p) { ref = add32 (s.file p).ref 1 } in
    let s1 : Ftable = record s { file = put_file s.file p v; held = given_back (taken s.held) } in
    let up : add32 (s.file p).ref 1 ≡ (s.file p).ref + 1 = omega arith in
    let down : sub32 ((s.file p).ref + 1) 1 ≡ (s.file p).ref = omega arith in
    let e : s1.file p ≡ v = rw (==_refl p) refl in
    let ref1 : (s1.file p).ref ≡ (s.file p).ref + 1 = ap (λ (z : File). z.ref) e ∙ up in
    let back : sub32 (s1.file p).ref 1 ≡ (s.file p).ref = ap (λ z. sub32 z 1) ref1 ∙ down in
    let pos0 : not_positive (s.file p).ref ≡ false = ground arith in
    let pos1 : not_positive (s1.file p).ref ≡ false = rw ref1 (ground arith) in
    let more : not_positive (sub32 (s1.file p).ref 1) ≡ false = rw back pos0 in
    let w : File = record (s1.file p) { ref = sub32 (s1.file p).ref 1 } in
    let whole : w ≡ s.file p =
      ap (λ (z : File). record z { ref = sub32 (s1.file p).ref 1 }) e
      ∙ ap (λ z. record (s.file p) { ref = z }) back in
    rw
      (
        filedup-ok s p free np pos0,
        fileclose-shared s1 p (given_back-IsFree (taken s.held)) np pos1 more,
      )
      (yields (λ q. put_back s.file p v w q whole, refl, refl))

close_last-asked :
    (ff : File) (s : Ftable) → close_last ff s ≡ ok tt (record s { calls = asked ff s.calls })
unfolding close_last
close_last-asked ff s = ground arith

-- Closing the last reference frees the entry, and asks for what its type needs: a pipe's end is
-- closed, and an inode is put in a transaction.
pub fileclose-last :
    (s : Ftable) (p : Ptr)
    → IsFree s.held
    → p ≢ null
    → (s.file p).ref ≡ 1
    → Yields
        (λ _ t.
          ((t.file p).ref ≡ 0)
          × ((t.file p).type_ ≡ fd_none)
          × ((q : Ptr) → p ≢ q → t.file q ≡ s.file q)
          × (t.calls ≡ asked (s.file p) s.calls)
          × (t.held ≡ given_back (taken s.held)))
        (fileclose p s)
unfolding fileclose close_last
fileclose-last s p free np one =
    let f = s.file p in
    let v : File = record f { ref = sub32 f.ref 1 } in
    let w : File = record v { ref = 0; type_ = fd_none } in
    let pos : not_positive f.ref ≡ false = rw one refl in
    let none : not_positive (sub32 f.ref 1) ≡ true = rw one refl in
    let s2 : Ftable = record s { file = put_file (put_file s.file p v) p w; held = taken s.held } in
    let s3 : Ftable = record s2 { held = given_back (taken s.held) } in
    rw
      (
        lock_table-ok s free,
        ==_ne p null np,
        pos,
        ==_ne p null np,
        ==_ne p null np,
        ==_refl p,
        none,
        ==_ne p null np,
        ==_refl p,
        unlock_table-ok s2 (taken-IsHeld s.held),
        close_last-asked v s3,
      )
      (yields (
        rw (==_refl p) refl,
        rw (==_refl p) refl,
        λ q ne. let miss : (q == p) ≡ false = ground arith in rw miss refl,
        refl,
        refl,
      ))
