-- ===== src/Inode/Put/Refs.antt =====
-- The references to an inode: idup and iput.
use cs.Prelude.{
  ◌+◌, ◌^◌, ◌<◌, ◌≡◌, refl, ◌∙◌, ap, ◌≢◌, false, arith, ◌==◌, ==_ne, ==_refl, Bool-cases, inl, inr,
}
use cs.Prelude.Run.{Yields, yields, ok, ◌>>=◌}
use cs.Proc.Table.{Ptr, null, sub32}
use cs.Proc.Table.Lock.{IsFree, taken, given_back, taken-IsHeld, given_back-IsFree}
use cs.Inode.{Inode, FileSystem, put_inode, another, idup}
use cs.Inode.Unique.Cases.{lock_icache-ok, unlock_icache-ok}
use cs.Inode.Put.{unlinked, iput}

abbrev fewer : Inode → Inode
fewer ip = record ip { ref = sub32 ip.ref 1 }

idup-ok :
    (s : FileSystem) (p : Ptr)
    → IsFree s.held
    → p ≢ null
    → idup p s
      ≡ ok p (record s {
        inode = put_inode s.inode p (another (s.inode p));
        held = given_back (taken s.held);
      })
unfolding idup
idup-ok s p free np =
    let s1 : FileSystem = record s {
      inode = put_inode s.inode p (another (s.inode p));
      held = taken s.held;
    } in
    rw (lock_icache-ok s free, ==_ne p null np, unlock_icache-ok s1 (taken-IsHeld s.held)) refl

iput-shared :
    (s : FileSystem) (p : Ptr)
    → IsFree s.held
    → p ≢ null
    → unlinked (s.inode p) ≡ false
    → iput p s
      ≡ ok tt (record s {
        inode = put_inode s.inode p (fewer (s.inode p));
        held = given_back (taken s.held);
      })
unfolding iput
iput-shared s p free np more =
    let s1 : FileSystem = record s {
      inode = put_inode s.inode p (fewer (s.inode p));
      held = taken s.held;
    } in
    rw
      (
        lock_icache-ok s free,
        ==_ne p null np,
        more,
        ==_ne p null np,
        unlock_icache-ok s1 (taken-IsHeld s.held),
      )
      refl

-- idup and then iput of an inode that has a reference, and fewer than an int can count, leave all
-- inodes and the disk as they were, even if no directory has the inode.
pub iput-idup :
    (s : FileSystem) (p : Ptr)
    → IsFree s.held
    → p ≢ null
    → 0 < (s.inode p).ref
    → (s.inode p).ref + 1 < 2 ^ 31
    → Yields
        (λ _ t. ((q : Ptr) → t.inode q ≡ s.inode q) × (t.fs ≡ s.fs) × IsFree t.held)
        ((idup p >>= λ q. iput q) s)
iput-idup s p free np lo hi =
    rw (idup-ok s p free np, iput-shared t p (given_back-IsFree (taken s.held)) np kept)
      (yields (back, refl, given_back-IsFree (taken t.held)))
  where
    t : FileSystem
    t = record s {
      inode = put_inode s.inode p (another (s.inode p));
      held = given_back (taken s.held);
    }

    here : t.inode p ≡ another (s.inode p)
    here = rw (==_refl p) refl

    kept : unlinked (t.inode p) ≡ false
    kept = ap unlinked here ∙ ground arith

    back : (q : Ptr) → put_inode t.inode p (fewer (t.inode p)) q ≡ s.inode q
    back q = elim (Bool-cases (q == p)) [
      | inl k ↦
          let same : q ≡ p = ground arith in
          rw same (rw (==_refl p) (ap (λ z. record (s.inode p) { ref = z }) (omega arith)))
      | inr k ↦ rw k refl
    ]
