-- ===== src/Inode/Lock/Trip.antt =====
-- What iupdate writes, ilock reads.
use cs.Prelude.{
  ℕ, suc, ◌≡◌, refl, Bool, if◌then◌else◌, ◌≢◌, true, false, ◌∙◌, ◌==◌, ==_ne, ==_refl, sym, ap, ◌∷◌,
  subst,
}
use cs.Bytes.{Memory}
use cs.Prelude.Run.{Cmd, pure, Yields, yields, modify, ◌>>◌}
use cs.Proc.Table.{Ptr, null, not_positive}
use cs.Proc.Table.Lock.{IsFree, taken, given_back, taken-IsHeld, given_back-IsFree}
use cs.Inode.{Inode, FileSystem, put_inode}
use cs.Inode.Unique.Cases.{lock_icache-ok, unlock_icache-ok}
use cs.Inode.Dinode.{store_dinode, dinode, iblock, iupdate}
use cs.Inode.Lock.{load_dinode, load_inode, wait_idle, ilock}
use cs.Inode.Lock.Copies.{Fits, Copies, load_dinode-store}

-- An entry of icache for the inode that has a reference, is not locked and has not been read.
pub record IsUnread (inum : ℕ) (n : Inode) : Type 0 where
  pub same_inum : n.inum ≡ inum
  pub referred : not_positive n.ref ≡ false
  pub idle : n.busy ≡ false
  pub invalid : n.valid ≡ false

-- Between iupdate and ilock the table of inodes changes, but not the block of the inode.
pub record Keeps (s : FileSystem) (p q : Ptr) (between : FileSystem → FileSystem) : Type 0 where
  pub same_block :
      (t : FileSystem)
      → (between t).fs.cache (iblock s (s.inode p).inum) ≡ t.fs.cache (iblock s (s.inode p).inum)
  pub same_start : (t : FileSystem) → (between t).inodestart ≡ t.inodestart
  pub lock_free : (t : FileSystem) → IsFree (between t).held
  pub unread : (t : FileSystem) → IsUnread (s.inode p).inum ((between t).inode q)

abbrev pub Locked : Inode → Ptr → FileSystem → Type 0
Locked ip q v =
    Copies ip (v.inode q) × ((v.inode q).busy ≡ true) × ((v.inode q).valid ≡ true) × IsFree v.held

load_dinode-flags :
    (m : Memory) (a : ℕ) (n : Inode)
    → ((load_dinode m a n).valid ≡ true) × ((load_dinode m a n).busy ≡ n.busy)
unfolding load_dinode
load_dinode-flags m a n = (refl, refl)

load_inode-Locked :
    (v : FileSystem) (q : Ptr) (ip : Inode) (m : Memory)
    → q ≢ null
    → IsFree v.held
    → (v.inode q).busy ≡ true
    → (v.inode q).inum ≡ ip.inum
    → Fits ip
    → ip.type_ ≢ 0
    → v.fs.cache (iblock v (v.inode q).inum) ≡ store_dinode ip (dinode ip.inum) m
    → Yields (λ _ w. Locked ip q w) (load_inode q v)
unfolding load_inode
load_inode-Locked v q ip m nq free busy same fits typed stored =
    rw (==_ne q null nq, ==_ne q null nq, ==_ne q null nq, ==_refl q, typed')
      (yields (rw (==_refl q) (copies, flags.1 ∙ busy, flags.0, free)))
  where
    n : Inode
    n = load_dinode (v.fs.cache (iblock v (v.inode q).inum)) (dinode (v.inode q).inum) (v.inode q)

    flags : (n.valid ≡ true) × (n.busy ≡ (v.inode q).busy)
    flags = load_dinode-flags _ _ (v.inode q)

    copies : Copies ip n
    copies =
        subst (λ b. Copies ip (load_dinode b (dinode (v.inode q).inum) (v.inode q))) (sym stored)
          (subst
            (λ i.
              Copies ip (load_dinode (store_dinode ip (dinode ip.inum) m) (dinode i) (v.inode q)))
            (sym same) (load_dinode-store ip (v.inode q) (dinode ip.inum) m fits))

    typed' : (n.type_ == 0) ≡ false
    typed' = rw copies.type_copied (==_ne ip.type_ 0 typed)

run_else :
    {P : Unit {0} → FileSystem → Type 0} (b : Bool) (m n : Cmd FileSystem (Unit {0}))
    (s : FileSystem)
    → b ≡ false
    → Yields P (n s)
    → Yields P ((if b then m else n) s)
run_else b m n s e h = rw e h

ilock-Locked :
    (u : FileSystem) (q : Ptr) (ip : Inode) (m : Memory) (elsewhere : ℕ → FileSystem → FileSystem)
    (k : ℕ)
    → q ≢ null
    → IsFree u.held
    → IsUnread ip.inum (u.inode q)
    → Fits ip
    → ip.type_ ≢ 0
    → u.fs.cache (iblock u (u.inode q).inum) ≡ store_dinode ip (dinode ip.inum) m
    → Yields (λ _ v. Locked ip q v) (ilock elsewhere (suc k) q u)
unfolding ilock wait_idle
ilock-Locked u q ip m elsewhere k nq free unread fits typed stored =
    rw
      (
        ==_ne q null nq,
        unread.referred,
        lock_icache-ok u free,
        ==_ne q null nq,
        unread.idle,
        ==_ne q null nq,
        unlock_icache-ok s2 (taken-IsHeld u.held),
        ==_ne q null nq,
      )
      (run_else (s3.inode q).valid (pure tt) (load_inode q) s3 (rw (==_refl q) unread.invalid) (
        load_inode-Locked s3 q ip m nq (given_back-IsFree (taken u.held)) (rw (==_refl q) refl)
          (rw (==_refl q) unread.same_inum) fits typed (rw (==_refl q) stored)))
  where
    s2 : FileSystem
    s2 = record u {
      inode = put_inode u.inode q (record (u.inode q) { busy = true });
      held = taken u.held;
    }

    s3 : FileSystem
    s3 = record s2 { held = given_back (taken u.held) }

-- What iupdate writes, ilock reads: an entry of the same inode that is neither valid nor locked is
-- locked and filled with the fields that iupdate had, where the fields fit, the type is not 0, and the
-- inode's block has not changed in between.
pub ilock-iupdate :
    (s : FileSystem) (p q : Ptr) (between : FileSystem → FileSystem)
    (elsewhere : ℕ → FileSystem → FileSystem) (k : ℕ)
    → p ≢ null
    → q ≢ null
    → Fits (s.inode p)
    → (s.inode p).type_ ≢ 0
    → Keeps s p q between
    → Yields
        (λ _ v. Locked (s.inode p) q v)
        ((iupdate p >> (modify between >> ilock elsewhere (suc k) q)) s)
unfolding iupdate
ilock-iupdate s p q between elsewhere k np nq fits typed keeps = rw (==_ne p null np) (
    ilock-Locked (between t) q ip (s.fs.cache b) elsewhere k nq (keeps.lock_free t) unread fits
      typed stored)
  where
    ip : Inode
    ip = s.inode p

    b : ℕ
    b = iblock s ip.inum

    m : Memory
    m = store_dinode ip (dinode ip.inum) (s.fs.cache b)

    t : FileSystem
    t = record s {
      fs = record s.fs {
        cache = λ c. if c == b then m else s.fs.cache c;
        logged = b ∷ s.fs.logged;
      };
    }

    unread : IsUnread ip.inum ((between t).inode q)
    unread = keeps.unread t

    same : iblock (between t) ((between t).inode q).inum ≡ b
    same = cc (keeps.same_start t, unread.same_inum)

    stored : (between t).fs.cache (iblock (between t) ((between t).inode q).inum) ≡ m
    stored = ap (between t).fs.cache same ∙ keeps.same_block t ∙ rw (==_refl b) refl
