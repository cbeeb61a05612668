-- ===== src/Bio/Get.antt =====
-- bget: the buffer that caches the block, or the one of the clean ones that has not been used longest.
use cs.Prelude.{
  ℕ, suc, ◌+◌, ◌≡◌, refl, ◌∙◌, sym, ◌≢◌, ◌⊎◌, inl, inr, true, false, List, arith, ◌==◌, ==_refl,
  ==_ne,
}
use cs.Prelude.Run.{Yields, yields}
use cs.Prelude.Finite.{has}
use cs.Proc.Table.Lock.{IsFree, taken, given_back, taken-IsHeld}
use cs.Bio.{Buf, Bcache, nbuf, head, set_at, is_block, is_clean, recycle, get_loop, bget}
use cs.Bio.Ring.Find.{
  backwards, Chain-Links, Chain-Links_back, has-backwards, length-backwards, first, find-first,
  first-Found,
}
use cs.Bio.Cached.{
  Cached, Cached-no_head, Cached-length, lock_cache-ok, unlock_cache-ok, Cached-set_busy,
}

-- `b` is now held by the caller and is for the block: it was so before, or it is a clean buffer that
-- has been given to the block and is not valid.
pub record Got (s t : Bcache) (xs : List ℕ) (dev blockno b : ℕ) : Type 0 where
  pub cached : Cached t xs
  pub on_list : has b xs ≡ true
  pub busy : (t.buf b).busy ≡ true
  pub block : is_block dev blockno (t.buf b) ≡ true
  pub others : (u : ℕ) → b ≢ u → t.buf u ≡ s.buf u
  pub origin :
      (((s.buf b).busy ≡ false) × (t.buf b ≡ record (s.buf b) { busy = true }))
      ⊎ ((is_clean (s.buf b) ≡ true)
          × ((t.buf b).valid ≡ false)
          × ((t.buf b).dirty ≡ false)
          × ((u : ℕ) → has u xs ≡ true → is_block dev blockno (s.buf u) ≡ false))
  pub disk : t.disk ≡ s.disk
  pub disksize : t.disksize ≡ s.disksize
  pub held : t.held ≡ given_back (taken s.held)

module _ (s : Bcache) (xs : List ℕ) (dev blockno : ℕ) (c : Cached s xs) where
  -- The state with buffer `b` changed and the lock given back.
  abbrev now : ℕ → Buf → Bcache
  now b f = record s { buf = set_at s.buf b f; held = given_back (taken s.held) }

  abbrev locked : Bcache
  locked = record s { held = taken s.held }

  -- A cached block.
  Got-cached :
      (b : ℕ)
      → has b xs ≡ true
      → is_block dev blockno (s.buf b) ≡ true
      → (s.buf b).busy ≡ false
      → Got s (now b (record (s.buf b) { busy = true })) xs dev blockno b
  Got-cached b i block free = record {
    cached =
        Cached-set_busy s (now b (record (s.buf b) { busy = true })) xs b
          (record (s.buf b) { busy = true }) c (refl, refl, refl) refl refl (c.pinned b i)
          (λ u h. c.unique b u i h);
    on_list = i;
    busy = rw (==_refl b) refl;
    block = rw (==_refl b) block;
    others = λ u ne. let off : (u == b) ≡ false = ground arith in rw off refl;
    origin = inl (free, rw (==_refl b) refl);
    disk = refl;
    disksize = refl;
    held = refl;
  }

  abbrev fresh : ℕ → Buf
  fresh b = record (s.buf b) {
    dev = dev;
    blockno = blockno;
    busy = true;
    valid = false;
    dirty = false;
  }

  -- A block that no buffer has.
  Got-recycled :
      (b : ℕ)
      → has b xs ≡ true
      → is_clean (s.buf b) ≡ true
      → ((u : ℕ) → has u xs ≡ true → is_block dev blockno (s.buf u) ≡ false)
      → Got s (now b (fresh b)) xs dev blockno b
  Got-recycled b i clean none = record {
    cached =
        Cached-set_busy s (now b (fresh b)) xs b (fresh b) c (refl, refl, refl) refl refl
          (λ z. absurd (ground (arith, z))) (λ u h a d n. absurd (ground (arith, none u h, d, n)));
    on_list = i;
    busy = rw (==_refl b) refl;
    block = rw (==_refl b) (ground arith);
    others = λ u ne. let off : (u == b) ≡ false = ground arith in rw off refl;
    origin = inr (clean, rw (==_refl b) refl, rw (==_refl b) refl, none);
    disk = refl;
    disksize = refl;
    held = refl;
  }

  recycle-Got :
      ((u : ℕ) → has u xs ≡ true → is_block dev blockno (s.buf u) ≡ false)
      → (free : ℕ) → has free xs ≡ true
      → is_clean (s.buf free) ≡ true
      → Yields (λ b t. Got s t xs dev blockno b) (recycle dev blockno locked)
  unfolding recycle
  recycle-Got none free i clean =
      let nh : has head (backwards xs) ≡ false = has-backwards head xs ∙ Cached-no_head s xs c in
      let b = first s.buf is_clean (backwards xs) in
      rw
        (find-first is_clean (λ s. s.prev) (nbuf + 1) head (backwards xs) locked
          (Chain-Links_back s.next s.prev head xs head c.chain) nh
          (omega (arith, length-backwards xs, Cached-length s xs c)))
        (elim (first-Found s.buf is_clean (backwards xs) nh) [
          | inl (e, all) ↦ absurd (ground (arith, all free (has-backwards free xs ∙ i), clean))
          | inr (ne, on, t) ↦
              rw
                (
                  ==_ne b head ne,
                  unlock_cache-ok (record locked { buf = set_at s.buf b (fresh b) })
                      (taken-IsHeld s.held),
                )
                (yields (Got-recycled b (sym (has-backwards b xs) ∙ on) t none))
        ])

  -- bget of a block whose buffer, if it has one, is not in use, with at least one buffer that is neither
  -- busy nor dirty: it returns a buffer for the block, which the caller now holds.
  pub bget-Got :
      (elsewhere : ℕ → Bcache → Bcache) (k : ℕ)
      → IsFree s.held
      → ((u : ℕ) → has u xs ≡ true → is_block dev blockno (s.buf u) ≡ true → (s.buf u).busy ≡ false)
      → (free : ℕ) → has free xs ≡ true
      → is_clean (s.buf free) ≡ true
      → Yields (λ b t. Got s t xs dev blockno b) (bget elsewhere (suc k) dev blockno s)
  unfolding bget get_loop
  bget-Got elsewhere k lock idle free i clean =
      let nh = Cached-no_head s xs c in
      let test = is_block dev blockno in
      let b = first s.buf test xs in
      rw
        (
          lock_cache-ok s lock,
          find-first test (λ s. s.next) (nbuf + 1) head xs locked
              (Chain-Links s.next s.prev head xs head c.chain) nh (Cached-length s xs c),
        )
        (elim (first-Found s.buf test xs nh) [
          | inl (e, none) ↦ rw e (recycle-Got none free i clean)
          | inr (ne, on, t) ↦
              rw
                (
                  ==_ne b head ne,
                  idle b on t,
                  unlock_cache-ok
                      (record locked { buf = set_at s.buf b (record (s.buf b) { busy = true }) })
                      (taken-IsHeld s.held),
                )
                (yields (Got-cached b on t (idle b on t)))
        ])
