-- ===== src/Bio/Tests.antt =====
-- The theorems about bio.c on a cache of one buffer, over a disk of ten blocks.
use cs.Prelude.{ℕ, ◌≡◌, ◌≢◌, refl, true, false, [], ◌∷◌, arith, ◌==◌, if◌then◌else◌, Bool}
use cs.Prelude.Run.{Yields}
use cs.Prelude.Finite.{erase}
use cs.Proc.Table.Lock.{taken, given_back}
use cs.Bio.{Bcache, brelse}
use cs.Bio.Cached.{Cached}
use cs.Bio.Release.{brelse-front}

-- Buffer 1 on the list, for block 5 of disk 1, held or not; the disk's blocks are all sevens.
abbrev one : Bool → Bcache
one held = record {
  held = record { cpu = record { interrupts = true; ncli = 0; intena = true }; holding = false };
  next = λ u. if u == 0 then 1 else 0;
  prev = λ u. if u == 0 then 1 else 0;
  buf = λ u. record {
    busy = held;
    valid = held;
    dirty = false;
    dev = 1;
    blockno = 5;
    data_ = λ a. 7;
  };
  disk = λ b a. 7;
  disksize = 10;
  woken = [];
  sleeps = 0;
}

one-Cached : (held : Bool) → Cached (one held) (1 ∷ [])
one-Cached held = record {
  chain = (refl, refl, (refl, refl));
  distinct = (refl, tt);
  members = λ u h. ground (arith, h);
  unique = λ u v hu hv a d n. ground (arith, hu, hv);
  pinned = λ u h dirty. absurd (ground (arith, dirty));
  coherent = λ u h a b c d. refl;
}

brelse-front_example :
    Yields
      (λ _ t.
        Cached t (1 ∷ erase 1 (1 ∷ []))
        × (t.buf 1 ≡ record ((one true).buf 1) { busy = false })
        × ((u : ℕ) → 1 ≢ u → t.buf u ≡ (one true).buf u)
        × (t.woken ≡ 1 ∷ [])
        × (t.disk ≡ (one true).disk)
        × (t.held ≡ given_back (taken (one true).held)))
      (brelse 1 (one true))
brelse-front_example =
    brelse-front (one true) (1 ∷ []) 1 (one-Cached true) refl refl
      (record { not_held = refl; no_cli = refl }) (λ a b c. refl)
