-- ===== src/Fs/Tests.antt =====
-- The theorems about the bitmap on a disk of ten blocks, of which block 1 has the bitmap.
use cs.Prelude.{ℕ, ◌<◌, ◌≡◌, refl, ap, false, [], arith, ◌==◌, if◌then◌else◌}
use cs.Prelude.Run.{Yields}
use cs.Fs.{Fs, bblock, balloc}
use cs.Fs.Bitmap.{Allocated, balloc-FirstFree}
use cs.Fs.Bitmap.Bits.{is_free, AllBytes}

-- Blocks 0 and 1 are in use.
abbrev ten : Fs
ten = record {
  cache = λ c a. if c == 1 then (if a == 0 then 3 else 0) else 0;
  size = 10;
  bmapstart = 1;
  logged = [];
}

ten-AllBytes : AllBytes ten
ten-AllBytes c a = ground arith

own_blocks : (c : ℕ) → c < 10 → is_free ten (bblock ten c) ≡ false
own_blocks c lt = let same : bblock ten c ≡ 1 = omega arith in ap (is_free ten) same

balloc-FirstFree_example : Yields (Allocated ten) (balloc ten)
balloc-FirstFree_example = balloc-FirstFree ten 5 ten-AllBytes (omega arith) refl own_blocks
