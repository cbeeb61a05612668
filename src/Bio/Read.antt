-- ===== src/Bio/Read.antt =====
-- bread and bwrite move the data of a block between its buffer and the disk.
use cs.Prelude.{ℕ, ◌≡◌, ◌≢◌, ◌⊎◌, true, false, List}
use cs.Prelude.Finite.{has}
use cs.Bytes.{Memory}
use cs.Proc.Table.Lock.{taken, given_back}
use cs.Bio.{Buf, Bcache, is_block}
use cs.Bio.Cached.{Cached}

-- Buffer `b` has the data `v`, which is also on the disk.
abbrev pub loaded : Buf → Memory → Buf
loaded f v = record f { busy = true; valid = true; dirty = false; data_ = v }

-- The caller holds buffer `b` with the data of the block: what the buffer had before if it is dirty,
-- and else what the disk has.
pub record Loaded (s t : Bcache) (xs : List ℕ) (blockno b : ℕ) : Type 0 where
  pub cached : Cached t xs
  pub on_list : has b xs ≡ true
  pub busy : (t.buf b).busy ≡ true
  pub valid : (t.buf b).valid ≡ true
  pub block : is_block 1 blockno (t.buf b) ≡ true
  pub content :
      (((s.buf b).dirty ≡ true) × (t.buf b ≡ record (s.buf b) { busy = true }))
      ⊎ ((t.buf b).data_ ≡ s.disk blockno)
  pub others : (u : ℕ) → b ≢ u → t.buf u ≡ s.buf u
  pub disk : t.disk ≡ s.disk
  pub held : t.held ≡ given_back (taken s.held)
