-- ===== src/Inode/Lock/Copies.antt =====
-- The bytes of a struct dinode: what store_dinode writes, load_dinode reads.
use cs.Prelude.{
  ℕ, zero, suc, ◌+◌, ◌*◌, ◌^◌, ◌≤◌, ◌<◌, ◌≡◌, refl, ◌⊎◌, inl, inr, ◌∙◌, arith, ◌==◌, ==_ne,
  Bool-cases, lt→ltb,
}
use cs.Bytes.{Memory, poke_word, word_at}
use cs.Bytes.Words.{word_at-poke_word}
use cs.Inode.{Inode}
use cs.Inode.Dinode.{half_at, poke_half, store_addrs, store_dinode, ndirect}
use cs.Inode.Lock.{load_dinode}

store_addrs-below :
    (k i : ℕ) (f : ℕ → ℕ) (a : ℕ) (m : Memory) (c : ℕ)
    → c < a + 4 * i
    → store_addrs k i f a m c ≡ m c
unfolding store_addrs
store_addrs-below zero i f a m c h = refl
store_addrs-below (suc k) i f a m c h =
    store_addrs-below k (i + 1) f a (poke_word m (a + 4 * i) (f i)) c (omega arith)
    ∙ rw
        (
          ==_ne c (a + 4 * i) (omega arith),
          ==_ne c (a + 4 * i + 1) (omega arith),
          ==_ne c (a + 4 * i + 2) (omega arith),
          ==_ne c (a + 4 * i + 3) (omega arith),
        )
        refl

half_at-poke_half : (m : Memory) (a w : ℕ) → w < 2 ^ 16 → half_at (poke_half m a w) a ≡ w
half_at-poke_half m a w h = ground arith

half_at-poke_ne :
    (m : Memory) (a b w : ℕ) → (a + 2 ≤ b) ⊎ (b + 2 ≤ a) → half_at (poke_half m a w) b ≡ half_at m b
half_at-poke_ne m a b w h = ground arith

half_at-poke_word_ne :
    (m : Memory) (a b w : ℕ) → (b + 2 ≤ a) → half_at (poke_word m a w) b ≡ half_at m b
half_at-poke_word_ne m a b w h = ground arith

word_at-below :
    (m m' : Memory) (a : ℕ) → ((c : ℕ) → c < a + 4 → m c ≡ m' c) → word_at m a ≡ word_at m' a
unfolding word_at
word_at-below m m' a h =
    rw
      (h a (omega arith), h (a + 1) (omega arith), h (a + 2) (omega arith), h (a + 3) (omega arith))
      refl

half_at-below :
    (m m' : Memory) (a : ℕ) → ((c : ℕ) → c < a + 2 → m c ≡ m' c) → half_at m a ≡ half_at m' a
half_at-below m m' a h = rw (h a (omega arith), h (a + 1) (omega arith)) refl

store_addrs-word :
    (k i : ℕ) (f : ℕ → ℕ) (a : ℕ) (m : Memory) (j : ℕ)
    → ((x : ℕ) → f x < 2 ^ 32)
    → i ≤ j
    → j < i + k
    → word_at (store_addrs k i f a m) (a + 4 * j) ≡ f j
unfolding store_addrs
store_addrs-word zero i f a m j small lo hi = absurd (omega arith)
store_addrs-word (suc k) i f a m j small lo hi = elim (Bool-cases (j == i)) [
  | inl h ↦
      let e : j ≡ i = ground arith in
      rw e (
        word_at-below _ m' (a + 4 * i) (λ c b. store_addrs-below k (i + 1) f a m' c (omega arith))
        ∙ word_at-poke_word m (a + 4 * i) (f i) (small i))
  | inr h ↦ store_addrs-word k (i + 1) f a m' j small (ground arith) (omega arith)
]
  where
    m' : Memory
    m' = poke_word m (a + 4 * i) (f i)

-- The fields that are on the disk fit there.
pub record Fits (ip : Inode) : Type 0 where
  pub type_fits : ip.type_ < 2 ^ 16
  pub major_fits : ip.major < 2 ^ 16
  pub minor_fits : ip.minor < 2 ^ 16
  pub nlink_fits : ip.nlink < 2 ^ 16
  pub size_fits : ip.size < 2 ^ 32
  pub addrs_fit : (i : ℕ) → ip.addrs i < 2 ^ 32

-- `n` has what is on the disk of `ip`.
pub record Copies (ip n : Inode) : Type 0 where
  pub type_copied : n.type_ ≡ ip.type_
  pub major_copied : n.major ≡ ip.major
  pub minor_copied : n.minor ≡ ip.minor
  pub nlink_copied : n.nlink ≡ ip.nlink
  pub size_copied : n.size ≡ ip.size
  pub addrs_copied : (i : ℕ) → i < ndirect + 1 → n.addrs i ≡ ip.addrs i

pub load_dinode-store :
    (ip n : Inode) (a : ℕ) (m : Memory)
    → Fits ip
    → Copies ip (load_dinode (store_dinode ip a m) a n)
unfolding load_dinode store_dinode
load_dinode-store ip n a m fits = record {
  type_copied =
      low a (omega arith)
      ∙ half_at-poke_word_ne links (a + 8) a ip.size (omega arith)
      ∙ half_at-poke_ne third (a + 6) a ip.nlink (inr (omega arith))
      ∙ half_at-poke_ne second (a + 4) a ip.minor (inr (omega arith))
      ∙ half_at-poke_ne first (a + 2) a ip.major (inr (omega arith))
      ∙ half_at-poke_half m a ip.type_ fits.type_fits;
  major_copied =
      low (a + 2) (omega arith)
      ∙ half_at-poke_word_ne links (a + 8) (a + 2) ip.size (omega arith)
      ∙ half_at-poke_ne third (a + 6) (a + 2) ip.nlink (inr (omega arith))
      ∙ half_at-poke_ne second (a + 4) (a + 2) ip.minor (inr (omega arith))
      ∙ half_at-poke_half first (a + 2) ip.major fits.major_fits;
  minor_copied =
      low (a + 4) (omega arith)
      ∙ half_at-poke_word_ne links (a + 8) (a + 4) ip.size (omega arith)
      ∙ half_at-poke_ne third (a + 6) (a + 4) ip.nlink (inr (omega arith))
      ∙ half_at-poke_half second (a + 4) ip.minor fits.minor_fits;
  nlink_copied =
      low (a + 6) (omega arith)
      ∙ half_at-poke_word_ne links (a + 8) (a + 6) ip.size (omega arith)
      ∙ half_at-poke_half third (a + 6) ip.nlink fits.nlink_fits;
  size_copied =
      word_at-below _ sized (a + 8) (λ c h. unchanged c (omega arith))
      ∙ word_at-poke_word links (a + 8) ip.size fits.size_fits;
  addrs_copied = λ i h.
      rw (lt→ltb i (ndirect + 1) h)
        (store_addrs-word (ndirect + 1) 0 ip.addrs (a + 12) sized i fits.addrs_fit (omega arith) h);
}
  where
    first : Memory
    first = poke_half m a ip.type_

    second : Memory
    second = poke_half first (a + 2) ip.major

    third : Memory
    third = poke_half second (a + 4) ip.minor

    links : Memory
    links = poke_half third (a + 6) ip.nlink

    sized : Memory
    sized = poke_word links (a + 8) ip.size

    unchanged :
        (c : ℕ) → c < a + 12 → store_addrs (ndirect + 1) 0 ip.addrs (a + 12) sized c ≡ sized c
    unchanged c h = store_addrs-below (ndirect + 1) 0 ip.addrs (a + 12) sized c (omega arith)

    low :
        (c : ℕ)
        → c + 2 < a + 12
        → half_at (store_addrs (ndirect + 1) 0 ip.addrs (a + 12) sized) c ≡ half_at sized c
    low c h = half_at-below _ sized c (λ x l. unchanged x (omega arith))
