-- ===== src/Bytes/Fill.antt =====
-- memset fills, a byte or a word at a time.
use cs.Prelude.{
  ℕ, zero, suc, ◌+◌, ◌*◌, ◌/◌, ◌%◌, ◌≡◌, inl, inr, ◌&&◌, arith, ◌==◌, ltb, leb, if◌then◌else◌,
  Bool-cases,
}
use cs.Bytes.{Memory, poke, poke_word, stosb, stosl, memset}

abbrev pub filled : ℕ → ℕ → ℕ → Memory → Memory
filled n d c m a = if leb d a && ltb a (d + n) then c % 256 else m a

stosb-filled : (d c n : ℕ) (m : Memory) (a : ℕ) → stosb d c n m a ≡ filled n d c m a
unfolding stosb
stosb-filled d c zero m a = ground arith
stosb-filled d c (suc n) m a = ground (arith, stosb-filled (d + 1) c n (poke m d (c % 256)) a)

-- The word of four equal bytes.
abbrev word : ℕ → ℕ
word c = c % 256 * 16777216 + c % 256 * 65536 + c % 256 * 256 + c % 256

word_bytes :
    (c : ℕ)
    → (word c % 256 ≡ c % 256)
      × (word c / 256 % 256 ≡ c % 256)
      × (word c / 65536 % 256 ≡ c % 256)
      × (word c / 16777216 % 256 ≡ c % 256)
word_bytes c = (omega arith, omega arith, omega arith, omega arith)

poke_word-filled : (d c : ℕ) (m : Memory) (a : ℕ) → poke_word m d (word c) a ≡ filled 4 d c m a
poke_word-filled d c m a = let w = word_bytes c in rw (w.0, w.1, w.2, w.3) (ground arith)

stosl-filled : (d c n : ℕ) (m : Memory) (a : ℕ) → stosl d (word c) n m a ≡ filled (4 * n) d c m a
unfolding stosl
stosl-filled d c zero m a = ground arith
stosl-filled d c (suc n) m a =
    ground (arith, stosl-filled (d + 4) c n (poke_word m d (word c)) a, poke_word-filled d c m a)

-- After memset the n bytes from dst on are the low byte of c, by words or by bytes, and no other
-- byte has changed.
pub memset-filled :
    (dst c n : ℕ) (m : Memory) (a : ℕ)
    → memset dst c n m a ≡ (if leb dst a && ltb a (dst + n) then c % 256 else m a)
unfolding memset
memset-filled dst c n m a = elim (Bool-cases ((dst % 4 == 0) && (n % 4 == 0))) [
  | inl e ↦ rw e (ground (arith, stosl-filled dst c (n / 4) m a))
  | inr e ↦ rw e (stosb-filled dst c n m a)
]
