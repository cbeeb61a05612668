-- ===== src/Inode/Blocks/Steady.antt =====
-- bmap finds again what it has allocated.
use cs.Prelude.{
  ℕ, sym, if◌then◌else◌, ◌+◌, ◌-◌, ◌*◌, ◌^◌, ◌<◌, ◌≡◌, refl, ◌∙◌, ap, subst, ◌⊎◌, inl, inr, ◌≢◌,
  true, false, arith, ◌==◌, ltb, Bool-cases, lt→ltb, ==_ne, ==_refl,
}
use cs.Prelude.Run.{Run, Cmd, and_then, ◌>>=◌, Yields, yields, Yields-mono, panic, ok}
use cs.Bytes.{word_at}
use cs.Bytes.Words.{word_at-poke_word}
use cs.Proc.Table.{Ptr, null}
use cs.Fs.{Fs, balloc}
use cs.Fs.Bitmap.Bits.{is_free}
use cs.Fs.Cases.{Full, FewFree, IsSound, balloc-cases, balloc-again}
use cs.Inode.{Inode, FileSystem, on_disk, lifted}
use cs.Inode.Dinode.{ndirect}
use cs.Inode.Blocks.{nindirect, slot, indirect_entry, bmap}

-- A command that finds a block: it panics for want of blocks, with `W`, or its result satisfies `P`.
abbrev pub Finds : Type 0 → (ℕ → FileSystem → Type 0) → Run FileSystem ℕ → Type 0
Finds W P r = ((r ≡ panic "balloc: out of blocks") × W) ⊎ Yields P r

-- balloc as a step of a longer command.
on_disk-balloc :
    (s : FileSystem) {W : Type 0} (P : ℕ → Fs → Type 0) {Q : ℕ → FileSystem → Type 0}
    (k : ℕ → Cmd FileSystem ℕ)
    → ((balloc s.fs ≡ panic "balloc: out of blocks") × Full s.fs) ⊎ Yields P (balloc s.fs)
    → (Full s.fs → W)
    → ((b : ℕ) (d : Fs) → P b d → Yields Q (k b (record s { fs = d })))
    → Finds W Q ((on_disk balloc >>= k) s)
on_disk-balloc s {W} P {Q} k cases want after = elim cases [
  | inl (e, full) ↦ rw e (inl (refl, want full))
  | inr h ↦ inr (go h)
]
  where
    go : {r : Run Fs ℕ} → Yields P r → Yields Q (and_then (lifted s r) k)
    go (yields {a} {s = d} p) = after a d p

pub slot-has :
    (s : FileSystem) (p : Ptr) (i : ℕ)
    → p ≢ null
    → 0 < (s.inode p).addrs i
    → slot p i s ≡ ok ((s.inode p).addrs i) s
unfolding slot
slot-has s p i np pos = rw (==_ne p null np, ==_ne ((s.inode p).addrs i) 0 (omega arith)) refl

pub indirect_entry-has :
    (s : FileSystem) (b bn : ℕ)
    → 0 < word_at (s.fs.cache b) (4 * bn)
    → indirect_entry b bn s ≡ ok (word_at (s.fs.cache b) (4 * bn)) s
unfolding indirect_entry
indirect_entry-has s b bn pos = rw (==_ne (word_at (s.fs.cache b) (4 * bn)) 0 (omega arith)) refl

-- `a` stands in the slot, and was there before, or is the only block that is newly in use.
abbrev Slotted : FileSystem → Ptr → (i a : ℕ) → FileSystem → Type 0
Slotted s p i a t =
    (0 < a)
    × ((t.inode p).addrs i ≡ a)
    × (is_free t.fs 0 ≡ false)
    × (t.fs.size ≡ s.fs.size)
    × ((t ≡ s)
        ⊎ (((s.inode p).addrs i ≡ 0)
            × ((c : ℕ)
                → c < s.fs.size
                → is_free t.fs c ≡ (if c == a then false else is_free s.fs c))))

slot-Finds :
    (s : FileSystem) (p : Ptr) (i : ℕ)
    → p ≢ null
    → IsSound s.fs
    → Finds (((s.inode p).addrs i ≡ 0) × Full s.fs) (Slotted s p i) (slot p i s)
unfolding slot
slot-Finds s p i np sound = elim (Bool-cases ((s.inode p).addrs i == 0)) [
  | inr has ↦
      let pos : 0 < (s.inode p).addrs i = ground arith in
      rw (==_ne p null np, has) (inr (yields (pos, refl, sound.zero_used, refl, inl refl)))
  | inl none ↦
      let empty : (s.inode p).addrs i ≡ 0 = ground arith in
      rw (==_ne p null np, none)
        (on_disk-balloc s _ _ (balloc-cases s.fs sound) (λ full. (empty, full))
          λ b d (lo, hi, size, used, bits).
            rw (==_ne p null np)
              (yields (lo, rw (==_refl p, ==_refl i) refl, used, size, inr (empty, bits))))
]

indirect_entry-Finds :
    (s : FileSystem) (b bn : ℕ)
    → is_free s.fs 0 ≡ false
    → s.fs.size < 2 ^ 32
    → Finds
        ((word_at (s.fs.cache b) (4 * bn) ≡ 0) × Full s.fs)
        (λ a t. (0 < a) × (word_at (t.fs.cache b) (4 * bn) ≡ a) × (t.inode ≡ s.inode))
        (indirect_entry b bn s)
unfolding indirect_entry
indirect_entry-Finds s b bn used size = elim (Bool-cases (word_at (s.fs.cache b) (4 * bn) == 0)) [
  | inr has ↦
      let pos : 0 < word_at (s.fs.cache b) (4 * bn) = ground arith in
      rw has (inr (yields (pos, refl, refl)))
  | inl none ↦
      let empty : word_at (s.fs.cache b) (4 * bn) ≡ 0 = ground arith in
      rw none (
        on_disk-balloc s _ _ (balloc-again s.fs used) (λ full. (empty, full))
          λ a d (lo, hi).
            yields
              (lo, rw (==_refl b) (word_at-poke_word (d.cache b) (4 * bn) a (omega arith)), refl))
]

Finds-bind :
    {V W : Type 0} {P Q : ℕ → FileSystem → Type 0} {r : Run FileSystem ℕ} (k : ℕ → Cmd FileSystem ℕ)
    → Finds W P r
    → (W → V)
    → ((a : ℕ) (t : FileSystem) → P a t → Finds V Q (k a t))
    → Finds V Q (and_then r k)
Finds-bind k (inl (e, want)) wants after = rw e (inl (refl, wants want))
Finds-bind k (inr (yields p)) wants after = after _ _ p

Finds-mono :
    {V W : Type 0} {P Q : ℕ → FileSystem → Type 0} {r : Run FileSystem ℕ}
    → Finds W P r
    → (W → V)
    → ((a : ℕ) (t : FileSystem) → P a t → Q a t)
    → Finds V Q r
Finds-mono (inl (e, want)) wants weaken = inl (e, wants want)
Finds-mono (inr h) wants weaken = inr (Yields-mono h weaken)

-- What bmap wants blocks for where it panics: the block itself, with none free; or the block of addresses
-- and the block itself, with at most one free.
abbrev pub WantsDirect : FileSystem → Ptr → (bn : ℕ) → Type 0
WantsDirect s p bn = ((s.inode p).addrs bn ≡ 0) × Full s.fs

abbrev pub WantsIndirect : FileSystem → Ptr → (bn : ℕ) → Type 0
WantsIndirect s p bn =
    (((s.inode p).addrs ndirect ≡ 0) × FewFree s.fs)
    ⊎ ((word_at (s.fs.cache ((s.inode p).addrs ndirect)) (4 * (bn - ndirect)) ≡ 0) × Full s.fs)

-- The want of the second block, in the terms of the state before the first.
wants_second :
    (s t : FileSystem) (p : Ptr) (bn b : ℕ)
    → Slotted s p ndirect b t
    → (word_at (t.fs.cache b) (4 * (bn - ndirect)) ≡ 0) × Full t.fs
    → WantsIndirect s p bn
wants_second s t p bn b (lo, e, used, size, inl same) (empty, full) = inr (
  ap (λ (z : FileSystem). word_at (z.fs.cache ((z.inode p).addrs ndirect)) (4 * (bn - ndirect)))
        (sym same)
      ∙ ap (λ z. word_at (t.fs.cache z) (4 * (bn - ndirect))) e
      ∙ empty,
  subst (λ (z : FileSystem). Full z.fs) same full,
)
wants_second s t p bn b (lo, e, used, size, inr (none, bits)) (empty, full) = inl (
  none,
  (
    b,
    λ c lt ne.
        let other : (c == b) ≡ false = ==_ne c b (λ h. ne (sym h)) in
        sym (bits c lt ∙ rw other refl) ∙ full c (omega (arith, size, lt)),
  ),
)

direct-Finds :
    (s : FileSystem) (p : Ptr) (bn : ℕ)
    → p ≢ null
    → IsSound s.fs
    → bn < ndirect
    → Finds (WantsDirect s p bn) (λ a t. (0 < a) × (bmap p bn t ≡ ok a t)) (bmap p bn s)
unfolding bmap
direct-Finds s p bn np sound lt = rw (lt→ltb bn ndirect lt) (
    Finds-mono (slot-Finds s p bn np sound) (λ w. w)
      λ a t (lo, e, _, _, _).
        (lo, subst (λ z. slot p bn t ≡ ok z t) e (slot-has t p bn np (omega (arith, lo, e)))))

indirect-Finds :
    (s : FileSystem) (p : Ptr) (bn : ℕ)
    → p ≢ null
    → IsSound s.fs
    → ltb bn ndirect ≡ false
    → bn < ndirect + nindirect
    → Finds (WantsIndirect s p bn) (λ a t. (0 < a) × (bmap p bn t ≡ ok a t)) (bmap p bn s)
unfolding bmap
indirect-Finds s p bn np sound far lt =
    let inside : ltb (bn - ndirect) nindirect ≡ true = ground arith in
    rw (far, inside)
      (Finds-bind (λ b. indirect_entry b (bn - ndirect)) (slot-Finds s p ndirect np sound)
        (λ (none, full). inl (none, (0, λ c lt ne. full c lt))) λ b t slotted. again b t slotted)
  where
    again :
        (b : ℕ) (t : FileSystem)
        → Slotted s p ndirect b t
        → Finds
            (WantsIndirect s p bn)
            (λ a u.
              (0 < a) × ((slot p ndirect >>= λ b. indirect_entry b (bn - ndirect)) u ≡ ok a u))
            (indirect_entry b (bn - ndirect) t)
    again b t (lo, e, used, size, new) =
        Finds-mono
          (indirect_entry-Finds t b (bn - ndirect) used (omega (arith, size, sound.size_fits)))
          (wants_second s t p bn b (lo, e, used, size, new))
          λ a u (lo', e', same).
            let here : (u.inode p).addrs ndirect ≡ b =
              ap (λ (f : Ptr → Inode). (f p).addrs ndirect) same ∙ e in
            let first : slot p ndirect u ≡ ok b u =
              subst (λ z. slot p ndirect u ≡ ok z u) here
                (slot-has u p ndirect np (omega (arith, lo, here))) in
            let second : indirect_entry b (bn - ndirect) u ≡ ok a u =
              subst (λ z. indirect_entry b (bn - ndirect) u ≡ ok z u) e'
                (indirect_entry-has u b (bn - ndirect) (omega (arith, lo', e'))) in
            (lo', ap (λ r. and_then r (λ b. indirect_entry b (bn - ndirect))) first ∙ second)

-- bmap of a block number that a file can have, with a bitmap in order, returns a block other than 0 and
-- from then on the same without any change; or it panics for want of a free block. Then the file has no
-- such block, and no block is free; or it has no block of addresses either, and at most one block is free.
pub bmap-bmap :
    (s : FileSystem) (p : Ptr) (bn : ℕ)
    → p ≢ null
    → IsSound s.fs
    → bn < ndirect + nindirect
    → ((bmap p bn s ≡ panic "balloc: out of blocks")
        × (if ltb bn ndirect then WantsDirect s p bn else WantsIndirect s p bn))
      ⊎ Yields (λ a t. (0 < a) × (bmap p bn t ≡ ok a t)) (bmap p bn s)
bmap-bmap s p bn np sound lt = elim (Bool-cases (ltb bn ndirect)) [
  | inl near ↦ rw near (direct-Finds s p bn np sound (ground arith))
  | inr far ↦ rw far (indirect-Finds s p bn np sound far lt)
]
