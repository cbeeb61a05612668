-- ===== src/Bio/Write.antt =====
-- bwrite brings the data of a buffer to the disk.
use cs.Prelude.{
  ℕ, ◌<◌, ◌≡◌, refl, ◌∙◌, ap, sym, subst, ◌≢◌, inl, inr, true, false, not, ◌&&◌, List, arith, ◌==◌,
  leb, ==_refl, Bool-cases,
}
use cs.Prelude.Run.{and_then, ◌>>◌, Yields, yields, Yields-mono}
use cs.Prelude.Finite.{has}
use cs.Bio.{panic_unless, write_buf, Buf, Bcache, set_at, iderw, bwrite}
use cs.Bio.Cached.{Cached}

abbrev clean_buf : Buf → Buf
clean_buf f = record f { valid = true; dirty = false }

-- Writing a buffer that is held keeps the invariant, since no other buffer is for its block.
Cached-write :
    (s t : Bcache) (xs : List ℕ) (b : ℕ)
    → Cached s xs
    → has b xs ≡ true
    → (s.buf b).busy ≡ true
    → (s.buf b).dev ≡ 1
    → (t.next ≡ s.next) × (t.prev ≡ s.prev)
    → t.buf b ≡ clean_buf (s.buf b)
    → ((u : ℕ) → b ≢ u → t.buf u ≡ s.buf u)
    → t.disk ≡ set_at s.disk (s.buf b).blockno (s.buf b).data_
    → Cached t xs
Cached-write s t xs b c i busy one (en, ep) here there disk =
    let dev : (u : ℕ) → (t.buf u).dev ≡ (s.buf u).dev = λ u. elim (Bool-cases (b == u)) [
      | inl k ↦
          let same : b ≡ u = ground arith in
          subst (λ z. (t.buf z).dev ≡ (s.buf z).dev) same (ap (λ (z : Buf). z.dev) here)
      | inr k ↦ ap (λ (z : Buf). z.dev) (there u (ground arith))
    ] in
    let no : (u : ℕ) → (t.buf u).blockno ≡ (s.buf u).blockno = λ u. elim (Bool-cases (b == u)) [
      | inl k ↦
          let same : b ≡ u = ground arith in
          subst (λ z. (t.buf z).blockno ≡ (s.buf z).blockno) same (ap (λ (z : Buf). z.blockno) here)
      | inr k ↦ ap (λ (z : Buf). z.blockno) (there u (ground arith))
    ] in
    record {
      chain = rw (en, ep) c.chain;
      distinct = c.distinct;
      members = c.members;
      unique = λ u v hu hv a d n.
          c.unique u v hu hv (λ z. a (dev u ∙ z)) (sym (dev u) ∙ d ∙ dev v) (sym (no u) ∙ n ∙ no v);
      pinned = λ u h dirty. elim (Bool-cases (b == u)) [
        | inl k ↦
            let same : b ≡ u = ground arith in
            subst (λ z. (t.buf z).valid ≡ true) same (ap (λ (z : Buf). z.valid) here)
        | inr k ↦
            let e = there u (ground arith) in
            ap (λ (z : Buf). z.valid) e ∙ c.pinned u h (sym (ap (λ (z : Buf). z.dirty) e) ∙ dirty)
      ];
      coherent = λ u h free valid clean on. elim (Bool-cases (b == u)) [
        | inl k ↦
            let same : b ≡ u = ground arith in
            let held : (t.buf u).busy ≡ true =
              subst (λ z. (t.buf z).busy ≡ true) same (ap (λ (z : Buf). z.busy) here ∙ busy) in
            absurd (ground (arith, held, free))
        | inr k ↦
            let ne : b ≢ u = ground arith in
            let e = there u ne in
            let on' : (s.buf u).dev ≡ 1 = sym (dev u) ∙ on in
            let apart : ((s.buf u).blockno == (s.buf b).blockno) ≡ false =
              elim (Bool-cases ((s.buf u).blockno == (s.buf b).blockno)) [
                | inl z ↦
                    let two : u ≡ b =
                      c.unique u b h i (λ z. absurd (omega arith)) (on' ∙ sym one) (ground arith) in
                    absurd (ne (sym two))
                | inr z ↦ z
              ] in
            ap (λ (z : Buf). z.data_) e
            ∙ c.coherent u h (sym (ap (λ (z : Buf). z.busy) e) ∙ free)
                (sym (ap (λ (z : Buf). z.valid) e) ∙ valid)
                (sym (ap (λ (z : Buf). z.dirty) e) ∙ clean) on'
            ∙ (rw (disk, no u, apart) refl)
      ];
    }

iderw-write :
    (s : Bcache) (b : ℕ)
    → (s.buf b).busy ≡ true
    → (s.buf b).dirty ≡ true
    → (s.buf b).dev ≡ 1
    → (s.buf b).blockno < s.disksize
    → Yields
        (λ _ t.
          (t.buf b ≡ clean_buf (s.buf b))
          × ((u : ℕ) → b ≢ u → t.buf u ≡ s.buf u)
          × (t.disk ≡ set_at s.disk (s.buf b).blockno (s.buf b).data_)
          × (t ≡ record s { buf = t.buf; disk = t.disk }))
        (iderw b s)
unfolding iderw
iderw-write s b busy dirty one lt =
    let inside : leb s.disksize (s.buf b).blockno ≡ false = ground arith in
    let on : ((s.buf b).dev == 1) ≡ true = ground arith in
    let pass : not ((s.buf b).valid && false) ≡ true = ground arith in
    rw (busy, dirty, pass, on, inside)
      (yields (
        rw (==_refl b, busy) refl,
        λ u ne. let off : (u == b) ≡ false = ground arith in rw off refl,
        rw (==_refl b) refl,
        refl,
      ))

-- bwrite of a buffer of disk 1 that the caller holds: the block of the disk has the buffer's data, no
-- other block and no other buffer changes, the buffer is valid and not dirty any more, and the cache
-- stays coherent with the disk.
pub bwrite-Cached :
    (s : Bcache) (xs : List ℕ) (b : ℕ)
    → Cached s xs
    → has b xs ≡ true
    → (s.buf b).busy ≡ true
    → (s.buf b).dev ≡ 1
    → (s.buf b).blockno < s.disksize
    → Yields
        (λ _ t.
          Cached t xs
          × (t.buf b ≡ record (s.buf b) { valid = true; dirty = false })
          × ((u : ℕ) → b ≢ u → t.buf u ≡ s.buf u)
          × (t.disk ≡ set_at s.disk (s.buf b).blockno (s.buf b).data_))
        (bwrite b s)
unfolding bwrite
bwrite-Cached s xs b c i busy one lt =
    let s1 : Bcache = record s { buf = set_at s.buf b (record (s.buf b) { dirty = true }) } in
    let here : s1.buf b ≡ record (s.buf b) { dirty = true } = rw (==_refl b) refl in
    let start : iderw b s1 ≡ bwrite b s =
      ap
        (λ z.
          and_then (panic_unless z "bwrite" s)
            (λ _. write_buf b (λ f. record f { dirty = true }) >> iderw b))
        (sym busy) in
    let run =
      iderw-write s1 b (ap (λ (z : Buf). z.busy) here ∙ busy) (ap (λ (z : Buf). z.dirty) here)
        (ap (λ (z : Buf). z.dev) here ∙ one)
        (subst (λ z. z < s.disksize) (sym (ap (λ (z : Buf). z.blockno) here)) lt) in
    subst (Yields _) start (
      Yields-mono run λ _ t (e, others, disk, same).
        let now : t.buf b ≡ clean_buf (s.buf b) = e ∙ ap clean_buf here in
        let there : (u : ℕ) → b ≢ u → t.buf u ≡ s.buf u =
          λ u ne. let off : (u == b) ≡ false = ground arith in others u ne ∙ (rw off refl) in
        let written : t.disk ≡ set_at s.disk (s.buf b).blockno (s.buf b).data_ =
          disk ∙ ap (λ (z : Buf). set_at s.disk z.blockno z.data_) here in
        (
          Cached-write s t xs b c i busy one
              (ap (λ (z : Bcache). z.next) same, ap (λ (z : Bcache). z.prev) same) now there
              written,
          now,
          there,
          written,
        ))
