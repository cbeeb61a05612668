-- ===== src/Bio/Release.antt =====
-- brelse puts a buffer in front of the list.
use cs.Prelude.{
  ℕ, ◌≡◌, refl, ◌∙◌, ap, sym, subst, ◌≢◌, inl, inr, true, false, List, ◌∷◌, arith, ◌==◌, ==_refl,
  Bool-cases,
}
use cs.Prelude.Run.{ok, Yields, yields}
use cs.Prelude.Finite.{has, erase, Distinct-erase, has-erase_self, has-erase_imp}
use cs.Proc.Table.Lock.{IsFree, taken, given_back, taken-IsHeld}
use cs.Bio.{Buf, Bcache, head, set_at, link_front, brelse}
use cs.Bio.Ring.{Chain, Chain-unlink, Chain-front}
use cs.Bio.Cached.{Cached, Cached-no_head, lock_cache-ok, unlock_cache-ok}

-- The links with `b` taken out, and then put in front.
abbrev next_out : Bcache → ℕ → ℕ → ℕ
next_out s b = set_at s.next (s.prev b) (s.next b)

abbrev prev_out : Bcache → ℕ → ℕ → ℕ
prev_out s b = set_at s.prev (s.next b) (s.prev b)

abbrev next_in : Bcache → ℕ → ℕ → ℕ
next_in s b = set_at (set_at (next_out s b) b (next_out s b head)) head b

abbrev prev_in : Bcache → ℕ → ℕ → ℕ
prev_in s b =
    set_at (set_at (prev_out s b) b head) (set_at (next_out s b) b (next_out s b head) head) b

abbrev released : Bcache → ℕ → Bcache
released s b = record s {
  held = given_back (taken s.held);
  next = next_in s b;
  prev = prev_in s b;
  buf = set_at s.buf b (record (s.buf b) { busy = false });
  woken = b ∷ s.woken;
}

brelse-released :
    (s : Bcache) (b : ℕ) → (s.buf b).busy ≡ true → IsFree s.held → brelse b s ≡ ok tt (released s b)
unfolding brelse link_front
brelse-released s b busy free =
    let self : set_at s.prev (s.next b) (s.prev b) b ≡ s.prev b =
      elim (Bool-cases (b == s.next b)) [ inl e ↦ rw e refl | inr e ↦ rw e refl ] in
    rw
      (
        busy,
        lock_cache-ok s free,
        self,
        unlock_cache-ok (record (released s b) { held = taken s.held }) (taken-IsHeld s.held),
      )
      refl

-- The release changes the flag of the buffer only.
same_but_busy :
    (s : Bcache) (b u : ℕ)
    → (released s b).buf u ≡ record (s.buf u) { busy = ((released s b).buf u).busy }
same_but_busy s b u = elim (Bool-cases (u == b)) [
  | inl e ↦
      let same : u ≡ b = ground arith in
      rw e (ap (λ a. record (s.buf a) { busy = false }) (sym same))
  | inr e ↦ rw e refl
]

has-front :
    (b u : ℕ) (xs : List ℕ) → has b xs ≡ true → has u (b ∷ erase b xs) ≡ true → has u xs ≡ true
has-front b u xs i h = elim (Bool-cases (b == u)) [
  | inl e ↦ let same : b ≡ u = ground arith in subst (λ z. has z xs ≡ true) same i
  | inr e ↦ has-erase_imp b u xs (ground (arith, h))
]

module _ (s : Bcache) (xs : List ℕ) (b : ℕ) (c : Cached s xs) (i : has b xs ≡ true) where
  released-Chain : Chain (next_in s b) (prev_in s b) head (b ∷ erase b xs) head
  released-Chain =
      let nh = Cached-no_head s xs c in
      let out : has head (erase b xs) ≡ false = elim (Bool-cases (has head (erase b xs))) [
        | inl h ↦ absurd (ground (arith, has-erase_imp b head xs h, nh))
        | inr h ↦ h
      ] in
      let r = c.members b i in
      Chain-front (next_out s b) (prev_out s b) head b (λ z. absurd (omega arith)) (erase b xs)
        (Chain-unlink s.next s.prev head xs head b c.chain c.distinct nh nh i)
        (Distinct-erase b xs c.distinct) out (has-erase_self b xs c.distinct)

  -- brelse of a buffer that the caller holds, whose data, where it is valid and not dirty, are those of
  -- the disk: the buffer is the first on the list, the others follow in the order that they had, nobody
  -- holds it, those who wait for it are woken, and the lock is given back. The cache is still
  -- coherent with the disk.
  pub brelse-front :
      (s.buf b).busy ≡ true
      → IsFree s.held
      → ((s.buf b).valid ≡ true
          → (s.buf b).dirty ≡ false
          → (s.buf b).dev ≡ 1
          → (s.buf b).data_ ≡ s.disk (s.buf b).blockno)
      → Yields
          (λ _ t.
            Cached t (b ∷ erase b xs)
            × (t.buf b ≡ record (s.buf b) { busy = false })
            × ((u : ℕ) → b ≢ u → t.buf u ≡ s.buf u)
            × (t.woken ≡ b ∷ s.woken)
            × (t.disk ≡ s.disk)
            × (t.held ≡ given_back (taken s.held)))
          (brelse b s)
  brelse-front busy free same = rw (brelse-released s b busy free) (
      yields (
        record {
          chain = released-Chain;
          distinct = (has-erase_self b xs c.distinct, Distinct-erase b xs c.distinct);
          members = λ u h. c.members u (has-front b u xs i h);
          unique = λ u v hu hv.
              let hu' = has-front b u xs i hu in
              let hv' = has-front b v xs i hv in
              let eu = same_but_busy s b u in
              let ev = same_but_busy s b v in
              let du = ap (λ (z : Buf). z.dev) eu in
              let nu = ap (λ (z : Buf). z.blockno) eu in
              λ a d n.
                c.unique u v hu' hv' (λ z. a (du ∙ z)) (sym du ∙ d ∙ ap (λ (z : Buf). z.dev) ev)
                  (sym nu ∙ n ∙ ap (λ (z : Buf). z.blockno) ev);
          pinned = λ u h dirty.
              let e = same_but_busy s b u in
              ap (λ (z : Buf). z.valid) e
              ∙ c.pinned u (has-front b u xs i h) (sym (ap (λ (z : Buf). z.dirty) e) ∙ dirty);
          coherent = λ u h (idle : ((released s b).buf u).busy ≡ false) valid clean dev.
              let e = same_but_busy s b u in
              let v = sym (ap (λ (z : Buf). z.valid) e) ∙ valid in
              let w = sym (ap (λ (z : Buf). z.dirty) e) ∙ clean in
              let x = sym (ap (λ (z : Buf). z.dev) e) ∙ dev in
              let past : (s.buf u).data_ ≡ s.disk (s.buf u).blockno = elim (Bool-cases (b == u)) [
                | inl k ↦
                    let z : b ≡ u = ground arith in
                    subst
                      (λ a.
                        (s.buf a).valid ≡ true
                        → (s.buf a).dirty ≡ false
                        → (s.buf a).dev ≡ 1
                        → (s.buf a).data_ ≡ s.disk (s.buf a).blockno)
                      z same v w x
                | inr k ↦
                    let off : (u == b) ≡ false = ground arith in
                    let f : (released s b).buf u ≡ s.buf u = rw off refl in
                    c.coherent u (has-front b u xs i h) (sym (ap (λ (z : Buf). z.busy) f) ∙ idle) v
                      w x
              ] in
              ap (λ (z : Buf). z.data_) e ∙ past ∙ sym (ap (λ (z : Buf). s.disk z.blockno) e);
        },
        rw (==_refl b) refl,
        λ u ne. let off : (u == b) ≡ false = ground arith in rw off refl,
        refl,
        refl,
        refl,
      ))
