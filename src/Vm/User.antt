-- ===== src/Vm/User.antt =====
-- The user part of an address space in vm.c: what makes it, grows it, copies it and frees it, and
-- copyout. Sizes are at most KERNBASE, so that addresses of pages do not wrap around.
use cs.Prelude.{ℕ, zero, suc, ◌+◌, ◌-◌, ◌*◌, ◌/◌, ◌%◌, false, not, ◌==◌, leb, ltb, if◌then◌else◌}
use cs.Prelude.Int.{ℤ, pos, negsuc}
use cs.Prelude.Run.{Cmd, panic, fault, out_of_fuel, pure, fetch, modify, ◌>>=◌, ◌>>◌}
use cs.Bytes.{memmove, word_at}
use cs.Kalloc.{pgsize, kernbase, Kmem, kalloc, kfree, round_down, round_up}
use cs.Proc.Table.{add32}
use cs.Inode.Directory.{is_count}
use cs.Vm.{
  p2v, v2p, is_present, is_user, pte_addr, pte_flags, pte_wu, write_word, clear_page, walkpgdir,
  mappages, is_negative, setupkvm,
}

abbrev pub move_bytes : (dst src n : ℕ) → Cmd Kmem (Unit {0})
move_bytes dst src n = modify (λ s. record s { memory = memmove dst src n s.memory })

unfoldable pub inituvm : (pgdir init sz : ℕ) → Cmd Kmem (Unit {0})
inituvm pgdir init sz = if leb pgsize sz then (λ _. panic "inituvm: more than a page") else (do
  mem ← kalloc
  clear_page mem
  _ ← mappages pgdir 0 pgsize (v2p mem) pte_wu
  move_bytes mem init sz)

-- The entry at `pte` in deallocuvm, with its page given back.
unfoldable pub free_pte : (pte : ℕ) → Cmd Kmem (Unit {0})
free_pte pte = do
  s ← fetch
  let e = word_at s.memory pte
  if not (is_present e)
      then pure tt
      else if pte_addr e == 0
      then (λ _. panic "kfree")
      else (do kfree (p2v (pte_addr e)); write_word pte 0)

-- The loop of deallocuvm from `a` on, at most `k` rounds.
unfoldable pub dealloc_loop : (pgdir k a oldsz : ℕ) → Cmd Kmem (Unit {0})
dealloc_loop pgdir zero a oldsz = λ _. out_of_fuel
dealloc_loop pgdir (suc k) a oldsz = if not (ltb a oldsz) then pure tt else (do
  pte ← walkpgdir pgdir a false
  if pte == 0
      then dealloc_loop pgdir k (a + 1023 * pgsize + pgsize) oldsz
      else (do free_pte pte; dealloc_loop pgdir k (a + pgsize) oldsz))

unfoldable pub deallocuvm : (pgdir oldsz newsz : ℕ) → Cmd Kmem ℕ
unfolding dealloc_loop
deallocuvm pgdir oldsz newsz =
    if leb oldsz newsz
    then pure oldsz
    else (do dealloc_loop pgdir (oldsz / pgsize + 2) (round_up newsz) oldsz; pure newsz)

-- The loop of allocuvm from `a` on, at most `k` rounds.
unfoldable pub grow_loop : (pgdir k a oldsz newsz : ℕ) → Cmd Kmem ℕ
grow_loop pgdir zero a oldsz newsz = λ _. out_of_fuel
grow_loop pgdir (suc k) a oldsz newsz = if not (ltb a newsz) then pure newsz else (do
  mem ← kalloc
  if mem == 0 then (do _ ← deallocuvm pgdir newsz oldsz; pure 0) else (do
    clear_page mem
    _ ← mappages pgdir a pgsize (v2p mem) pte_wu
    grow_loop pgdir k (a + pgsize) oldsz newsz))

unfoldable pub allocuvm : (pgdir oldsz newsz : ℕ) → Cmd Kmem ℕ
unfolding grow_loop
allocuvm pgdir oldsz newsz =
    if leb kernbase newsz
    then pure 0
    else if ltb newsz oldsz
    then pure oldsz
    else grow_loop pgdir (newsz / pgsize + 2) (round_up oldsz) oldsz newsz

-- The loop of freevm over the directory from entry `i` on, `k` of them.
unfoldable pub free_tables : (pgdir k i : ℕ) → Cmd Kmem (Unit {0})
free_tables pgdir zero i = pure tt
free_tables pgdir (suc k) i = do
  s ← fetch
  let e = word_at s.memory (pgdir + 4 * i)
  if is_present e
      then (do kfree (p2v (pte_addr e)); free_tables pgdir k (i + 1))
      else free_tables pgdir k (i + 1)

unfoldable pub freevm : (pgdir : ℕ) → Cmd Kmem (Unit {0})
unfolding free_tables
freevm pgdir =
    if pgdir == 0
    then (λ _. panic "freevm: no pgdir")
    else (do _ ← deallocuvm pgdir kernbase 0; free_tables pgdir 1024 0; kfree pgdir)

-- `*pte &= ~PTE_U`.
unfoldable pub clearpteu : (pgdir uva : ℕ) → Cmd Kmem (Unit {0})
clearpteu pgdir uva = do
  pte ← walkpgdir pgdir uva false
  s ← fetch
  let e = word_at s.memory pte
  if pte == 0 then (λ _. panic "clearpteu") else write_word pte (if is_user e then e - 4 else e)

-- The label bad of copyuvm.
unfoldable pub copy_failed : (d : ℕ) → Cmd Kmem ℕ
copy_failed d = do freevm d; pure 0

-- The loop of copyuvm from `i` on, at most `k` rounds.
unfoldable pub copy_loop : (pgdir d k i sz : ℕ) → Cmd Kmem ℕ
copy_loop pgdir d zero i sz = λ _. out_of_fuel
copy_loop pgdir d (suc k) i sz = if not (ltb i sz) then pure d else (do
  pte ← walkpgdir pgdir i false
  s ← fetch
  let e = word_at s.memory pte
  if pte == 0
      then (λ _. panic "copyuvm: pte should exist")
      else if not (is_present e)
      then (λ _. panic "copyuvm: page not present")
      else (do
        mem ← kalloc
        if mem == 0 then copy_failed d else (do
          move_bytes mem (p2v (pte_addr e)) pgsize
          r ← mappages d i pgsize (v2p mem) (pte_flags e)
          if is_negative r then copy_failed d else copy_loop pgdir d k (i + pgsize) sz)))

unfoldable pub copyuvm : (dat pgdir sz : ℕ) → Cmd Kmem ℕ
unfolding copy_loop
copyuvm dat pgdir sz = do
  d ← setupkvm dat
  if d == 0 then pure 0 else copy_loop pgdir d (sz / pgsize + 2) 0 sz

-- It reads through the null pointer that walkpgdir returns where there is no page table.
unfoldable pub uva2ka : (pgdir uva : ℕ) → Cmd Kmem ℕ
uva2ka pgdir uva = do
  pte ← walkpgdir pgdir uva false
  s ← fetch
  let e = word_at s.memory pte
  if pte == 0
      then (λ _. fault)
      else if not (is_present e)
      then pure 0
      else if not (is_user e)
      then pure 0
      else pure (p2v (pte_addr e))

abbrev pub piece : (va len : ℕ) → ℕ
piece va len = let n = pgsize - (va - round_down va) in if ltb len n then len else n

-- The loop of copyout, at most `k` rounds.
unfoldable pub copyout_loop : (pgdir k va buf len : ℕ) → Cmd Kmem ℤ
copyout_loop pgdir zero va buf len = λ _. out_of_fuel
copyout_loop pgdir (suc k) va buf len = if len == 0 then pure (pos 0) else (do
  pa0 ← uva2ka pgdir (round_down va)
  if pa0 == 0 then pure (negsuc 0) else (do
    let n = piece va len
    move_bytes (pa0 + (va - round_down va)) buf n
    copyout_loop pgdir k (add32 (round_down va) pgsize) (buf + n) (len - n)))

unfoldable pub copyout : (pgdir va buf len : ℕ) → Cmd Kmem ℤ
unfolding copyout_loop
copyout pgdir va buf len = copyout_loop pgdir (len + 1) va buf len

-- The loop of loaduvm from `i` on, at most `k` rounds; `readi` reads the file to an address.
unfoldable pub load_loop :
    (readi : (dst off n : ℕ) → Cmd Kmem ℤ) → (pgdir k i addr offset sz : ℕ) → Cmd Kmem ℤ
load_loop readi pgdir zero i addr offset sz = λ _. out_of_fuel
load_loop readi pgdir (suc k) i addr offset sz = if not (ltb i sz) then pure (pos 0) else (do
  pte ← walkpgdir pgdir (addr + i) false
  s ← fetch
  let pa = pte_addr (word_at s.memory pte)
  let n = if ltb (sz - i) pgsize then sz - i else pgsize
  if pte == 0 then (λ _. panic "loaduvm: address should exist") else (do
    r ← readi (p2v pa) (offset + i) n
    if not (is_count n r)
        then pure (negsuc 0)
        else load_loop readi pgdir k (i + pgsize) addr offset sz))

unfoldable pub loaduvm :
    (readi : (dst off n : ℕ) → Cmd Kmem ℤ) → (pgdir addr offset sz : ℕ) → Cmd Kmem ℤ
unfolding load_loop
loaduvm readi pgdir addr offset sz =
    if not (addr % pgsize == 0)
    then (λ _. panic "loaduvm: addr must be page aligned")
    else load_loop readi pgdir (sz / pgsize + 2) 0 addr offset sz
