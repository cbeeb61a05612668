-- ===== src/Kalloc/Tests.antt =====
-- The theorems about the page allocator with one free page, and with none.
use cs.Prelude.{[], ◌∷◌, refl, true, false, arith}
use cs.Prelude.Run.{Yields}
use cs.Kalloc.{Kmem, freerange}
use cs.Kalloc.Chain.{HasPages, freerange-HasPages}

abbrev kmem : Kmem
kmem = record {
  memory = λ _. 0;
  held = record { cpu = record { interrupts = true; ncli = 0; intena = false }; holding = false };
  use_lock = true;
  freelist = 2148532224;
  end = 2148139008;
}

abbrev no_pages : Kmem
no_pages = record kmem { use_lock = false; freelist = 0 }

-- A range with two whole pages.
freerange-HasPages_example :
    Yields
      (λ _ t. HasPages t (2148147200 ∷ 2148143104 ∷ []))
      (freerange 2148139100 2148152000 no_pages)
freerange-HasPages_example =
    freerange-HasPages no_pages 2148139100 2148152000 []
      (record { chain = refl; lock_free = record { not_held = refl; no_cli = refl } }) (omega arith)
      (omega arith) (omega arith) (omega arith) (λ q h. tt)
