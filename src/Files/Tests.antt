-- ===== src/Files/Tests.antt =====
-- The theorems about open files at a small table: entry 1 is a pipe's end that two descriptors have,
-- entry 2 an inode that one has, and the others are free.
use cs.Prelude.{
  ◌≡◌, ◌≢◌, ◌⊎◌, Bool-cases, inl, inr, refl, true, false, [], arith, ◌==◌, if◌then◌else◌,
}
use cs.Prelude.Run.{Yields}
use cs.Proc.Table.{Ptr, null}
use cs.Proc.Table.Lock.{IsFree}
use cs.Files.{fd_none, fd_pipe, fd_inode, File, Ftable}
use cs.Prelude.Int.{pos, negsuc}
use cs.Pipe.{Pipe}
use cs.Files.Transfer.{Transfer, filewrite}
use cs.Files.Transfer.Chunks.{Pieces, filewrite-Pieces}
use cs.Files.Pipes.{pipealloc, IsNew, Unopened, FewFree, Opened}
use cs.Files.Pipes.Alloc.{pipealloc-Opened}

abbrev files : Ptr → File
files p = record {
  type_ = if p == 1 then fd_pipe else if p == 2 then fd_inode else fd_none;
  ref = if p == 1 then 2 else if p == 2 then 1 else 0;
  readable = 1;
  writable = 0;
  pipe = 4096;
  ip = 3;
  off = 0;
}

abbrev table : Ftable
table = record {
  file = files;
  held = record { cpu = record { interrupts = true; ncli = 0; intena = false }; holding = false };
  calls = [];
}

free : IsFree table.held
free = record { not_held = refl; no_cli = refl }

abbrev page : Pipe
page = record {
  held = table.held;
  data_ = λ j. 5;
  nread = 5;
  nwrite = 5;
  readopen = false;
  writeopen = false;
  killed = false;
  woken_readers = 0;
  woken_writers = 0;
  sleeps = 0;
  freed = false;
}

untyped : (q : Ptr) → (table.file q).ref ≡ 0 → (table.file q).type_ ≡ fd_none
untyped q e = elim (Bool-cases (q == 1)) [
  | inl h ↦ absurd (ground (arith, e))
  | inr h ↦ elim (Bool-cases (q == 2)) [
    | inl h2 ↦ absurd (ground (arith, e))
    | inr h2 ↦ rw (h, h2) refl
  ]
]

pipealloc-Opened_example :
    Yields
      (λ r t.
        (((r.0 ≡ negsuc 0) × ((8192 ≡ null) ⊎ FewFree table) × Unopened table t)
          ⊎ ((r.0 ≡ pos 0)
              × (8192 ≢ null)
              × Opened table 8192 r.1 r.2 t
              × IsNew r.3
              × (t.calls ≡ [])))
        × IsFree t.held)
      (pipealloc 8192 page table)
pipealloc-Opened_example = pipealloc-Opened 8192 page table free untyped

-- The inode of entry 2, open for writing; writei writes all.
abbrev writing : Transfer
writing = record { file = record (files 2) { writable = 1 }; calls = [] }

filewrite-Pieces_example :
    Yields
      (λ r t.
        Pieces (λ j c. pos c) 9000 0 0 t.calls t.file.off r
        × (t.file ≡ record writing.file { off = t.file.off }))
      (filewrite (pos 0) (λ j c. pos c) 9000 9000 writing)
filewrite-Pieces_example =
    filewrite-Pieces (pos 0) (λ j c. pos c) 9000 writing (λ j c. inl refl) (omega arith) refl refl
      refl
