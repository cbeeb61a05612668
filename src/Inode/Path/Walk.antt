-- ===== src/Inode/Path/Walk.antt =====
-- namex as a walk over the elements of the path.
use cs.Prelude.{
  ℕ, zero, suc, ◌+◌, ◌<◌, ◌≡◌, refl, ap, ◌∙◌, subst, fun_ext, List, [], ◌∷◌, some, Bool, ◌&&◌, not,
  arith, ◌==◌, if◌then◌else◌, length,
}
use cs.Prelude.Run.{Cmd, pure, ◌>>=◌, ◌>>◌}
use cs.Bytes.{Memory}
use cs.Proc.Table.{Ptr, null}
use cs.Inode.{FileSystem, read_inode, iget, idup, iunlock}
use cs.Inode.Lock.{ilock}
use cs.Inode.Put.{iput, iunlockput}
use cs.Inode.Directory.{dirlookup}
use cs.Inode.Path.{
  Namex, is_end, skipelem, arrive, enter, namex_on, namex_loop, namex, starts_at_root, rootdev,
  rootino,
}
use cs.Inode.Path.Name.{with_name}
use cs.Inode.Path.Elements.{HasElements, is_none, skipelem-Takes}
use cs.Inode.Path.Rounds.{Shorter, skipelem-Shorter}

-- The visit of an inode on the way: it is locked, and is to be a directory. The walk `stops` here with the
-- inode unlocked, or looks up the name that is in the memory, gives the inode back, and goes on.
visit :
    Namex
    → (stops : Bool) → (later : Ptr → Memory → Cmd FileSystem (Ptr × Memory)) → Ptr
    → Memory
    → Cmd FileSystem (Ptr × Memory)
visit ctx stops later ip mem = do
  ilock ctx.elsewhere ctx.rounds ip
  i ← read_inode ip
  if not (i.type_ == 1)
      then (do iunlockput ip; pure (null, mem))
      else if stops
      then (do iunlock ip; pure (ip, mem))
      else (do
        r ← dirlookup ctx.devs ip ctx.name ctx.de mem
        iunlockput ip
        if r.ip == null then pure (null, r.memory) else later r.ip r.memory)

-- The walk from an inode along the elements. For the parent it stops at the last element; without elements
-- there is no parent.
unfoldable pub walk_elements :
    Namex → (parent : Bool) → Ptr → List (List ℕ) → Memory → Cmd FileSystem (Ptr × Memory)
unfolding visit
walk_elements ctx parent ip [] mem =
    if parent then (do iput ip; pure (null, mem)) else pure (ip, mem)
walk_elements ctx parent ip (e ∷ es) mem =
    visit ctx (parent && is_none es) (λ q m. walk_elements ctx parent q es m) ip
      (with_name e ctx.name mem)

enter-visit :
    (ctx : Namex) (parent last : Bool) (later : Ptr → Memory → Cmd FileSystem (Ptr × Memory))
    (ip : Ptr) (rest : List ℕ) (mem : Memory)
    → is_end rest ≡ last
    → enter ctx parent later ip rest mem ≡ visit ctx (parent && last) later ip mem
unfolding enter visit
enter-visit ctx parent last later ip rest mem same = rw same refl

shorter_rest :
    (path rest : List ℕ) (name : ℕ) (mem mem' : Memory)
    → skipelem path name mem ≡ some (rest, mem')
    → length rest < length path
shorter_rest path rest name mem mem' e = subst (Shorter path) e (skipelem-Shorter path name mem)

namex_loop-walk_elements :
    (ctx : Namex) (parent : Bool) (k : ℕ) (ip : Ptr) (path : List ℕ) (es : List (List ℕ))
    (mem : Memory)
    → HasElements path es
    → length path < k
    → namex_loop ctx parent k ip path mem ≡ walk_elements ctx parent ip es mem
unfolding namex_loop walk_elements arrive
namex_loop-walk_elements ctx parent zero ip path es mem has lt = absurd (omega arith)
namex_loop-walk_elements ctx parent (suc k) ip path [] mem has lt =
    ap (namex_on ctx parent (λ rest q m. namex_loop ctx parent k q rest m) ip mem)
      (skipelem-Takes path [] ctx.name mem has)
namex_loop-walk_elements ctx parent (suc k) ip path (e ∷ es) mem has lt =
    let (rest, mem', taken, name, has', ends) = skipelem-Takes path (e ∷ es) ctx.name mem has in
    let shorter = shorter_rest path rest ctx.name mem mem' taken in
    let named : mem' ≡ with_name e ctx.name mem = fun_ext name in
    let later : (λ q m. namex_loop ctx parent k q rest m)
        ≡ (λ q m. walk_elements ctx parent q es m) =
      fun_ext
        λ q. fun_ext λ m. namex_loop-walk_elements ctx parent k q rest es m has' (omega arith) in
    ap (namex_on ctx parent (λ rest q m. namex_loop ctx parent k q rest m) ip mem) taken
    ∙ enter-visit ctx parent (is_none es) _ ip rest mem' ends
    ∙ ap (λ f. visit ctx (parent && is_none es) f ip mem') later
    ∙ ap (visit ctx (parent && is_none es) (λ q m. walk_elements ctx parent q es m) ip) named

-- namex of a path with these elements, from the root if it begins with a slash and from the working
-- directory otherwise, is the walk along the elements: its loop has rounds enough for every path, each
-- element is looked up by its first DIRSIZ bytes in the inode of the one before, which is to be a
-- directory, and the walk for the parent stops in the directory of the last element, unlocked.
pub namex-walk_elements :
    (ctx : Namex) (cwd : Ptr) (parent : Bool) (path : List ℕ) (es : List (List ℕ)) (mem : Memory)
    → HasElements path es
    → namex ctx cwd parent path mem ≡ (
        (if starts_at_root path then iget 1 1 else idup cwd) >>= λ ip.
        walk_elements ctx parent ip es mem)
unfolding namex
namex-walk_elements ctx cwd parent path es mem has =
    ap (λ f. (if starts_at_root path then iget rootdev rootino else idup cwd) >>= f)
      (fun_ext λ ip.
        namex_loop-walk_elements ctx parent (length path + 1) ip path es mem has (omega arith))
