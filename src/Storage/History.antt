-- ===== src/Storage/History.antt =====
-- Any sequence of calls on a store, whatever the file system answers.
use shadowmesh.Base.{ℕ, ◌+◌, ◌≤◌, ◌<◌, ◌≡◌, refl, List, [], ◌∷◌, arith, Str, All, length, str_eq}
use shadowmesh.Base.Map.{Map, Distinct, total}
use shadowmesh.Storage.Types.{u64_mod, StoredFragment, StoredContent, StorageManager, Disk, ok}
use shadowmesh.Storage.Ops.{
  parsed, new, loaded, fragment_size, store_fragment, get_fragment, get_fragment_path,
  store_content, pin, unpin, delete, empty_manager,
}
use shadowmesh.Storage.Collect.{garbage_collect}
use shadowmesh.Storage.Accounting.{
  IsCovered, store_fragment-IsCovered, get_fragment-IsCovered, get_fragment_path-IsCovered,
  store_content-IsCovered, pin-IsCovered, unpin-IsCovered, delete-IsCovered,
  garbage_collect-IsCovered,
}

-- The public methods that change the store.
pub data Request : Type 0 where
  stores : Str → Str → ℕ → Str → Request
  reads locates pins unpins deletes : Str → Request
  registers : StoredContent → Request
  collects : ℕ → Request

-- A request at a time, with the answers of the file system while it runs.
pub record Turn : Type 0 where
  pub disk : Disk
  pub now : ℕ
  pub request : Request

serve : Disk → ℕ → StorageManager → Request → StorageManager
serve disk now m (stores hash cid index content) =
    (store_fragment disk now m hash cid index content).0
serve disk now m (reads hash) = (get_fragment disk now m hash).0
serve disk now m (locates hash) = (get_fragment_path now m hash).0
serve disk now m (registers c) = (store_content disk m c).0
serve disk now m (pins cid) = (pin disk m cid).0
serve disk now m (unpins cid) = (unpin disk m cid).0
serve disk now m (deletes cid) = (delete disk m cid).0
serve disk now m (collects target) = (garbage_collect disk now m target).0

unfoldable pub step : StorageManager → Turn → StorageManager
unfolding serve
step m t = serve t.disk t.now m t.request

unfoldable pub run : StorageManager → List Turn → StorageManager
unfolding step
run m [] = m
run m (t ∷ ts) = run (step m t) ts

-- The sum of the capacity and of what is stored at once stays below 2^64.
abbrev pub FitsU64 : ℕ → Request → Type 0
FitsU64 cap (stores hash cid index content) = cap + length content < u64_mod
FitsU64 cap _ = Unit

module _ (cap : ℕ) where
  serve-IsCovered :
      (disk : Disk) (now : ℕ) (m : StorageManager) (q : Request)
      → FitsU64 cap q
      → IsCovered cap m
      → IsCovered cap (serve disk now m q)
  unfolding serve
  serve-IsCovered disk now m (stores hash cid index content) s v =
      store_fragment-IsCovered cap disk now m hash cid index content s v
  serve-IsCovered disk now m (reads hash) s v = get_fragment-IsCovered cap disk now m hash v
  serve-IsCovered disk now m (locates hash) s v = get_fragment_path-IsCovered cap now m hash v
  serve-IsCovered disk now m (registers c) s v = store_content-IsCovered cap disk m c v
  serve-IsCovered disk now m (pins cid) s v = pin-IsCovered cap disk m cid v
  serve-IsCovered disk now m (unpins cid) s v = unpin-IsCovered cap disk m cid v
  serve-IsCovered disk now m (deletes cid) s v = delete-IsCovered cap disk m cid v
  serve-IsCovered disk now m (collects target) s v =
      garbage_collect-IsCovered cap disk now m target v

  run-IsCovered :
      (m : StorageManager) (ts : List Turn)
      → All (λ t. FitsU64 cap t.request) ts
      → IsCovered cap m
      → IsCovered cap (run m ts)
  unfolding run
  run-IsCovered m [] s v = v
  run-IsCovered m (t ∷ ts) s v =
      run-IsCovered (step m t) ts s.1
        (unfold step in serve-IsCovered t.disk t.now m t.request s.0 v)

new_ok :
    (disk : Disk) (data_dir : Str) (cap : ℕ) (frags : Map Str StoredFragment)
    (cont : Map Str StoredContent) (m : StorageManager)
    → new disk (parsed frags cont) data_dir cap ≡ ok m
    → loaded frags cont (empty_manager data_dir cap) ≡ m
unfolding new
new_ok disk data_dir cap frags cont m e = ground arith

loaded-IsCovered :
    (data_dir : Str) (cap : ℕ) (frags : Map Str StoredFragment) (cont : Map Str StoredContent)
    → Distinct frags
    → total fragment_size frags ≤ cap
    → cap < u64_mod
    → IsCovered cap (loaded frags cont (empty_manager data_dir cap))
unfolding loaded
loaded-IsCovered data_dir cap frags cont d fits small = record {
  distinct = d;
  covers = omega arith;
  capacity = refl;
  bounded = omega arith;
  counted = refl;
}

-- From a store opened on an index whose fragments fit: whatever is requested, in any order, and
-- whatever the file system answers, the fragments that are stored never take more bytes than
-- `current_usage`, that never passes the capacity, the statistics report it, and no hash has two
-- entries. (The capacity and what is stored at once add up to less than 2^64.)
pub run-new-IsCovered :
    (disk : Disk) (data_dir : Str) (cap : ℕ) (frags : Map Str StoredFragment)
    (cont : Map Str StoredContent) (m : StorageManager) (ts : List Turn)
    → Distinct frags
    → total fragment_size frags ≤ cap
    → cap < u64_mod
    → new disk (parsed frags cont) data_dir cap ≡ ok m
    → All (λ t. FitsU64 cap t.request) ts
    → IsCovered cap (run m ts)
run-new-IsCovered disk data_dir cap frags cont m ts d fits small e s = run-IsCovered cap m ts s (
    rw (new_ok disk data_dir cap frags cont m e) at
      (loaded-IsCovered data_dir cap frags cont d fits small))
