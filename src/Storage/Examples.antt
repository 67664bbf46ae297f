-- ===== src/Storage/Examples.antt =====
-- The store at concrete calls.
use shadowmesh.Base.{
  ℕ, ◌≡◌, refl, true, false, none, some, List, [], ◌∷◌, ◌++◌, arith, Str, All, bytes, str_eq,
}
use shadowmesh.Base.Map
use shadowmesh.Storage.Types.{StoredContent, StorageManager, Disk, ok, fragment_path}
use shadowmesh.Storage.Ops.{
  new, loaded, empty_manager, store_fragment, store_content, delete, add_fragment, delete_fragments,
  delete_fragment, drop_content, drop_fragment,
}
use shadowmesh.Storage.Collect.{garbage_collect, collect, candidates}
use shadowmesh.Storage.Accounting.{IsCovered}
use shadowmesh.Storage.History.{Turn, Request, stores, registers, run, run-new-IsCovered}
use shadowmesh.Storage.Exact.{Surplus, store_fragment-Surplus}
use shadowmesh.Storage.Paths.{fragment_path-IsPlain, PlainByte}
use shadowmesh.Storage.Removal.{delete-drops}
use shadowmesh.Storage.Collected.{IsCollection, garbage_collect-IsCollection}

-- A file system on which all goes well.
abbrev good : Disk
good = record {
  create_dir_all = λ p. true;
  write = λ p d. true;
  read = λ p. some [];
  exists = λ p. true;
  remove_file = λ p. true;
  save_metadata = true;
}

abbrev opened : StorageManager
opened = loaded [] [] (empty_manager (bytes "/data") 100)

abbrev site : StoredContent
site = record {
  cid = bytes "site";
  name = bytes "site";
  total_size = 6;
  fragment_count = 2;
  fragments = bytes "aa11" ∷ bytes "bb22" ∷ [];
  stored_at = 1;
  pinned = false;
  mime_type = bytes "text/html";
}

abbrev turn : ℕ → Request → Turn
turn t q = record { disk = good; now = t; request = q }

abbrev upload : List Turn
upload =
    turn 1 (stores (bytes "aa11") (bytes "site") 0 (bytes "abc"))
    ∷ turn 2 (stores (bytes "bb22") (bytes "site") 1 (bytes "def"))
    ∷ turn 3 (registers site)
    ∷ []

uploaded : (run opened upload).current_usage ≡ 6
unfolding run store_fragment fragment_path add_fragment Map.insert loaded store_content Map.total
uploaded = refl

run-new-IsCovered_example : IsCovered 100 (run opened upload)
unfolding new loaded Map.total
run-new-IsCovered_example =
    run-new-IsCovered good (bytes "/data") 100 [] [] opened upload tt (omega arith) (omega arith)
      refl (omega arith)

abbrev holding : StorageManager
holding = run opened upload

store_again : (store_fragment good 9 opened (bytes "aa11") (bytes "site") 0 (bytes "abc")).1 ≡ ok tt
unfolding store_fragment fragment_path loaded Map.total
store_again = refl

abbrev once : StorageManager
once = (store_fragment good 9 opened (bytes "aa11") (bytes "site") 0 (bytes "abc")).0

store_fragment-Surplus_example :
    Surplus 3 (store_fragment good 9 once (bytes "aa11") (bytes "site") 0 (bytes "abc")).0
unfolding store_fragment fragment_path loaded add_fragment Map.insert Map.get Map.total
store_fragment-Surplus_example =
    (store_fragment-Surplus good 9 once (bytes "aa11") (bytes "site") 0 (bytes "abc") 0
      (omega arith) refl refl).1

fragment_path-IsPlain_example : All PlainByte (bytes "aa11")
unfolding fragment_path
fragment_path-IsPlain_example = (fragment_path-IsPlain (bytes "/data") (bytes "aa11") _ refl).3

-- 31 letters and then the two bytes of `é` twice.
abbrev accented : Str
accented = bytes "abcdefghijklmnopqrstuvwxyzabcde" ++ 0xC3 ∷ 0xA9 ∷ 0xC3 ∷ 0xA9 ∷ []

holding_site : Map.get (bytes "site") holding.content ≡ some site
unfolding run store_fragment fragment_path add_fragment Map.insert Map.get loaded store_content
    Map.total
holding_site = refl

delete-drops_example :
    All (λ h. Map.get h (delete good holding (bytes "site")).0.fragments ≡ none) site.fragments
unfolding run store_fragment fragment_path add_fragment Map.insert Map.get loaded store_content
    Map.total
delete-drops_example =
    (delete-drops good holding (bytes "site") site holding_site refl
      ((refl, refl), ((refl, refl), tt))).1

abbrev pinned_site : StoredContent
pinned_site = record site { pinned = true }

abbrev pinning : StorageManager
pinning = record opened {
  content =
      (bytes "site", pinned_site)
      ∷ (bytes "page", record site { cid = bytes "page"; fragments = bytes "ffff2" ∷ [] })
      ∷ [];
}

garbage_collect-IsCollection_example :
    IsCollection good pinning 1000
      (garbage_collect good 5 pinning 1000).0
      (garbage_collect good 5 pinning 1000).1
garbage_collect-IsCollection_example = garbage_collect-IsCollection good 5 pinning 1000

-- The page is collected, the pinned site is not.
page_collected :
    let m = (garbage_collect good 5 pinning 1000).0 in
    (Map.get (bytes "page") m.content ≡ none)
    × (Map.get (bytes "site") m.content ≡ some pinned_site)
unfolding Map.get garbage_collect loaded Map.total collect candidates delete delete_fragments
    delete_fragment fragment_path drop_content Map.remove drop_fragment
page_collected = (refl, refl)
