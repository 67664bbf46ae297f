-- ===== src/Cache/Examples.antt =====
-- The cache at concrete calls.
use shadowmesh.Base.{ℕ, some, arith, ◌≡◌, refl, false, none, List, [], ◌∷◌, bytes, str_eq}
use shadowmesh.Base.Map
use shadowmesh.Base.Map.{Map, size}
use shadowmesh.Cache.{
  CacheEntry, ContentCache, with_config, get, set_with_ttl, Call, gets, sets, run, evict_expired,
  lru, make_room, drop_expired, drop_lru,
}
use shadowmesh.Cache.Laws.{IsBounded, run-with_config}
use shadowmesh.Cache.Lru.{IsAfterSet, set_with_ttl-IsAfterSet}

abbrev history : List (ℕ × Call)
history =
    (1, sets (bytes "a") (bytes "A") (bytes "t") 100)
    ∷ (2, sets (bytes "b") (bytes "B") (bytes "t") 100)
    ∷ (3, gets (bytes "a"))
    ∷ (4, sets (bytes "c") (bytes "C") (bytes "t") 100)
    ∷ []

-- `b` was the least recently used.
b_evicted : Map.get (bytes "b") (run (with_config 2 100) history).table ≡ none
unfolding run set_with_ttl get make_room drop_expired drop_lru evict_expired lru Map.insert
    Map.remove Map.adjust Map.get Map.retain
b_evicted = refl

run-with_config_example : IsBounded (run (with_config 2 100) history)
run-with_config_example = run-with_config 2 100 history

abbrev entry : ℕ → CacheEntry
entry t = record {
  content = bytes "x";
  content_type = bytes "t";
  created_at = t;
  last_accessed = t;
  ttl = 100;
}

abbrev full : ContentCache
full = record {
  table = (bytes "a", entry 1) ∷ (bytes "b", entry 2) ∷ [];
  poisoned = false;
  max_entries = 2;
  default_ttl = 100;
}

set_with_ttl-IsAfterSet_example :
    IsAfterSet 50
      (bytes "c")
      (record {
        content = bytes "C";
        content_type = bytes "t";
        created_at = 50;
        last_accessed = 50;
        ttl = 10;
      })
      full
      (set_with_ttl 50 (bytes "c") (bytes "C") (bytes "t") 10 full).table
unfolding Map.get
set_with_ttl-IsAfterSet_example =
    set_with_ttl-IsAfterSet 50 (bytes "c") (bytes "C") (bytes "t") 10 full (refl, (refl, tt))
      (omega arith)

-- The older entry makes room.
a_evicted :
    let m = (set_with_ttl 50 (bytes "c") (bytes "C") (bytes "t") 10 full).table in
    (Map.get (bytes "a") m ≡ none) × (Map.get (bytes "b") m ≡ some (entry 2))
unfolding set_with_ttl make_room drop_expired drop_lru evict_expired lru Map.insert Map.remove
    Map.get Map.retain
a_evicted = (refl, refl)
