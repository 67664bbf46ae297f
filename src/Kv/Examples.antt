-- ===== src/Kv/Examples.antt =====
-- A store of two namespaces of one key each.
use shadowmesh.Base.{ℕ, ◌≡◌, refl, none, some, List, [], ◌∷◌, bytes, str_eq}
use shadowmesh.Base.Map
use shadowmesh.Kv.{KvConfig, KvStore, new, get, put, put_in, Call, gets, puts, cleans, run}
use shadowmesh.Kv.Bounds.{IsBounded, run-IsBounded}
use shadowmesh.Kv.Reads.{get-put}

abbrev small : KvConfig
small = record { max_keys_per_namespace = 1; max_value_size_bytes = 4; max_namespaces = 2 }

abbrev calls : List (ℕ × Call)
calls =
    (1, puts (bytes "a") (bytes "k") (bytes "v") none)
    ∷ (2, puts (bytes "b") (bytes "k") (bytes "v") (some 1))
    ∷ (3, puts (bytes "c") (bytes "k") (bytes "v") none)
    ∷ (4, puts (bytes "a") (bytes "l") (bytes "v") none)
    ∷ (2_000_000_000, gets (bytes "b") (bytes "k"))
    ∷ (3_000_000_000, cleans)
    ∷ []

run-IsBounded_example : IsBounded (run (new small) calls) × ((run (new small) calls).config ≡ small)
run-IsBounded_example = run-IsBounded small calls

abbrev stored : KvStore
stored = (put 1 (bytes "a") (bytes "k") (bytes "v") (some 1) (new small)).0

get-put_example : (get 9 (bytes "a") (bytes "k") stored).1 ≡ some (bytes "v")
unfolding put put_in Map.get Map.insert
get-put_example =
    get-put 1 9 (bytes "a") (bytes "k") (bytes "a") (bytes "k") (bytes "v") (some 1) (new small)
      stored refl
