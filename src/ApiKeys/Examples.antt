-- ===== src/ApiKeys/Examples.antt =====
-- A key from its creation on, with a checksum for a hash.
use shadowmesh.Base.{◌≡◌, ◌≤◌, refl, none, some, List, [], ◌∷◌, arith, Str, bytes, str_eq}
use shadowmesh.Base.Map
use shadowmesh.Base.Sample.{checksum}
use shadowmesh.ApiKeys.{
  ApiKeyManager, CreateKey, new_key, new, add, create_key, get_by_id, validate_key, revoke_key,
  rotate_key, pop_old,
}
use shadowmesh.ApiKeys.Rate.{Creation, creations, creations_bound}
use shadowmesh.ApiKeys.Lifecycle.{
  revoke_key-validate_key, rotate_key-validate_key, create_key-validate_key,
}

abbrev hash : Str → Str
hash s = checksum s ∷ []

abbrev asked : CreateKey
asked = record { name = bytes "ci"; expires_in_days = some 1; scopes = [] }

abbrev created : ApiKeyManager
created = (create_key hash 5 (bytes "id") (bytes "sm_a") asked (new hash none)).0

create_key-validate_key_example :
    validate_key hash 9 (bytes "sm_a") created
    ≡ some (new_key hash 5 (bytes "id") (bytes "sm_a") asked)
unfolding create_key pop_old add Map.insert
create_key-validate_key_example =
    create_key-validate_key hash 5 9 (bytes "id") (bytes "sm_a") asked (new hash none) created
      (new_key hash 5 (bytes "id") (bytes "sm_a") asked, bytes "sm_a") refl

revoke_key-validate_key_example :
    validate_key hash 9 (bytes "sm_a") (revoke_key hash (bytes "id") created).0 ≡ none
unfolding create_key pop_old add Map.insert Map.get
revoke_key-validate_key_example =
    revoke_key-validate_key hash 9 (bytes "id") (bytes "sm_a") created refl

rotate_key-validate_key_example :
    validate_key hash 9 (bytes "sm_a") (rotate_key hash 7 (bytes "id") (bytes "sm_b") created).0
    ≡ none
unfolding create_key pop_old add Map.insert Map.get get_by_id
rotate_key-validate_key_example =
    rotate_key-validate_key hash 7 9 (bytes "id") (bytes "sm_a") (bytes "sm_b")
      (new_key hash 5 (bytes "id") (bytes "sm_a") asked) created refl refl refl

abbrev requests : List Creation
requests = (7, bytes "i", bytes "sm_c", asked) ∷ (8, bytes "j", bytes "sm_d", asked) ∷ []

creations_bound_example :
    (creations hash requests (creations hash requests (new hash none)).0).1 ≤ 10
creations_bound_example =
    creations_bound hash none requests requests 6
      ((omega arith, omega arith), ((omega arith, omega arith), tt))
