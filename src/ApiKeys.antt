-- ===== src/ApiKeys.antt =====
-- gateway/src/api_keys.rs: `ApiKeyStore`, and `ApiKeyManager` without Redis, when keys live in memory.
-- The hash of keys is a parameter; what is drawn at random (raw keys and identifiers) and the clock, in
-- nanoseconds, are arguments.
pub mod Rate
pub mod Lifecycle
mod Examples
use shadowmesh.Base.{
  ℕ, ◌+◌, ◌-◌, ◌*◌, Bool, true, false, not, ◌&&◌, Option, none, some, List, [], ◌∷◌, ◌++◌, Str,
  str_eq, str_beq, ltb, leb, length, map, if◌then◌else◌,
}
use shadowmesh.Base.Map
use shadowmesh.Base.Map.{Map}
use shadowmesh.Base.Results.{Result, ok, err}

pub record ApiKey : Type 0 where
  pub id : Str
  pub key_hash : Str
  pub name : Str
  pub created_at : ℕ
  pub expires_at : Option ℕ
  pub last_used : Option ℕ
  pub enabled : Bool
  pub scopes : List Str

abbrev pub is_expired : ℕ → ApiKey → Bool
is_expired now k = elim k.expires_at [ none ↦ false | some t ↦ ltb t now ]

abbrev pub is_valid : ℕ → ApiKey → Bool
is_valid now k = k.enabled && not (is_expired now k)

pub record ApiKeyInfo : Type 0 where
  pub id : Str
  pub name : Str
  pub created_at : ℕ
  pub expires_at : Option ℕ
  pub last_used : Option ℕ
  pub enabled : Bool
  pub scopes : List Str
  pub expired : Bool

abbrev pub info_of : ℕ → ApiKey → ApiKeyInfo
info_of now k = record {
  id = k.id;
  name = k.name;
  created_at = k.created_at;
  expires_at = k.expires_at;
  last_used = k.last_used;
  enabled = k.enabled;
  scopes = k.scopes;
  expired = is_expired now k;
}

pub record ApiKeyStore : Type 0 where
  pub keys_by_hash : Map Str (ApiKey × ℕ)
  pub id_to_hash : Map Str Str
  pub cache_ttl : ℕ

abbrev pub default_store : ApiKeyStore
default_store = record { keys_by_hash = []; id_to_hash = []; cache_ttl = 30_000_000_000 }

unfoldable pub add : ℕ → ApiKey → ApiKeyStore → ApiKeyStore
add now k s = record s {
  keys_by_hash = Map.insert k.key_hash (k, now) s.keys_by_hash;
  id_to_hash = Map.insert k.id k.key_hash s.id_to_hash;
}

abbrev pub cached : ℕ → ℕ → Option (ApiKey × ℕ) → Option ApiKey
cached now ttl none = none
cached now ttl (some (k, cached_at)) = if ltb (now - cached_at) ttl then some k else none

unfoldable pub get_by_hash : ℕ → Str → ApiKeyStore → Option ApiKey
get_by_hash now hash s = cached now s.cache_ttl (Map.get hash s.keys_by_hash)

abbrev pub key_of : Option (ApiKey × ℕ) → Option ApiKey
key_of none = none
key_of (some (k, cached_at)) = some k

unfoldable pub get_by_id : Str → ApiKeyStore → Option ApiKey
get_by_id id s = elim (Map.get id s.id_to_hash) [
  | none ↦ none
  | some hash ↦ key_of (Map.get hash s.keys_by_hash)
]

-- `get_by_id_mut`, and what is done to the key.
unfoldable pub change_by_id : (ApiKey → ApiKey) → Str → ApiKeyStore → ApiKeyStore
change_by_id f id s = elim (Map.get id s.id_to_hash) [
  | none ↦ s
  | some hash ↦ record s { keys_by_hash = Map.adjust hash (λ e. (f e.0, e.1)) s.keys_by_hash }
]

unfoldable pub remove : Str → ApiKeyStore → ApiKeyStore
remove id s = elim (Map.get id s.id_to_hash) [
  | none ↦ s
  | some hash ↦ record s {
    keys_by_hash = Map.remove hash s.keys_by_hash;
    id_to_hash = Map.remove id s.id_to_hash;
  }
]

unfoldable pub list : ApiKeyStore → List ApiKey
list s = map (λ e. e.1.0) s.keys_by_hash

unfoldable pub update_hash : ℕ → Str → Str → Str → ApiKeyStore → ApiKeyStore
update_hash now id old_hash new_hash s = elim (Map.get old_hash s.keys_by_hash) [
  | none ↦ s
  | some e ↦ record s {
    keys_by_hash = Map.insert new_hash (e.0, now) (Map.remove old_hash s.keys_by_hash);
    id_to_hash = Map.insert id new_hash s.id_to_hash;
  }
]

pub data ApiKeyError : Type 0 where
  storage not_found unauthorized rate_limited : ApiKeyError

pub record ApiKeyManager : Type 0 where
  pub local_store : ApiKeyStore
  pub admin_key_hash : Option Str
  pub create_timestamps : List ℕ

-- The timestamps at the front that are older than the cutoff are popped.
unfoldable pub pop_old : ℕ → List ℕ → List ℕ
pop_old cutoff [] = []
pop_old cutoff (t ∷ ts) = let rest = pop_old cutoff ts in if ltb t cutoff then rest else t ∷ ts

abbrev pub creations_per_minute : ℕ
creations_per_minute = 10

abbrev pub minute : ℕ
minute = 60_000_000_000

pub record CreateKey : Type 0 where
  pub name : Str
  pub expires_in_days : Option ℕ
  pub scopes : List Str

-- `Utc::now() + Duration::days(d)`, in nanoseconds. The code panics where the days or the sum are
-- beyond what chrono can hold; here they have no bound. The clock of the day and the one that the
-- store ages its entries by are one.
abbrev pub expiry : ℕ → Option ℕ → Option ℕ
expiry now none = none
expiry now (some days) = some (now + days * 86_400_000_000_000)

abbrev pub disable : ApiKey → ApiKey
disable k = record k { enabled = false }

module _ (hash_key : Str → Str) where
  abbrev pub new_key : ℕ → Str → Str → CreateKey → ApiKey
  new_key now id raw_key r = record {
    id = id;
    key_hash = hash_key raw_key;
    name = r.name;
    created_at = now;
    expires_at = expiry now r.expires_in_days;
    last_used = none;
    enabled = true;
    scopes = r.scopes;
  }

  abbrev pub new : Option Str → ApiKeyManager
  new admin_key = record {
    local_store = default_store;
    admin_key_hash = elim admin_key [ none ↦ none | some k ↦ some (hash_key k) ];
    create_timestamps = [];
  }

  unfoldable pub verify_admin : Str → ApiKeyManager → Bool
  verify_admin key m = elim m.admin_key_hash [
    | none ↦ false
    | some admin_hash ↦ str_beq (hash_key key) admin_hash
  ]

  unfoldable pub create_key :
      ℕ → Str → Str → CreateKey → ApiKeyManager → ApiKeyManager × Result ApiKeyError (ApiKey × Str)
  create_key now id raw_key r m =
      let timestamps = pop_old (now - minute) m.create_timestamps in
      let k = new_key now id raw_key r in
      if leb creations_per_minute (length timestamps)
      then (record m { create_timestamps = timestamps }, err rate_limited)
      else (
        record m {
          local_store = add now k m.local_store;
          create_timestamps = timestamps ++ now ∷ [];
        },
        ok (k, raw_key),
      )

  unfoldable pub list_keys : ℕ → ApiKeyManager → List ApiKeyInfo
  list_keys now m = map (info_of now) (list m.local_store)

  abbrev pub get_key : Str → ApiKeyManager → Option ApiKey
  get_key id m = get_by_id id m.local_store

  abbrev pub if_valid : ℕ → Option ApiKey → Option ApiKey
  if_valid now none = none
  if_valid now (some k) = if is_valid now k then some k else none

  unfoldable pub validate_key : ℕ → Str → ApiKeyManager → Option ApiKey
  validate_key now raw_key m = if_valid now (get_by_hash now (hash_key raw_key) m.local_store)

  unfoldable pub revoke_key : Str → ApiKeyManager → ApiKeyManager × Bool
  revoke_key id m = elim (get_key id m) [
    | none ↦ (m, false)
    | some k ↦ (record m { local_store = change_by_id disable id m.local_store }, true)
  ]

  unfoldable pub delete_key : Str → ApiKeyManager → ApiKeyManager × Bool
  delete_key id m = (record m { local_store = remove id m.local_store }, true)

  unfoldable pub rotate_key : ℕ → Str → Str → ApiKeyManager → ApiKeyManager × Option Str
  rotate_key now id new_raw_key m = elim (get_key id m) [
    | none ↦ (m, none)
    | some k ↦
        let new_hash = hash_key new_raw_key in
        (
          record m {
            local_store =
                change_by_id (λ l. record l { key_hash = new_hash }) id
                  (update_hash now id k.key_hash new_hash m.local_store);
          },
          some new_raw_key,
        )
  ]
