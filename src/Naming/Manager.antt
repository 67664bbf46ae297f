-- ===== src/Naming/Manager.antt =====
-- `NamingManager` and `ServiceRegistry` of protocol/src/naming.rs.
use shadowmesh.Base.{
  ℕ, ◌+◌, ◌-◌, ◌^◌, Bool, true, false, not, Option, none, some, List, [], ◌∷◌, ◌++◌, Str, str_beq,
  ltb, leb, if◌then◌else◌, min_ℕ, str_eq, filter, take, map,
}
use shadowmesh.Base.Map
use shadowmesh.Base.Map.{Map, size}
use shadowmesh.Base.Sort.{sort_by}
use shadowmesh.Base.Results.{Result, ok, err, ok_or, guard, ◌>>=◌, ◌>>◌}
use shadowmesh.Naming.Types.{
  Libraries, NamingError, invalid_signature, name_taken, not_owner, invalid_ttl,
  serialization_error, signing_failed, ServiceType, signaling, turn, stun, bootstrap, relay, custom,
  NameRecordType, content, gateway, service, peer, NameRecord, validate_name, valid_ttl,
  sign_record, verify_record, validate_record, first_wins, max_cache_entries,
  service_heartbeat_timeout,
}

abbrev pub same_type : ServiceType → ServiceType → Bool
same_type signaling signaling = true
same_type turn turn = true
same_type stun stun = true
same_type bootstrap bootstrap = true
same_type relay relay = true
same_type (custom a) (custom b) = str_beq a b
same_type _ _ = false

pub record ServiceRegistryEntry : Type 0 where
  pub service_type : ServiceType
  pub peer_id : Str
  pub multiaddrs : List Str
  pub reputation : ℕ
  pub registered_at : ℕ
  pub last_heartbeat : ℕ
  pub signature : Str

pub record ServiceRegistry : Type 0 where
  pub name : Str
  pub entries : List ServiceRegistryEntry
  pub updated_at : ℕ

abbrev pub new_registry : ℕ → Str → ServiceRegistry
new_registry unix name = record { name = name; entries = []; updated_at = unix }

unfoldable pub upsert_entry : ℕ → ServiceRegistryEntry → ServiceRegistry → ServiceRegistry
upsert_entry unix entry g = record g {
  entries = filter (λ e. not (str_beq e.peer_id entry.peer_id)) g.entries ++ entry ∷ [];
  updated_at = unix;
}

unfoldable pub prune_stale : ℕ → ServiceRegistry → ServiceRegistry
prune_stale unix g = record g {
  entries = filter (λ e. ltb (unix - service_heartbeat_timeout) e.last_heartbeat) g.entries;
  updated_at = unix;
}

-- The highest reputation, which is a byte, first.
unfoldable pub best_entries : ℕ → ServiceRegistry → List ServiceRegistryEntry
best_entries limit g = take limit (sort_by (λ e. 255 - e.reputation) g.entries)

unfoldable pub entries_by_type : ServiceType → ServiceRegistry → List ServiceRegistryEntry
entries_by_type t g = filter (λ e. same_type e.service_type t) g.entries

abbrev pub content_cids_in : List NameRecordType → List Str
content_cids_in [] = []
content_cids_in (content cid ∷ rs) = cid ∷ content_cids_in rs
content_cids_in (r ∷ rs) = content_cids_in rs

abbrev pub content_cids : NameRecord → List Str
content_cids r = content_cids_in r.records

abbrev pub gateways_in : List NameRecordType → List (Str × List Str × ℕ)
gateways_in [] = []
gateways_in (gateway peer_id multiaddrs weight ∷ rs) =
    (peer_id, multiaddrs, weight) ∷ gateways_in rs
gateways_in (r ∷ rs) = gateways_in rs

abbrev pub gateways : NameRecord → List (Str × List Str × ℕ)
gateways r = gateways_in r.records

abbrev pub services_in : ServiceType → List NameRecordType → List (Str × List Str)
services_in t [] = []
services_in t (service s peer_id multiaddrs ∷ rs) =
    let rest = services_in t rs in if same_type s t then (peer_id, multiaddrs) ∷ rest else rest
services_in t (r ∷ rs) = services_in t rs

abbrev pub services : ServiceType → NameRecord → List (Str × List Str)
services t r = services_in t r.records

abbrev pub peers_in : List NameRecordType → List (Str × List Str)
peers_in [] = []
peers_in (peer peer_id multiaddrs ∷ rs) = (peer_id, multiaddrs) ∷ peers_in rs
peers_in (r ∷ rs) = peers_in rs

abbrev pub peers : NameRecord → List (Str × List Str)
peers r = peers_in r.records

pub record NamingManager : Type 0 where
  pub owned_names : Map Str NameRecord
  pub local_cache : Map Str NameRecord
  pub service_registries : Map Str ServiceRegistry

abbrev pub new : NamingManager
new = record { owned_names = []; local_cache = []; service_registries = [] }

-- `min_by_key` on `updated_at`: the first of the least.
abbrev pub older : Str × NameRecord → Option (Str × NameRecord) → Option (Str × NameRecord)
older e none = some e
older e (some f) = if leb e.1.updated_at f.1.updated_at then some e else some f

unfoldable pub oldest : Map Str NameRecord → Option (Str × NameRecord)
oldest [] = none
oldest (e ∷ m) = older e (oldest m)

unfoldable pub evict_oldest : Map Str NameRecord → Map Str NameRecord
evict_oldest m =
    if ltb max_cache_entries (size m)
    then elim (oldest m) [ none ↦ m | some e ↦ Map.remove e.0 m ]
    else m

-- Once the record is checked: it is kept if it wins.
unfoldable pub keep_winner : NameRecord → Map Str NameRecord → Map Str NameRecord
keep_winner r cache = elim (Map.get r.name_hash cache) [
  | none ↦ evict_oldest (Map.insert r.name_hash r cache)
  | some existing ↦
      if first_wins existing r then cache else evict_oldest (Map.insert r.name_hash r cache)
]

module _ (lib : Libraries) where
  abbrev pub pubkey_hex : lib.Keypair → Str
  pubkey_hex keypair = lib.to_hex (lib.encode_protobuf (lib.public keypair))

  unfoldable pub create_name_record :
      ℕ → Str → List NameRecordType → lib.Keypair → ℕ → Result NamingError NameRecord
  create_name_record unix name records keypair ttl_seconds = do
    validate_name name
    guard (valid_ttl ttl_seconds) (invalid_ttl ttl_seconds)
    sign_record lib
        (record {
          name = name;
          name_hash = lib.name_to_hash name;
          owner_pubkey = pubkey_hex keypair;
          records = records;
          sequence = 1;
          created_at = unix;
          updated_at = unix;
          ttl_seconds = ttl_seconds;
          signature = [];
        })
        keypair

  unfoldable pub update_name_record :
      ℕ → NameRecord → List NameRecordType → lib.Keypair → Result NamingError NameRecord
  update_name_record unix existing new_records keypair = do
    guard (str_beq (pubkey_hex keypair) existing.owner_pubkey) not_owner
    sign_record lib
        (record existing {
          records = new_records;
          sequence = min_ℕ (existing.sequence + 1) (2 ^ 64 - 1);
          updated_at = unix;
          signature = [];
        })
        keypair

  unfoldable pub revoke_name_record : ℕ → NameRecord → lib.Keypair → Result NamingError NameRecord
  revoke_name_record unix existing keypair = do
    guard (str_beq (pubkey_hex keypair) existing.owner_pubkey) not_owner
    sign_record lib
        (record existing { records = []; sequence = 2 ^ 64 - 1; updated_at = unix; signature = [] })
        keypair

  -- A record that is made is stored as owned.
  abbrev pub stored :
      Str
      → NamingManager
      → Result NamingError NameRecord
      → NamingManager × Result NamingError NameRecord
  stored hash m (ok r) = (record m { owned_names = Map.insert hash r m.owned_names }, ok r)
  stored hash m (err x) = (m, err x)

  abbrev pub taken_by_other : lib.Keypair → Option NameRecord → Bool
  taken_by_other keypair none = false
  taken_by_other keypair (some r) = not (str_beq r.owner_pubkey (pubkey_hex keypair))

  unfoldable pub register_name :
      ℕ
      → Str
      → List NameRecordType
      → lib.Keypair
      → ℕ
      → NamingManager
      → NamingManager × Result NamingError NameRecord
  register_name unix name records keypair ttl_seconds m =
      let hash = lib.name_to_hash name in
      elim (Map.get hash m.owned_names) [
        | some existing ↦
            if taken_by_other keypair (some existing)
            then (m, err name_taken)
            else (m, update_name_record unix existing records keypair)
        | none ↦
            if taken_by_other keypair (Map.get hash m.local_cache)
            then (m, err name_taken)
            else stored hash m (create_name_record unix name records keypair ttl_seconds)
      ]

  unfoldable pub update_owned_name :
      ℕ
      → Str
      → List NameRecordType
      → lib.Keypair
      → NamingManager
      → NamingManager × Result NamingError NameRecord
  update_owned_name unix name new_records keypair m =
      let hash = lib.name_to_hash name in
      elim (Map.get hash m.owned_names) [
        | none ↦ (m, err not_owner)
        | some existing ↦ stored hash m (update_name_record unix existing new_records keypair)
      ]

  -- The checks of a record that comes in.
  unfoldable pub admissible : NameRecord → Result NamingError (Unit {0})
  admissible r = do
    validate_record lib r
    verified ← verify_record lib r
    guard verified invalid_signature

  unfoldable pub cache_record :
      NameRecord → NamingManager → NamingManager × Result NamingError (Unit {0})
  cache_record r m = elim (admissible r) [
    | err x ↦ (m, err x)
    | ok u ↦ (record m { local_cache = keep_winner r m.local_cache }, ok tt)
  ]

  unfoldable pub resolve_local : Str → NamingManager → Option NameRecord
  resolve_local name m =
      let hash = lib.name_to_hash name in
      elim (Map.get hash m.owned_names) [ none ↦ Map.get hash m.local_cache | some r ↦ some r ]

  unfoldable pub invalidate_cache : Str → NamingManager → NamingManager
  invalidate_cache name m = record m {
    local_cache = Map.remove (lib.name_to_hash name) m.local_cache;
  }

  -- `to_json` is `serde_json::to_vec` of an entry.
  unfoldable pub create_service_entry :
      (ServiceRegistryEntry → Option Str)
      → ℕ
      → ServiceType
      → Str
      → List Str
      → ℕ
      → lib.Keypair
      → Result NamingError ServiceRegistryEntry
  create_service_entry to_json unix service_type peer_id multiaddrs reputation keypair =
      let entry : ServiceRegistryEntry = record {
        service_type = service_type;
        peer_id = peer_id;
        multiaddrs = multiaddrs;
        reputation = reputation;
        registered_at = unix;
        last_heartbeat = unix;
        signature = [];
      } in
      do
        text ← ok_or serialization_error (to_json entry)
        sig ← ok_or signing_failed (lib.sign keypair text)
        ok (record entry { signature = lib.to_hex sig })

-- The registry of the name, a new one if there is none, is changed.
unfoldable pub change_registry :
    ℕ → Str → (ServiceRegistry → ServiceRegistry) → NamingManager → NamingManager
change_registry unix name change m =
    let g : ServiceRegistry = elim (Map.get name m.service_registries) [
      | none ↦ new_registry unix name
      | some g ↦ g
    ] in
    record m { service_registries = Map.insert name (change g) m.service_registries }

unfoldable pub prune_all_registries : ℕ → NamingManager → NamingManager
prune_all_registries unix m = record m {
  service_registries = map (λ e. (e.0, prune_stale unix e.1)) m.service_registries;
}
