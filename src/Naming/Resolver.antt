-- ===== src/Naming/Resolver.antt =====
-- `NameResolver` of protocol/src/naming.rs: what names were found to be, and which were not found.
-- Times are in nanoseconds; `now` is the same for the whole of a call.
use shadowmesh.Base.{
  ℕ, zero, suc, ◌-◌, ◌*◌, Bool, false, not, Option, none, some, [], ◌∷◌, Str, ltb, leb,
  if◌then◌else◌, min_ℕ, str_eq,
}
use shadowmesh.Base.Map
use shadowmesh.Base.Map.{Map, size}
use shadowmesh.Base.Results.{Result, ok, err, is_ok}
use shadowmesh.Naming.Types.{
  Libraries, NamingError, NameRecord, verify_record, validate_record, first_wins, is_revoked,
  max_cache_entries, max_name_ttl, negative_cache_ttl,
}

pub record CachedEntry : Type 0 where
  pub name_record : NameRecord
  pub cached_at : ℕ
  pub ttl : ℕ

abbrev pub is_expired : ℕ → CachedEntry → Bool
is_expired now e = ltb e.ttl (now - e.cached_at)

pub data ResolveResult : Type 0 where
  found : NameRecord → ResolveResult
  not_found cache_miss : ResolveResult

pub record NameResolver : Type 0 where
  pub positive_cache : Map Str CachedEntry
  pub negative_cache : Map Str ℕ
  pub max_entries : ℕ

abbrev pub with_capacity : ℕ → NameResolver
with_capacity max_entries = record {
  positive_cache = [];
  negative_cache = [];
  max_entries = max_entries;
}

abbrev pub new : NameResolver
new = with_capacity max_cache_entries

abbrev pub from_negative : ℕ → Option ℕ → ResolveResult
from_negative now none = cache_miss
from_negative now (some cached_at) =
    if ltb (now - cached_at) negative_cache_ttl then not_found else cache_miss

unfoldable pub look_up : ℕ → Str → NameResolver → ResolveResult
look_up now hash v = elim (Map.get hash v.positive_cache) [
  | none ↦ from_negative now (Map.get hash v.negative_cache)
  | some e ↦
      if not (is_expired now e)
      then found e.name_record
      else from_negative now (Map.get hash v.negative_cache)
]

-- `min_by_key` on `cached_at`: the first of the least.
abbrev pub older : Str × CachedEntry → Option (Str × CachedEntry) → Option (Str × CachedEntry)
older e none = some e
older e (some f) = if leb e.1.cached_at f.1.cached_at then some e else some f

unfoldable pub oldest : Map Str CachedEntry → Option (Str × CachedEntry)
oldest [] = none
oldest (e ∷ m) = older e (oldest m)

-- `evict_if_needed`: each turn removes an entry, so as many turns as entries are enough.
unfoldable pub evict_on : ℕ → ℕ → Map Str CachedEntry → Map Str CachedEntry
evict_on zero max m = m
evict_on (suc turns) max m =
    if ltb max (size m)
    then elim (oldest m) [ none ↦ m | some e ↦ evict_on turns max (Map.remove e.0 m) ]
    else m

unfoldable pub evict_if_needed : NameResolver → NameResolver
evict_if_needed v = record v {
  positive_cache = evict_on (size v.positive_cache) v.max_entries v.positive_cache;
}

-- A name that is not found is remembered as such.
abbrev pub missed : ℕ → Str → NameResolver → NameResolver × ResolveResult
missed now hash v = (record v { negative_cache = Map.insert hash now v.negative_cache }, not_found)

abbrev pub fresh_entry : ℕ → NameRecord → CachedEntry
fresh_entry now r = record {
  name_record = r;
  cached_at = now;
  ttl = min_ℕ r.ttl_seconds max_name_ttl * 1_000_000_000;
}

unfoldable pub remember : ℕ → Str → NameRecord → NameResolver → NameResolver × ResolveResult
remember now hash r v = (
  evict_if_needed (record v {
    positive_cache = Map.insert hash (fresh_entry now r) v.positive_cache;
    negative_cache = Map.remove hash v.negative_cache;
  }),
  found r,
)

-- Once the record is read, valid, verified and not revoked.
unfoldable pub settle : ℕ → Str → NameRecord → NameResolver → NameResolver × ResolveResult
settle now hash r v = elim (Map.get hash v.positive_cache) [
  | none ↦ remember now hash r v
  | some existing ↦
      if first_wins existing.name_record r
      then (v, found existing.name_record)
      else remember now hash r v
]

abbrev pub is_verified : Result NamingError Bool → Bool
is_verified (ok b) = b
is_verified (err x) = false

module _ (lib : Libraries) where
  unfoldable pub resolve : ℕ → Str → NameResolver → ResolveResult
  resolve now name v = look_up now (lib.name_to_hash name) v

  unfoldable pub process_record : ℕ → Str → NameRecord → NameResolver → NameResolver × ResolveResult
  process_record now hash r v =
      if not (is_ok (validate_record lib r))
      then missed now hash v
      else if not (is_verified (verify_record lib r))
      then missed now hash v
      else if is_revoked r
      then missed now hash v
      else settle now hash r v

  unfoldable pub process_dht_result :
      ℕ → Str → Option Str → NameResolver → NameResolver × ResolveResult
  process_dht_result now name none v = missed now (lib.name_to_hash name) v
  process_dht_result now name (some text) v = elim (lib.from_json text) [
    | none ↦ missed now (lib.name_to_hash name) v
    | some r ↦ process_record now (lib.name_to_hash name) r v
  ]

  unfoldable pub invalidate : Str → NameResolver → NameResolver
  invalidate name v = record v {
    positive_cache = Map.remove (lib.name_to_hash name) v.positive_cache;
    negative_cache = Map.remove (lib.name_to_hash name) v.negative_cache;
  }

unfoldable pub cleanup_expired : ℕ → NameResolver → NameResolver
cleanup_expired now v = record v {
  positive_cache = Map.retain (λ e. not (is_expired now e)) v.positive_cache;
  negative_cache =
      Map.retain (λ cached_at. ltb (now - cached_at) negative_cache_ttl) v.negative_cache;
}
