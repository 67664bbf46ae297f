-- ===== src/Kv.antt =====
-- gateway/src/kv_store.rs: `KvStore`, the values of deployed applications by namespace and key. A call
-- is one step. The copies that are sent to Redis in the background, and never read back, are left
-- out; times are in nanoseconds.
pub mod Fits
pub mod Bounds
pub mod Reads
mod Examples
use shadowmesh.Base.{
  ℕ, ◌+◌, ◌*◌, ◌≡◌, Bool, true, false, not, ◌&&◌, Option, none, some, List, [], ◌∷◌, Str, str_eq,
  ltb, leb, length, map, filter, if◌then◌else◌,
}
use shadowmesh.Base.Map
use shadowmesh.Base.Map.{Map, size, contains_key}
use shadowmesh.Base.Results.{Result, ok, err}
use shadowmesh.Cid.{starts_with}

abbrev pub default_max_namespaces : ℕ
default_max_namespaces = 10_000

pub record KvConfig : Type 0 where
  pub max_keys_per_namespace : ℕ
  pub max_value_size_bytes : ℕ
  pub max_namespaces : ℕ

pub record KvEntry : Type 0 where
  pub value : Str
  pub expires_at : Option ℕ

abbrev pub is_expired : ℕ → KvEntry → Bool
is_expired now e = elim e.expires_at [ none ↦ false | some t ↦ ltb t now ]

pub record KvStore : Type 0 where
  pub namespaces : Map Str (Map Str KvEntry)
  pub config : KvConfig

pub data KvError : Type 0 where
  value_too_large namespace_limit key_limit : KvError

abbrev pub new : KvConfig → KvStore
new config = record { namespaces = []; config = config }

abbrev pub with_namespace : Str → Map Str KvEntry → KvStore → KvStore
with_namespace namespace ns s = record s { namespaces = Map.insert namespace ns s.namespaces }

-- An expired entry is removed when it is read.
abbrev pub get_in :
    ℕ → Str → Str → KvStore → Map Str KvEntry → Option KvEntry → KvStore × Option Str
get_in now namespace key s ns none = (s, none)
get_in now namespace key s ns (some e) =
    if is_expired now e
    then (with_namespace namespace (Map.remove key ns) s, none)
    else (s, some e.value)

unfoldable pub get : ℕ → Str → Str → KvStore → KvStore × Option Str
get now namespace key s = elim (Map.get namespace s.namespaces) [
  | none ↦ (s, none)
  | some ns ↦ get_in now namespace key s ns (Map.get key ns)
]

abbrev pub or_empty : Option (Map Str KvEntry) → Map Str KvEntry
or_empty none = []
or_empty (some ns) = ns

-- `Instant::now() + Duration::from_secs(s)`, in nanoseconds. The code panics where the sum is beyond
-- the last `Instant` of the platform; here it has no bound.
abbrev pub expiry : ℕ → Option ℕ → Option ℕ
expiry now none = none
expiry now (some secs) = some (now + secs * 1_000_000_000)

-- Once the namespace is there: a new key needs room.
unfoldable pub put_in :
    ℕ → Str → Str → Str → Option ℕ → Map Str KvEntry → KvStore → KvStore × Result KvError (Unit {0})
put_in now namespace key value ttl_secs ns s =
    if not (contains_key key ns) && leb s.config.max_keys_per_namespace (size ns)
    then (with_namespace namespace ns s, err key_limit)
    else (
      with_namespace namespace
          (Map.insert key (record { value = value; expires_at = expiry now ttl_secs }) ns) s,
      ok tt,
    )

unfoldable pub put : ℕ → Str → Str → Str → Option ℕ → KvStore → KvStore × Result KvError (Unit {0})
put now namespace key value ttl_secs s =
    if ltb s.config.max_value_size_bytes (length value)
    then (s, err value_too_large)
    else if not (contains_key namespace s.namespaces)
        && leb s.config.max_namespaces (size s.namespaces)
    then (s, err namespace_limit)
    else put_in now namespace key value ttl_secs (or_empty (Map.get namespace s.namespaces)) s

unfoldable pub delete : Str → Str → KvStore → KvStore × Bool
delete namespace key s = elim (Map.get namespace s.namespaces) [
  | none ↦ (s, false)
  | some ns ↦ (with_namespace namespace (Map.remove key ns) s, contains_key key ns)
]

abbrev pub has_prefix : Option Str → Str → Bool
has_prefix none key = true
has_prefix (some p) key = starts_with p key

unfoldable pub list_keys : ℕ → Str → Option Str → KvStore → List Str
list_keys now namespace prefix s =
    map (λ e. e.0)
      (filter (λ e. not (is_expired now e.1) && has_prefix prefix e.0)
        (or_empty (Map.get namespace s.namespaces)))

unfoldable pub namespace_size : Str → KvStore → ℕ
namespace_size namespace s = size (or_empty (Map.get namespace s.namespaces))

abbrev pub live : ℕ → Map Str KvEntry → Map Str KvEntry
live now ns = Map.retain (λ e. not (is_expired now e)) ns

unfoldable pub cleanup_expired : ℕ → KvStore → KvStore
cleanup_expired now s = record s { namespaces = Map.change_values (live now) s.namespaces }

pub data Call : Type 0 where
  gets deletes : Str → Str → Call
  puts : Str → Str → Str → Option ℕ → Call
  cleans : Call

unfoldable pub step : KvStore → ℕ × Call → KvStore
step s (now, gets namespace key) = (get now namespace key s).0
step s (now, deletes namespace key) = (delete namespace key s).0
step s (now, puts namespace key value ttl_secs) = (put now namespace key value ttl_secs s).0
step s (now, cleans) = cleanup_expired now s

unfoldable pub run : KvStore → List (ℕ × Call) → KvStore
unfolding step
run s [] = s
run s (x ∷ xs) = run (step s x) xs
