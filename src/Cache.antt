-- ===== src/Cache.antt =====
-- gateway/src/cache.rs: the content cache of the gateway. Times are numbers of one unit, and the
-- clock of a call is an argument. `poisoned` says that a writer has panicked with the lock held.
pub mod Laws
pub mod Lru
mod Examples
use shadowmesh.Base.{
  ℕ, ◌+◌, ◌-◌, Bool, true, false, not, Option, none, some, List, [], ◌∷◌, leb, ltb, Str, str_eq,
  if◌then◌else◌, length, filter, map,
}
use shadowmesh.Base.Map
use shadowmesh.Base.Map.{Map, size}

pub record CacheEntry : Type 0 where
  pub content : Str
  pub content_type : Str
  pub created_at : ℕ
  pub last_accessed : ℕ
  pub ttl : ℕ

abbrev pub is_expired : ℕ → CacheEntry → Bool
is_expired now e = ltb e.ttl (now - e.created_at)

pub record ContentCache : Type 0 where
  pub table : Map Str CacheEntry
  pub poisoned : Bool
  pub max_entries : ℕ
  pub default_ttl : ℕ

abbrev pub with_config : ℕ → ℕ → ContentCache
with_config max_entries default_ttl = record {
  table = [];
  poisoned = false;
  max_entries = max_entries;
  default_ttl = default_ttl;
}

-- Seconds, an hour.
abbrev pub new : ContentCache
new = with_config 1000 3600

abbrev pub access : ℕ → CacheEntry → CacheEntry
access now e = record e { last_accessed = now }

get_entry : ℕ → Str → ContentCache → Option CacheEntry → ContentCache × Option (Str × Str)
get_entry now cid c none = (c, none)
get_entry now cid c (some e) = if is_expired now e then (c, none) else (
  record c { table = Map.adjust cid (access now) c.table },
  some (e.content, e.content_type),
)

unfoldable pub get : ℕ → Str → ContentCache → ContentCache × Option (Str × Str)
unfolding get_entry
get now cid c = if c.poisoned then (c, none) else get_entry now cid c (Map.get cid c.table)

unfoldable pub evict_expired : ℕ → Map Str CacheEntry → Map Str CacheEntry
evict_expired now entries = Map.retain (λ e. not (is_expired now e)) entries

abbrev pub older : Str × CacheEntry → Option (Str × CacheEntry) → Option (Str × CacheEntry)
older (k, e) none = some (k, e)
older (k, e) (some (j, f)) =
    if leb e.last_accessed f.last_accessed then some (k, e) else some (j, f)

-- `iter().min_by_key(|(_, v)| v.last_accessed)`: the first of the least.
unfoldable pub lru : Map Str CacheEntry → Option (Str × CacheEntry)
lru [] = none
lru ((k, e) ∷ m) = older (k, e) (lru m)

remove_lru : Map Str CacheEntry → Option (Str × CacheEntry) → Map Str CacheEntry
remove_lru entries none = entries
remove_lru entries (some (k, e)) = Map.remove k entries

-- The two evictions that come before an insertion, each made only at capacity.
unfoldable pub drop_expired : ℕ → ℕ → Map Str CacheEntry → Map Str CacheEntry
drop_expired now max_entries m = if leb max_entries (size m) then evict_expired now m else m

unfoldable pub drop_lru : ℕ → Map Str CacheEntry → Map Str CacheEntry
unfolding remove_lru
drop_lru max_entries m = if leb max_entries (size m) then remove_lru m (lru m) else m

unfoldable pub make_room : ℕ → ℕ → Map Str CacheEntry → Map Str CacheEntry
make_room now max_entries m = drop_lru max_entries (drop_expired now max_entries m)

unfoldable pub set_with_ttl : ℕ → Str → Str → Str → ℕ → ContentCache → ContentCache
set_with_ttl now cid content content_type ttl c =
    let entry : CacheEntry = record {
      content = content;
      content_type = content_type;
      created_at = now;
      last_accessed = now;
      ttl = ttl;
    } in
    record c { table = Map.insert cid entry (make_room now c.max_entries c.table) }

unfoldable pub set : ℕ → Str → Str → Str → ContentCache → ContentCache
unfolding set_with_ttl
set now cid content content_type c = set_with_ttl now cid content content_type c.default_ttl c

unfoldable pub remove : Str → ContentCache → ContentCache
remove cid c = if c.poisoned then c else record c { table = Map.remove cid c.table }

unfoldable pub clear_expired : ℕ → ContentCache → ContentCache
clear_expired now c = if c.poisoned then c else record c { table = evict_expired now c.table }

unfoldable pub entries : ℕ → ContentCache → List (Str × ℕ × Str)
entries now c =
    if c.poisoned
    then []
    else map (λ e. (e.0, length e.1.content, e.1.content_type))
        (filter (λ e. not (is_expired now e.1)) c.table)

pub record CacheStats : Type 0 where
  pub total_entries : ℕ
  pub expired_entries : ℕ
  pub max_entries : ℕ

unfoldable pub stats : ℕ → ContentCache → CacheStats
stats now c = record {
  total_entries = if c.poisoned then 0 else size c.table;
  expired_entries = if c.poisoned then 0 else length (filter (λ e. is_expired now e.1) c.table);
  max_entries = c.max_entries;
}

pub data Call : Type 0 where
  gets removes : Str → Call
  sets : Str → Str → Str → ℕ → Call
  clears : Call

unfoldable pub step : ContentCache → ℕ × Call → ContentCache
step c (now, gets cid) = (get now cid c).0
step c (now, removes cid) = remove cid c
step c (now, sets cid content content_type ttl) = set_with_ttl now cid content content_type ttl c
step c (now, clears) = clear_expired now c

unfoldable pub run : ContentCache → List (ℕ × Call) → ContentCache
unfolding step
run c [] = c
run c (x ∷ xs) = run (step c x) xs
