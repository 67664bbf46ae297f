-- ===== src/Cache/Lru.antt =====
-- Which entries `set_with_ttl` evicts.
use shadowmesh.Base.{
  refl, Option, ltb, leb, ◌==◌, ◌<◌, ◌⊎◌, if◌then◌else◌, Bool-cases, sym, ◌∙◌, ℕ, ◌+◌, ◌≤◌, ◌≡◌,
  ◌≢◌, true, not, none, some, [], ◌∷◌, arith, Str, str_eq, Option-cases, inl, inr, str_beq_iff,
}
use shadowmesh.Base.Map
use shadowmesh.Base.Map.{
  Map, size, Distinct, contains_key, get-insert, get-remove, get-retain, size-insert, size-remove,
}
use shadowmesh.Cache.{
  CacheEntry, is_expired, ContentCache, evict_expired, lru, drop_expired, drop_lru, make_room,
  set_with_ttl,
}
use shadowmesh.Cache.Laws.{lru_present, lru-none, drop_expired-Distinct}

lru_least :
    (m : Map Str CacheEntry) (k : Str) (e : CacheEntry) (j : Str) (f : CacheEntry)
    → lru m ≡ some (k, e)
    → Map.get j m ≡ some f
    → e.last_accessed ≤ f.last_accessed
unfolding lru Map.get
lru_least [] k e j f h g = cc
lru_least ((i, x) ∷ m) k e j f h g = elim (Option-cases (lru m)) [
  | inl n ↦ ground (arith, n, lru-none m n)
  | inr ((k', e'), s) ↦ ground (arith, s, lru_least m k' e' j f s)
]

-- The entries that have not expired, and how many there are.
abbrev unexpired : ℕ → Option CacheEntry → Option CacheEntry
unexpired now none = none
unexpired now (some e) = if is_expired now e then none else some e

abbrev unexpired_count : ℕ → Map Str CacheEntry → ℕ
unexpired_count now [] = 0
unexpired_count now ((k, e) ∷ m) = (if is_expired now e then 0 else 1) + unexpired_count now m

-- What is left, before any other entry goes, of a cache that drops the expired ones when it is full.
abbrev survivor : ℕ → ContentCache → Str → Option CacheEntry
survivor now c j =
    if ltb (size c.table) c.max_entries
    then Map.get j c.table
    else unexpired now (Map.get j c.table)

abbrev survivor_count : ℕ → ContentCache → ℕ
survivor_count now c =
    if ltb (size c.table) c.max_entries then size c.table else unexpired_count now c.table

abbrev IsNoNewer : CacheEntry → Option CacheEntry → Type 0
IsNoNewer v none = Unit
IsNoNewer v (some w) = v.last_accessed ≤ w.last_accessed

-- What the table reads after an insertion: with room for one more, all that was left and the new
-- entry; without, also one entry fewer, which was used no later than any other.
abbrev pub IsAfterSet : ℕ → Str → CacheEntry → ContentCache → Map Str CacheEntry → Type 0
IsAfterSet now cid e c m =
    ((survivor_count now c < c.max_entries)
      × ((j : Str) → Map.get j m ≡ (if cid == j then some e else survivor now c j)))
    ⊎ ((c.max_entries ≤ survivor_count now c)
        × ((k : Str) × (v : CacheEntry) × (survivor now c k ≡ some v)
            × ((j : Str) → IsNoNewer v (survivor now c j))
            × ((j : Str)
                → Map.get j m
                  ≡ (if cid == j then some e else if k == j then none else survivor now c j))))

size-retain_unexpired :
    (now : ℕ) (m : Map Str CacheEntry)
    → size (Map.retain (λ e. not (is_expired now e)) m) ≡ unexpired_count now m
unfolding Map.retain
size-retain_unexpired now [] = refl
size-retain_unexpired now ((k, e) ∷ m) = ground (arith, size-retain_unexpired now m)

get-drop_expired :
    (now : ℕ) (c : ContentCache) (j : Str)
    → Distinct c.table
    → Map.get j (drop_expired now c.max_entries c.table) ≡ survivor now c j
unfolding drop_expired evict_expired
get-drop_expired now c j d = elim (Option-cases (Map.get j c.table)) [
  | inl n ↦ ground (arith, n, get-retain (λ e. not (is_expired now e)) j c.table d)
  | inr (v, s) ↦ ground (arith, s, get-retain (λ e. not (is_expired now e)) j c.table d)
]

survivor_count_lem :
    (now : ℕ) (c : ContentCache)
    → size (drop_expired now c.max_entries c.table) ≡ survivor_count now c
unfolding drop_expired evict_expired
survivor_count_lem now c = ground (arith, size-retain_unexpired now c.table)

no_newer :
    (v : CacheEntry) (o : Option CacheEntry)
    → ((w : CacheEntry) → o ≡ some w → v.last_accessed ≤ w.last_accessed)
    → IsNoNewer v o
no_newer v none h = tt
no_newer v (some w) h = h w refl

-- What an insertion does to the whole table. A cache that is full first drops its expired entries. If
-- there is room then, every other entry that was left stays as it was. If there is not, exactly one
-- entry that was left goes, and none of those left was accessed before it; every other entry stays as
-- it was. The key that is set reads the new entry, also when its old entry was the one to go. (The
-- capacity is one at least, and no key stands twice in the table.)
pub set_with_ttl-IsAfterSet :
    (now : ℕ) (cid content content_type : Str) (ttl : ℕ) (c : ContentCache)
    → Distinct c.table
    → 0 < c.max_entries
    → IsAfterSet now cid
        (record {
          content = content;
          content_type = content_type;
          created_at = now;
          last_accessed = now;
          ttl = ttl;
        })
        c
        (set_with_ttl now cid content content_type ttl c).table
unfolding set_with_ttl make_room drop_lru
set_with_ttl-IsAfterSet now cid content content_type ttl c d pos =
    let m = drop_expired now c.max_entries c.table in
    let reads = λ (j : Str). get-drop_expired now c j d in
    let counted = survivor_count_lem now c in
    elim (Bool-cases (leb c.max_entries (size m))) [
      | inr room ↦
          rw room
            (inl (ground (arith, counted, room), λ j. rw (get-insert cid j _ m, reads j) refl))
      | inl full ↦ elim (Option-cases (lru m)) [
        | inl n ↦ absurd (ground (arith, lru-none m n, full, pos))
        | inr ((k, v), s) ↦
            rw (full, s)
              (inr (
                ground (arith, counted, full),
                (
                  k,
                  v,
                  sym (reads k)
                      ∙ lru_present m k v (drop_expired-Distinct now c.max_entries c.table d) s,
                  λ j. no_newer v (survivor now c j) (λ w h. lru_least m k v j w s (reads j ∙ h)),
                  λ j. rw (get-insert cid j _ (Map.remove k m), get-remove k j m, reads j) refl,
                ),
              ))
      ]
    ]

-- Setting a key that is there already needs no room, yet a full cache with nothing expired loses
-- its least recently used entry, when that is another one: it ends one entry below its capacity.
pub set_existing_evicts :
    (now : ℕ) (cid content content_type : Str) (ttl : ℕ) (c : ContentCache) (j : Str)
    (v : CacheEntry)
    → Distinct c.table
    → size c.table ≡ c.max_entries
    → evict_expired now c.table ≡ c.table
    → lru c.table ≡ some (j, v)
    → j ≢ cid
    → contains_key cid c.table ≡ true
    → (Map.get j (set_with_ttl now cid content content_type ttl c).table ≡ none)
      × (size (set_with_ttl now cid content content_type ttl c).table + 1 ≡ c.max_entries)
unfolding set_with_ttl make_room drop_expired drop_lru
set_existing_evicts now cid content content_type ttl c j v d full fresh least nj there =
    let room = Map.remove j c.table in
    let e : CacheEntry = record {
      content = content;
      content_type = content_type;
      created_at = now;
      last_accessed = now;
      ttl = ttl;
    } in
    ground (
      arith,
      fresh,
      least,
      lru_present c.table j v d least,
      get-insert cid j e room,
      get-remove j j c.table,
      get-remove j cid c.table,
      size-insert cid e room,
      size-remove j c.table d,
      str_beq_iff cid j,
      str_beq_iff j cid,
      str_beq_iff j j,
    )
