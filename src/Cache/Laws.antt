-- ===== src/Cache/Laws.antt =====
-- What the cache holds and what it answers.
use shadowmesh.Base.{
  ℕ, ◌+◌, ◌-◌, ◌≤◌, ◌≡◌, refl, not, none, some, List, [], ◌∷◌, arith, leb, Str, str_eq,
  if◌then◌else◌, max_ℕ, Option-cases, inl, inr, str_beq_iff, ◌&&◌,
}
use shadowmesh.Base.Map
use shadowmesh.Base.Map.{
  Map, size, Distinct, contains_key, get-insert, get-insert_self, get-remove, get-retain,
  retain-Distinct, size-retain-le, remove-Distinct, insert-Distinct, adjust-Distinct, size-insert,
  size-remove, size-adjust,
}
use shadowmesh.Cache.{
  CacheEntry, is_expired, ContentCache, with_config, access, drop_expired, drop_lru, get,
  evict_expired, lru, make_room, set_with_ttl, remove, clear_expired, Call, gets, removes, sets,
  clears, step, run,
}

pub lru_present :
    (m : Map Str CacheEntry) (k : Str) (e : CacheEntry)
    → Distinct m
    → lru m ≡ some (k, e)
    → Map.get k m ≡ some e
unfolding lru Map.get
lru_present [] k e d h = cc
lru_present ((j, f) ∷ m) k e d h = elim (Option-cases (lru m)) [
  | inl n ↦ ground (arith, n, str_beq_iff j k)
  | inr ((k', e'), s) ↦
      ground (arith, s, lru_present m k' e' d.1, str_beq_iff j k, str_beq_iff j k')
]

pub lru-none : (m : Map Str CacheEntry) → lru m ≡ none → m ≡ []
unfolding lru
lru-none [] h = refl
lru-none ((j, f) ∷ m) h = elim (Option-cases (lru m)) [
  | inl n ↦ ground (arith, n)
  | inr ((k', e'), s) ↦ ground (arith, s)
]

pub drop_expired-Distinct :
    (now n : ℕ) (m : Map Str CacheEntry) → Distinct m → Distinct (drop_expired now n m)
unfolding drop_expired evict_expired
drop_expired-Distinct now n m d = ground (arith, retain-Distinct (λ e. not (is_expired now e)) m d)

drop_lru-Distinct : (n : ℕ) (m : Map Str CacheEntry) → Distinct m → Distinct (drop_lru n m)
unfolding drop_lru
drop_lru-Distinct n m d = elim (Option-cases (lru m)) [
  | inl e ↦ ground (arith, e)
  | inr ((k, e), s) ↦ ground (arith, s, remove-Distinct k m d)
]

-- After the evictions there is room for one more, or the capacity is 0 and nothing is left.
size-drop_lru :
    (n : ℕ) (m : Map Str CacheEntry)
    → Distinct m
    → size m ≤ max_ℕ n 1
    → size (drop_lru n m) + 1 ≤ max_ℕ n 1
unfolding drop_lru
size-drop_lru n m d h = elim (Option-cases (lru m)) [
  | inl e ↦ ground (arith, e, lru-none m e)
  | inr ((k, e), s) ↦ ground (arith, s, size-remove k m d, lru_present m k e d s)
]

pub size-drop_expired : (now n : ℕ) (m : Map Str CacheEntry) → size (drop_expired now n m) ≤ size m
unfolding drop_expired evict_expired
size-drop_expired now n m = ground (arith, size-retain-le (λ e. not (is_expired now e)) m)

-- No key has two entries, and there are at most `max_entries`, or one if that is 0.
pub record IsBounded (c : ContentCache) : Type 0 where
  pub distinct : Distinct c.table
  pub bounded : size c.table ≤ max_ℕ c.max_entries 1

set_with_ttl-IsBounded :
    (now : ℕ) (cid content content_type : Str) (ttl : ℕ) (c : ContentCache)
    → IsBounded c
    → IsBounded (set_with_ttl now cid content content_type ttl c)
unfolding set_with_ttl make_room
set_with_ttl-IsBounded now cid content content_type ttl c v =
    let live = drop_expired now c.max_entries c.table in
    let room = drop_lru c.max_entries live in
    let d = drop_expired-Distinct now c.max_entries c.table v.distinct in
    record {
      distinct = insert-Distinct cid _ room (drop_lru-Distinct c.max_entries live d);
      bounded = ground (
        arith,
        v.bounded,
        size-drop_expired now c.max_entries c.table,
        size-drop_lru c.max_entries live d,
        size-insert cid
            (record {
              content = content;
              content_type = content_type;
              created_at = now;
              last_accessed = now;
              ttl = ttl;
            })
            room,
      );
    }

get-IsBounded : (now : ℕ) (cid : Str) (c : ContentCache) → IsBounded c → IsBounded (get now cid c).0
unfolding get
get-IsBounded now cid c v = ground (
  arith,
  v.distinct,
  v.bounded,
  adjust-Distinct cid (access now) c.table v.distinct,
  size-adjust cid (access now) c.table,
)

step-IsBounded : (c : ContentCache) (now : ℕ) (x : Call) → IsBounded c → IsBounded (step c (now, x))
unfolding step remove clear_expired evict_expired
step-IsBounded c now (gets cid) v = get-IsBounded now cid c v
step-IsBounded c now (removes cid) v = ground (
  arith,
  v.distinct,
  v.bounded,
  remove-Distinct cid c.table v.distinct,
  size-remove cid c.table v.distinct,
)
step-IsBounded c now (sets cid content content_type ttl) v =
    set_with_ttl-IsBounded now cid content content_type ttl c v
step-IsBounded c now clears v = ground (
  arith,
  v.distinct,
  v.bounded,
  retain-Distinct (λ e. not (is_expired now e)) c.table v.distinct,
  size-retain-le (λ e. not (is_expired now e)) c.table,
)

run-IsBounded : (c : ContentCache) (xs : List (ℕ × Call)) → IsBounded c → IsBounded (run c xs)
unfolding run
run-IsBounded c [] v = v
run-IsBounded c ((now, x) ∷ xs) v = run-IsBounded (step c (now, x)) xs (step-IsBounded c now x v)

-- After any calls on a new cache no key has two entries, and there are at most `max_entries` of
-- them, or one if `max_entries` is 0.
pub run-with_config :
    (max_entries default_ttl : ℕ) (xs : List (ℕ × Call))
    → IsBounded (run (with_config max_entries default_ttl) xs)
run-with_config max_entries default_ttl xs =
    run-IsBounded _ xs (record { distinct = tt; bounded = omega arith })

-- What was set is what is read, with its type, until its time to live has passed; from then on, and
-- while the lock is poisoned, nothing is read.
pub get-set_with_ttl :
    (now later : ℕ) (cid content content_type : Str) (ttl : ℕ) (c : ContentCache)
    → (get later cid (set_with_ttl now cid content content_type ttl c)).1
      ≡ (if not c.poisoned && leb (later - now) ttl then some (content, content_type) else none)
unfolding get set_with_ttl
get-set_with_ttl now later cid content content_type ttl c =
    let e : CacheEntry = record {
      content = content;
      content_type = content_type;
      created_at = now;
      last_accessed = now;
      ttl = ttl;
    } in
    ground (arith, get-insert_self cid e (make_room now c.max_entries c.table))
