-- ===== src/Naming/Lookup.antt =====
-- What the resolver of names keeps, and for how long.
use shadowmesh.Base.{
  str_beq_refl, ℕ, zero, suc, ◌+◌, ◌-◌, ◌*◌, ◌≤◌, ◌<◌, ◌≡◌, refl, ap, sym, subst, ◌∙◌, true, false,
  none, some, [], ◌∷◌, arith, Str, str_eq, ◌==◌, ltb, leb, min_ℕ, Bool-cases, Option-cases, inl,
  inr,
}
use shadowmesh.Base.Map
use shadowmesh.Base.Map.{
  Map, Distinct, size, size-insert, size-remove, remove-Distinct, insert-Distinct, get-insert_self,
  contains_key,
}
use shadowmesh.Base.Results.{is_ok}
use shadowmesh.Naming.Types.{
  Libraries, NameRecord, validate_record, verify_record, is_revoked, max_name_ttl,
}
use shadowmesh.Naming.Resolver.{
  NameResolver, CachedEntry, is_expired, found, not_found, look_up, resolve, older, oldest,
  evict_on, evict_if_needed, missed, remember, settle, is_verified, process_record,
  process_dht_result, fresh_entry,
}

contains_later :
    (k : Str) (f : Str × CachedEntry) (m : Map Str CachedEntry)
    → contains_key k m ≡ true
    → contains_key k (f ∷ m) ≡ true
unfolding Map.get
contains_later k f m h = elim (Bool-cases (f.0 == k)) [
  | inl same ↦ rw same refl
  | inr other ↦ rw other h
]

contains_here : (f : Str × CachedEntry) (m : Map Str CachedEntry) → contains_key f.0 (f ∷ m) ≡ true
unfolding Map.get
contains_here f m = rw (str_beq_refl f.0) refl

oldest-contains_key :
    (m : Map Str CachedEntry) (e : Str × CachedEntry)
    → oldest m ≡ some e
    → contains_key e.0 m ≡ true
unfolding oldest
oldest-contains_key [] e h = cc h
oldest-contains_key (f ∷ m) e h = elim (Option-cases (oldest m)) [
  | inl alone ↦
      let won : older f none ≡ some e = sym (ap (older f) alone) ∙ h in
      let it : f ≡ e = cc won in subst (λ x. contains_key x.0 (f ∷ m) ≡ true) it (contains_here f m)
  | inr (g, rest) ↦
      let made : older f (some g) ≡ some e = sym (ap (older f) rest) ∙ h in
      elim (Bool-cases (leb f.1.cached_at g.1.cached_at)) [
        | inl le ↦
            let won : older f (some g) ≡ some f = rw le refl in
            let it : f ≡ e = cc (won, made) in
            subst (λ x. contains_key x.0 (f ∷ m) ≡ true) it (contains_here f m)
        | inr gt ↦
            let won : older f (some g) ≡ some g = rw gt refl in
            let it : g ≡ e = cc (won, made) in
            subst (λ x. contains_key x.0 (f ∷ m) ≡ true) it
              (contains_later g.0 f m (oldest-contains_key m g rest))
      ]
]

-- Something is there to be evicted.
oldest-some : (m : Map Str CachedEntry) → 0 < size m → (e : Str × CachedEntry) × (oldest m ≡ some e)
unfolding oldest
oldest-some [] h = absurd (omega (arith, h))
oldest-some (f ∷ m) h = elim (Option-cases (oldest m)) [
  | inl alone ↦ (f, rw alone refl)
  | inr (g, rest) ↦ elim (Bool-cases (leb f.1.cached_at g.1.cached_at)) [
    | inl le ↦ (f, rw (rest, le) refl)
    | inr gt ↦ (g, rw (rest, gt) refl)
  ]
]

evict_on_lem :
    (turns max : ℕ) (m : Map Str CachedEntry)
    → Distinct m
    → size m ≤ turns
    → size (evict_on turns max m) ≡ min_ℕ (size m) max
unfolding evict_on
evict_on_lem zero max m d h = ground (arith, h)
evict_on_lem (suc turns) max m d h = elim (Bool-cases (ltb max (size m))) [
  | inr fits ↦ rw fits (ground (arith, fits))
  | inl over ↦
      let (e, least) = oldest-some m (ground (arith, over)) in
      let there = oldest-contains_key m e least in
      let fewer : size (Map.remove e.0 m) + 1 ≡ size m =
        ground (arith, size-remove e.0 m d, there) in
      rw (over, least)
        (evict_on_lem turns max (Map.remove e.0 m) (remove-Distinct e.0 m d)
            (omega (arith, fewer, h))
          ∙ ground (arith, fewer, over))
]

evict_on_fits : (turns max : ℕ) (m : Map Str CachedEntry) → size m ≤ max → evict_on turns max m ≡ m
unfolding evict_on
evict_on_fits zero max m h = refl
evict_on_fits (suc turns) max m h =
    let fits : ltb max (size m) ≡ false = ground (arith, h) in rw fits refl

-- The loop that evicts comes to an end within as many turns as there are entries, and removes no more
-- than it must: there are as many entries as before or `max_entries`, whichever is less. (A name is in
-- the cache once.)
pub size-evict_if_needed :
    (v : NameResolver)
    → Distinct v.positive_cache
    → size (evict_if_needed v).positive_cache ≡ min_ℕ (size v.positive_cache) v.max_entries
unfolding evict_if_needed
size-evict_if_needed v d =
    evict_on_lem (size v.positive_cache) v.max_entries v.positive_cache d (omega arith)

-- With room, what is remembered is found until its time has passed.
look_up-remember :
    (now later : ℕ) (hash : Str) (r : NameRecord) (v : NameResolver)
    → size v.positive_cache < v.max_entries
    → later - now ≤ min_ℕ r.ttl_seconds max_name_ttl * 1_000_000_000
    → look_up later hash (remember now hash r v).0 ≡ found r
unfolding look_up remember evict_if_needed
look_up-remember now later hash r v room soon =
    let cache = Map.insert hash (fresh_entry now r) v.positive_cache in
    let stays : evict_on (size cache) v.max_entries cache ≡ cache =
      evict_on_fits (size cache) v.max_entries cache
        (ground (arith, size-insert hash (fresh_entry now r) v.positive_cache, room)) in
    let alive : is_expired later (fresh_entry now r) ≡ false = ground (arith, soon) in
    rw (stays, look_up, get-insert_self hash (fresh_entry now r) v.positive_cache, alive) refl

module _ (lib : Libraries) where
  -- The checks of a record that a lookup brings.
  pub record IsSound (text : Str) (r : NameRecord) : Type 0 where
    pub reads : lib.from_json text ≡ some r
    pub valid : is_ok (validate_record lib r) ≡ true
    pub verified : is_verified (verify_record lib r) ≡ true

  process_dht_result-settle :
      (now : ℕ) (name text : Str) (r : NameRecord) (v : NameResolver)
      → IsSound text r
      → is_revoked r ≡ false
      → process_dht_result lib now name (some text) v ≡ settle now (lib.name_to_hash name) r v
  unfolding process_dht_result process_record
  process_dht_result-settle now name text r v s alive =
      rw (process_dht_result, s.reads, process_record, s.valid, s.verified, alive) refl

  -- A lookup in the DHT that brings a sound record, of whatever name, settles the name that was asked
  -- for: the answer is this record, and so is the answer to every later question until its time to live
  -- has passed. (The cache has room and nothing for the name.)
  pub resolve-process_dht_result :
      (now later : ℕ) (name text : Str) (r : NameRecord) (v : NameResolver)
      → IsSound text r
      → is_revoked r ≡ false
      → Map.get (lib.name_to_hash name) v.positive_cache ≡ none
      → size v.positive_cache < v.max_entries
      → later - now ≤ min_ℕ r.ttl_seconds max_name_ttl * 1_000_000_000
      → ((process_dht_result lib now name (some text) v).1 ≡ found r)
        × (resolve lib later name (process_dht_result lib now name (some text) v).0 ≡ found r)
  unfolding resolve settle remember
  resolve-process_dht_result now later name text r v s alive free room soon =
      let made : process_dht_result lib now name (some text) v
          ≡ remember now (lib.name_to_hash name) r v =
        process_dht_result-settle now name text r v s alive ∙ rw (settle, free) refl in
      rw made (refl, look_up-remember now later (lib.name_to_hash name) r v room soon)

  -- A revocation that a lookup brings does not reach the cache: the lookup answers that there is no
  -- such name, and the next question still gets the record that was revoked, as long as its time to
  -- live has not passed.
  pub resolve-revoked :
      (now later : ℕ) (name text : Str) (r : NameRecord) (e : CachedEntry) (v : NameResolver)
      → IsSound text r
      → is_revoked r ≡ true
      → Map.get (lib.name_to_hash name) v.positive_cache ≡ some e
      → is_expired later e ≡ false
      → ((process_dht_result lib now name (some text) v).1 ≡ not_found)
        × (resolve lib later name (process_dht_result lib now name (some text) v).0
            ≡ found e.name_record)
  unfolding process_dht_result process_record resolve look_up
  resolve-revoked now later name text r e v s gone there alive =
      let made : process_dht_result lib now name (some text) v
          ≡ missed now (lib.name_to_hash name) v =
        rw (process_dht_result, s.reads, process_record, s.valid, s.verified, gone) refl in
      rw made (refl, rw (look_up, there, alive) refl)
