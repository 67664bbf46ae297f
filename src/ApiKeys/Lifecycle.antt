-- ===== src/ApiKeys/Lifecycle.antt =====
-- Which keys are accepted after they are created, revoked and rotated.
use shadowmesh.Base.{
  ℕ, ◌-◌, ◌≡◌, refl, ap, sym, subst, ◌∙◌, false, ◌&&◌, none, some, [], ◌∷◌, ◌++◌, Str, str_eq, ◌==◌,
  str_beq_refl, ltb, leb, length, if◌then◌else◌, Bool-cases, Option-cases, inl, inr,
}
use shadowmesh.Base.Map
use shadowmesh.Base.Map.{Map, get-insert, get-insert_self, get-remove, get-adjust}
use shadowmesh.Base.Results.{ok, err}
use shadowmesh.ApiKeys.{
  ApiKey, ApiKeyStore, ApiKeyManager, rate_limited, CreateKey, is_valid, add, cached, get_by_hash,
  get_by_id, change_by_id, update_hash, new_key, create_key, get_key, if_valid, validate_key,
  disable, revoke_key, rotate_key, pop_old, minute, creations_per_minute,
}

module _ (hash_key : Str → Str) where
  disabled :
      (later ttl at : ℕ) (k : ApiKey)
      → if_valid hash_key later (cached later ttl (some (disable k, at))) ≡ none
  disabled later ttl at k = elim (Bool-cases (ltb (later - at) ttl)) [
    | inl young ↦ rw young refl
    | inr old ↦ rw old refl
  ]

  -- A revoked key is refused at every later time. (No other call is made in between.)
  pub revoke_key-validate_key :
      (later : ℕ) (id raw_key : Str) (m : ApiKeyManager)
      → Map.get id m.local_store.id_to_hash ≡ some (hash_key raw_key)
      → validate_key hash_key later raw_key (revoke_key hash_key id m).0 ≡ none
  unfolding revoke_key change_by_id validate_key get_by_hash get_by_id
  revoke_key-validate_key later id raw_key m known =
      let h = hash_key raw_key in
      let keys = m.local_store.keys_by_hash in
      elim (Option-cases (Map.get h keys)) [
        | inl free ↦
            let absent : get_by_id id m.local_store ≡ none = rw (get_by_id, known, free) refl in
            rw (revoke_key, absent, free) refl
        | inr (e, there) ↦
            let present : get_by_id id m.local_store ≡ some e.0 =
              rw (get_by_id, known, there) refl in
            let changed : Map.get h (Map.adjust h (λ x. (disable x.0, x.1)) keys)
                ≡ some (disable e.0, e.1) =
              get-adjust h h (λ x. (disable x.0, x.1)) keys ∙ rw (str_beq_refl h, there) refl in
            rw (revoke_key, present, change_by_id, known, changed)
              (disabled later m.local_store.cache_ttl e.1 e.0)
      ]

  -- Once the hash is gone from the store, its key is refused.
  gone :
      (later : ℕ) (raw_key : Str) (m : ApiKeyManager)
      → Map.get (hash_key raw_key) m.local_store.keys_by_hash ≡ none
      → validate_key hash_key later raw_key m ≡ none
  unfolding validate_key get_by_hash
  gone later raw_key m free = rw free refl

  change_absent :
      (f : ApiKey → ApiKey) (id h : Str) (s : ApiKeyStore)
      → Map.get h s.keys_by_hash ≡ none
      → Map.get h (change_by_id f id s).keys_by_hash ≡ none
  unfolding change_by_id
  change_absent f id h s free = elim (Option-cases (Map.get id s.id_to_hash)) [
    | inl unknown ↦ rw (change_by_id, unknown) free
    | inr (g, known) ↦
        rw (change_by_id, known)
          (get-adjust g h (λ e. (f e.0, e.1)) s.keys_by_hash ∙ elim (Bool-cases (g == h)) [
            | inl same ↦ rw (same, free) refl
            | inr other ↦ rw other free
          ])
  ]

  update_absent :
      (now : ℕ) (id old new : Str) (s : ApiKeyStore)
      → (new == old) ≡ false
      → Map.get old (update_hash now id old new s).keys_by_hash ≡ none
  unfolding update_hash
  update_absent now id old new s apart = elim (Option-cases (Map.get old s.keys_by_hash)) [
    | inl free ↦ rw (update_hash, free) free
    | inr (e, there) ↦
        rw (update_hash, there)
          (get-insert new old (e.0, now) (Map.remove old s.keys_by_hash)
            ∙ rw (apart, get-remove old old s.keys_by_hash, str_beq_refl old) refl)
  ]

  -- A key that was rotated is refused at every later time. (Its replacement has another hash, and no
  -- other call is made in between.)
  pub rotate_key-validate_key :
      (now later : ℕ) (id old new : Str) (k : ApiKey) (m : ApiKeyManager)
      → get_key hash_key id m ≡ some k
      → k.key_hash ≡ hash_key old
      → (hash_key new == hash_key old) ≡ false
      → validate_key hash_key later old (rotate_key hash_key now id new m).0 ≡ none
  unfolding rotate_key update_hash change_by_id
  rotate_key-validate_key now later id old new k m known hashed apart =
      rw (rotate_key, known)
        (gone later old _ (
          change_absent (λ l. record l { key_hash = hash_key new }) id (hash_key old)
            (update_hash now id k.key_hash (hash_key new) m.local_store)
            (subst
              (λ h.
                Map.get (hash_key old)
                  (update_hash now id h (hash_key new) m.local_store).keys_by_hash
                ≡ none)
              (sym hashed)
              (update_absent now id (hash_key old) (hash_key new) m.local_store apart))))

  -- A key that was created is accepted as long as `cache_ttl` (thirty seconds) has not passed and it has
  -- not expired, and refused after that, although it stays in the store. (No other call is made in
  -- between.)
  pub create_key-validate_key :
      (now later : ℕ) (id raw_key : Str) (r : CreateKey) (m t : ApiKeyManager)
      (answer : ApiKey × Str)
      → create_key hash_key now id raw_key r m ≡ (t, ok answer)
      → validate_key hash_key later raw_key t ≡ (
          if ltb (later - now) m.local_store.cache_ttl
            && is_valid later (new_key hash_key now id raw_key r)
          then some (new_key hash_key now id raw_key r)
          else none)
  unfolding create_key validate_key get_by_hash add
  create_key-validate_key now later id raw_key r m t answer done =
      let k = new_key hash_key now id raw_key r in
      let ts = pop_old (now - minute) m.create_timestamps in
      elim (Bool-cases (leb creations_per_minute (length ts))) [
        | inl full ↦
            let no : create_key hash_key now id raw_key r m
                ≡ (record m { create_timestamps = ts }, err rate_limited) =
              rw full refl in
            absurd (cc (no, done))
        | inr room ↦
            let made = record m {
              local_store = add now k m.local_store;
              create_timestamps = ts ++ now ∷ [];
            } in
            let yes : create_key hash_key now id raw_key r m ≡ (made, ok (k, raw_key)) =
              rw room refl in
            let it : made ≡ t = ap (λ x. x.0) (sym yes ∙ done) in
            subst
              (λ x. validate_key hash_key later raw_key x ≡ (
                if ltb (later - now) m.local_store.cache_ttl && is_valid later k
                then some k
                else none))
              it
              (rw (get-insert_self (hash_key raw_key) (k, now) m.local_store.keys_by_hash)
                (elim (Bool-cases (ltb (later - now) m.local_store.cache_ttl)) [
                  | inl young ↦ rw young refl
                  | inr old ↦ rw old refl
                ]))
      ]
