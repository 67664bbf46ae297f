-- ===== src/Kv/Bounds.antt =====
-- The store never outgrows its configuration.
use shadowmesh.Base.{
  ℕ, ◌≤◌, ◌≡◌, refl, sym, subst, ◌∙◌, true, false, not, ◌&&◌, Option, none, some, List, [], ◌∷◌,
  arith, Str, str_eq, ◌==◌, ltb, leb, length, Bool-cases, Option-cases, inl, inr,
}
use shadowmesh.Base.Map
use shadowmesh.Base.Map.{
  Map, Distinct, size, contains_key, get-insert, get-remove, get-retain, get-change_values,
  insert-Distinct, remove-Distinct, retain-Distinct, change_values-Distinct, size-insert,
  size-remove, size-retain-le, size-change_values,
}
use shadowmesh.Kv.{
  KvConfig, KvEntry, KvStore, new, is_expired, with_namespace, get, put, put_in, delete, or_empty,
  expiry, live, cleanup_expired, Call, gets, deletes, puts, cleans, step, run,
}
use shadowmesh.Kv.Fits.{Fits, empty-Fits, remove-Fits, insert-Fits, live-Fits}

pub record IsBounded (s : KvStore) : Type 0 where
  pub distinct : Distinct s.namespaces
  pub few : size s.namespaces ≤ s.config.max_namespaces
  pub each : (n : Str) (ns : Map Str KvEntry) → Map.get n s.namespaces ≡ some ns → Fits s.config ns

or_empty-Fits :
    (s : KvStore) (n : Str) → IsBounded s → Fits s.config (or_empty (Map.get n s.namespaces))
or_empty-Fits s n b = elim (Option-cases (Map.get n s.namespaces)) [
  | inl free ↦ rw free (empty-Fits s.config)
  | inr (ns, there) ↦ rw there (b.each n ns there)
]

-- A namespace is put in place: one that was there, or a new one where there is room.
with_namespace-IsBounded :
    (n : Str) (ns : Map Str KvEntry) (s : KvStore)
    → Fits s.config ns
    → size (Map.insert n ns s.namespaces) ≤ s.config.max_namespaces
    → IsBounded s
    → IsBounded (with_namespace n ns s)
with_namespace-IsBounded n ns s f room b = record {
  distinct = insert-Distinct n ns s.namespaces b.distinct;
  few = room;
  each = λ m ms h. elim (Bool-cases (n == m)) [
    | inl same ↦
        let new_one : Map.get m (Map.insert n ns s.namespaces) ≡ some ns =
          get-insert n m ns s.namespaces ∙ rw same refl in
        let it : ns ≡ ms = cc (new_one, h) in subst (λ x. Fits s.config x) it f
    | inr other ↦
        let kept : Map.get m (Map.insert n ns s.namespaces) ≡ Map.get m s.namespaces =
          get-insert n m ns s.namespaces ∙ rw other refl in
        b.each m ms (sym kept ∙ h)
  ];
}

-- A namespace that is there takes no room.
replaced :
    (n : Str) (old ns : Map Str KvEntry) (s : KvStore)
    → Map.get n s.namespaces ≡ some old
    → IsBounded s
    → size (Map.insert n ns s.namespaces) ≤ s.config.max_namespaces
replaced n old ns s there b =
    let taken : contains_key n s.namespaces ≡ true = rw there refl in
    ground (arith, size-insert n ns s.namespaces, taken, b.few)

get-IsBounded : (now : ℕ) (n k : Str) (s : KvStore) → IsBounded s → IsBounded (get now n k s).0
unfolding get
get-IsBounded now n k s b = elim (Option-cases (Map.get n s.namespaces)) [
  | inl free ↦ rw (get, free) b
  | inr (ns, there) ↦ elim (Option-cases (Map.get k ns)) [
    | inl missing ↦ rw (get, there, missing) b
    | inr (e, found) ↦ elim (Bool-cases (is_expired now e)) [
      | inl old ↦
          rw (get, there, found, old)
            (with_namespace-IsBounded n (Map.remove k ns) s
              (remove-Fits s.config k ns (b.each n ns there))
              (replaced n ns (Map.remove k ns) s there b) b)
      | inr young ↦ rw (get, there, found, young) b
    ]
  ]
]

delete-IsBounded : (n k : Str) (s : KvStore) → IsBounded s → IsBounded (delete n k s).0
unfolding delete
delete-IsBounded n k s b = elim (Option-cases (Map.get n s.namespaces)) [
  | inl free ↦ rw (delete, free) b
  | inr (ns, there) ↦
      rw (delete, there)
        (with_namespace-IsBounded n (Map.remove k ns) s
          (remove-Fits s.config k ns (b.each n ns there))
          (replaced n ns (Map.remove k ns) s there b) b)
]

-- Where the guard of `put` on the namespaces holds, there is room for this one.
admitted :
    (n : Str) (ns : Map Str KvEntry) (s : KvStore)
    → (not (contains_key n s.namespaces) && leb s.config.max_namespaces (size s.namespaces)) ≡ false
    → IsBounded s
    → size (Map.insert n ns s.namespaces) ≤ s.config.max_namespaces
admitted n ns s guarded b = ground (arith, size-insert n ns s.namespaces, guarded, b.few)

put_in-IsBounded :
    (now : ℕ) (n k value : Str) (ttl : Option ℕ) (ns : Map Str KvEntry) (s : KvStore)
    → length value ≤ s.config.max_value_size_bytes
    → Fits s.config ns
    → (not (contains_key n s.namespaces) && leb s.config.max_namespaces (size s.namespaces)) ≡ false
    → IsBounded s
    → IsBounded (put_in now n k value ttl ns s).0
unfolding put_in
put_in-IsBounded now n k value ttl ns s short f guarded b =
    let e : KvEntry = record { value = value; expires_at = expiry now ttl } in
    elim (Bool-cases (not (contains_key k ns) && leb s.config.max_keys_per_namespace (size ns))) [
      | inl full ↦ rw full (with_namespace-IsBounded n ns s f (admitted n ns s guarded b) b)
      | inr room ↦ rw room (
          with_namespace-IsBounded n (Map.insert k e ns) s
            (insert-Fits s.config k e ns (ground (arith, size-insert k e ns, room, f.few)) short f)
            (admitted n (Map.insert k e ns) s guarded b) b)
    ]

put-IsBounded :
    (now : ℕ) (n k value : Str) (ttl : Option ℕ) (s : KvStore)
    → IsBounded s
    → IsBounded (put now n k value ttl s).0
unfolding put
put-IsBounded now n k value ttl s b =
    elim (Bool-cases (ltb s.config.max_value_size_bytes (length value))) [
      | inl large ↦ rw large b
      | inr short ↦
          elim (Bool-cases (
            not (contains_key n s.namespaces) && leb s.config.max_namespaces (size s.namespaces))) [
              | inl full ↦ rw (short, full) b
              | inr guarded ↦
                  rw (short, guarded)
                    (put_in-IsBounded now n k value ttl (or_empty (Map.get n s.namespaces)) s
                      (ground (arith, short)) (or_empty-Fits s n b) guarded b)
            ]
    ]

cleanup_expired-IsBounded :
    (now : ℕ) (s : KvStore) → IsBounded s → IsBounded (cleanup_expired now s)
unfolding cleanup_expired
cleanup_expired-IsBounded now s b = record {
  distinct = change_values-Distinct (live now) s.namespaces b.distinct;
  few = omega (arith, size-change_values (live now) s.namespaces, b.few);
  each = λ n ms h. elim (Option-cases (Map.get n s.namespaces)) [
    | inl free ↦
        let lost : Map.get n (Map.change_values (live now) s.namespaces) ≡ none =
          get-change_values n (live now) s.namespaces ∙ rw free refl in
        absurd (cc (lost, h))
    | inr (ns, there) ↦
        let cleaned : Map.get n (Map.change_values (live now) s.namespaces) ≡ some (live now ns) =
          get-change_values n (live now) s.namespaces ∙ rw there refl in
        let it : live now ns ≡ ms = cc (cleaned, h) in
        subst (λ x. Fits s.config x) it (live-Fits s.config now ns (b.each n ns there))
  ];
}

step-IsBounded : (s : KvStore) (x : ℕ × Call) → IsBounded s → IsBounded (step s x)
unfolding step
step-IsBounded s (now, gets n k) b = get-IsBounded now n k s b
step-IsBounded s (now, deletes n k) b = delete-IsBounded n k s b
step-IsBounded s (now, puts n k value ttl) b = put-IsBounded now n k value ttl s b
step-IsBounded s (now, cleans) b = cleanup_expired-IsBounded now s b

run_from-IsBounded : (s : KvStore) (xs : List (ℕ × Call)) → IsBounded s → IsBounded (run s xs)
unfolding run
run_from-IsBounded s [] b = b
run_from-IsBounded s (x ∷ xs) b = run_from-IsBounded (step s x) xs (step-IsBounded s x b)

get-config : (now : ℕ) (n k : Str) (s : KvStore) → (get now n k s).0.config ≡ s.config
unfolding get
get-config now n k s = elim (Option-cases (Map.get n s.namespaces)) [
  | inl free ↦ rw (get, free) refl
  | inr (ns, there) ↦ elim (Option-cases (Map.get k ns)) [
    | inl missing ↦ rw (get, there, missing) refl
    | inr (e, found) ↦ elim (Bool-cases (is_expired now e)) [
      | inl old ↦ rw (get, there, found, old) refl
      | inr young ↦ rw (get, there, found, young) refl
    ]
  ]
]

put-config :
    (now : ℕ) (n k value : Str) (ttl : Option ℕ) (s : KvStore)
    → (put now n k value ttl s).0.config ≡ s.config
unfolding put put_in
put-config now n k value ttl s =
    let ns = or_empty (Map.get n s.namespaces) in
    elim (Bool-cases (ltb s.config.max_value_size_bytes (length value))) [
      | inl large ↦ rw large refl
      | inr short ↦
          elim (Bool-cases (
            not (contains_key n s.namespaces) && leb s.config.max_namespaces (size s.namespaces))) [
              | inl full ↦ rw (short, full) refl
              | inr guarded ↦
                  elim (Bool-cases
                    (not (contains_key k ns) && leb s.config.max_keys_per_namespace (size ns))) [
                      | inl many ↦ rw (short, guarded, many) refl
                      | inr room ↦ rw (short, guarded, room) refl
                    ]
            ]
    ]

delete-config : (n k : Str) (s : KvStore) → (delete n k s).0.config ≡ s.config
unfolding delete
delete-config n k s = elim (Option-cases (Map.get n s.namespaces)) [
  | inl free ↦ rw (delete, free) refl
  | inr (ns, there) ↦ rw (delete, there) refl
]

step-config : (s : KvStore) (x : ℕ × Call) → (step s x).config ≡ s.config
unfolding step cleanup_expired
step-config s (now, gets n k) = get-config now n k s
step-config s (now, deletes n k) = delete-config n k s
step-config s (now, puts n k value ttl) = put-config now n k value ttl s
step-config s (now, cleans) = refl

run-config : (s : KvStore) (xs : List (ℕ × Call)) → (run s xs).config ≡ s.config
unfolding run
run-config s [] = refl
run-config s (x ∷ xs) = run-config (step s x) xs ∙ step-config s x

-- Whatever is put, read, deleted and cleaned, and whenever: the store has at most `max_namespaces`
-- namespaces, each with at most `max_keys_per_namespace` keys, and no value above
-- `max_value_size_bytes`, by the configuration that it was made with.
pub run-IsBounded :
    (config : KvConfig) (xs : List (ℕ × Call))
    → IsBounded (run (new config) xs) × ((run (new config) xs).config ≡ config)
unfolding Map.get
run-IsBounded config xs = (
  run_from-IsBounded (new config) xs
      (record { distinct = tt; few = omega arith; each = λ n ns h. cc h }),
  run-config (new config) xs,
)
