-- ===== src/Kv/Reads.antt =====
-- What was put is read.
use shadowmesh.Base.{
  ℕ, ◌≡◌, refl, ap, sym, ◌∙◌, not, ◌&&◌, Option, none, some, Str, str_eq, ◌==◌, ltb, leb, length,
  if◌then◌else◌, Bool-cases, Option-cases, inl, inr,
}
use shadowmesh.Base.Map
use shadowmesh.Base.Map.{Map, size, contains_key, get-insert, get-insert_self}
use shadowmesh.Base.Results.{ok, err}
use shadowmesh.Kv.{
  KvEntry, KvStore, key_limit, namespace_limit, value_too_large, is_expired, with_namespace, get,
  put, put_in, or_empty, expiry,
}

-- What a call that succeeds has done.
abbrev put_entry : ℕ → Str → Str → Str → Option ℕ → KvStore → KvStore
put_entry now n k value ttl s =
    with_namespace n
      (Map.insert k (record { value = value; expires_at = expiry now ttl })
        (or_empty (Map.get n s.namespaces)))
      s

put_done :
    (now : ℕ) (n k value : Str) (ttl : Option ℕ) (s t : KvStore)
    → put now n k value ttl s ≡ (t, ok tt)
    → t ≡ put_entry now n k value ttl s
unfolding put put_in
put_done now n k value ttl s t done =
    let ns = or_empty (Map.get n s.namespaces) in
    elim (Bool-cases (ltb s.config.max_value_size_bytes (length value))) [
      | inl large ↦
          let no : put now n k value ttl s ≡ (s, err value_too_large) = rw large refl in
          absurd (cc (no, done))
      | inr short ↦
          elim (Bool-cases (
            not (contains_key n s.namespaces) && leb s.config.max_namespaces (size s.namespaces))) [
              | inl full ↦
                  let no : put now n k value ttl s ≡ (s, err namespace_limit) =
                    rw (short, full) refl in
                  absurd (cc (no, done))
              | inr guarded ↦
                  elim (Bool-cases
                    (not (contains_key k ns) && leb s.config.max_keys_per_namespace (size ns))) [
                      | inl many ↦
                          let no : put now n k value ttl s
                              ≡ (with_namespace n ns s, err key_limit) =
                            rw (short, guarded, many) refl in
                          absurd (cc (no, done))
                      | inr room ↦
                          let yes : put now n k value ttl s
                              ≡ (put_entry now n k value ttl s, ok tt) =
                            rw (short, guarded, room) refl in
                          cc (yes, done)
                    ]
            ]
    ]

-- What a read gives of the entry that it finds.
abbrev pub looked : ℕ → Option KvEntry → Option Str
looked now none = none
looked now (some e) = if is_expired now e then none else some e.value

abbrev entry : Str → Str → KvStore → Option KvEntry
entry n k s = Map.get k (or_empty (Map.get n s.namespaces))

get-looked : (now : ℕ) (n k : Str) (s : KvStore) → (get now n k s).1 ≡ looked now (entry n k s)
unfolding get Map.get
get-looked now n k s = elim (Option-cases (Map.get n s.namespaces)) [
  | inl free ↦ rw (get, free) refl
  | inr (ns, there) ↦ elim (Option-cases (Map.get k ns)) [
    | inl missing ↦ rw (get, there, missing) refl
    | inr (e, found) ↦ elim (Bool-cases (is_expired now e)) [
      | inl old ↦ rw (get, there, found, old) refl
      | inr young ↦ rw (get, there, found, young) refl
    ]
  ]
]

entry-put_entry :
    (now : ℕ) (n k m j value : Str) (ttl : Option ℕ) (s : KvStore)
    → entry m j (put_entry now n k value ttl s) ≡ (
        if n == m && k == j
        then some (record { value = value; expires_at = expiry now ttl })
        else entry m j s)
entry-put_entry now n k m j value ttl s =
    let e : KvEntry = record { value = value; expires_at = expiry now ttl } in
    let ns = Map.insert k e (or_empty (Map.get n s.namespaces)) in
    elim (Bool-cases (n == m)) [
      | inr other ↦
          let kept : Map.get m (Map.insert n ns s.namespaces) ≡ Map.get m s.namespaces =
            get-insert n m ns s.namespaces ∙ rw other refl in
          rw (kept, other) refl
      | inl same ↦
          let here : Map.get m (Map.insert n ns s.namespaces) ≡ some ns =
            get-insert n m ns s.namespaces ∙ rw same refl in
          let one : n ≡ m = (str_eq.same_iff n m).0 same in
          rw (here, same)
            (get-insert k j e (or_empty (Map.get n s.namespaces))
              ∙ ap (λ x. if k == j then some e else Map.get j (or_empty (Map.get x s.namespaces)))
                  one)
    ]

-- After a `put` that succeeded, its key reads as the value that was put, until it expires and never
-- after; every other key of every namespace reads as before, at every time.
pub get-put :
    (now later : ℕ) (n k m j value : Str) (ttl : Option ℕ) (s t : KvStore)
    → put now n k value ttl s ≡ (t, ok tt)
    → (get later m j t).1 ≡ (
        if n == m && k == j
        then looked later (some (record { value = value; expires_at = expiry now ttl }))
        else (get later m j s).1)
get-put now later n k m j value ttl s t done =
    let made : entry m j t ≡ (
        if n == m && k == j
        then some (record { value = value; expires_at = expiry now ttl })
        else entry m j s) =
      ap (λ x. entry m j x) (put_done now n k value ttl s t done)
      ∙ entry-put_entry now n k m j value ttl s in
    get-looked later m j t ∙ ap (looked later) made ∙ elim (Bool-cases (n == m && k == j)) [
      | inl both ↦ rw both refl
      | inr other ↦ rw other (sym (get-looked later m j s))
    ]
