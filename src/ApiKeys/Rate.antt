-- ===== src/ApiKeys/Rate.antt =====
-- How many keys are created.
use shadowmesh.Base.{
  ℕ, ◌+◌, ◌-◌, ◌≤◌, ◌≡◌, refl, List, [], ◌∷◌, ◌++◌, arith, Str, leb, length, length-append,
  if◌then◌else◌, Bool-cases, inl, inr, All, Option,
}
use shadowmesh.Base.Results.{Result, ok, err}
use shadowmesh.ApiKeys.{
  ApiKeyManager, CreateKey, ApiKeyError, new, create_key, pop_old, minute, creations_per_minute,
}

-- A request to create a key: the time, what is drawn for it, and what is asked.
abbrev pub Creation : Type 0
Creation = ℕ × Str × Str × CreateKey

abbrev pub recent : ℕ → List ℕ → ℕ
recent start [] = 0
recent start (t ∷ ts) = if leb start t then recent start ts + 1 else recent start ts

recent-length : (start : ℕ) (ts : List ℕ) → recent start ts ≤ length ts
recent-length start [] = omega arith
recent-length start (t ∷ ts) = ground (arith, recent-length start ts)

recent-append :
    (start t : ℕ) (ts : List ℕ) → start ≤ t → recent start (ts ++ t ∷ []) ≡ recent start ts + 1
recent-append start t [] h = ground (arith, h)
recent-append start t (u ∷ ts) h = ground (arith, recent-append start t ts h)

recent-pop_old :
    (cutoff start : ℕ) (ts : List ℕ)
    → cutoff ≤ start
    → recent start (pop_old cutoff ts) ≡ recent start ts
unfolding pop_old
recent-pop_old cutoff start [] h = refl
recent-pop_old cutoff start (t ∷ ts) h = ground (arith, recent-pop_old cutoff start ts h)

length-pop_old : (cutoff : ℕ) (ts : List ℕ) → length (pop_old cutoff ts) ≤ length ts
unfolding pop_old
length-pop_old cutoff [] = omega arith
length-pop_old cutoff (t ∷ ts) = ground (arith, length-pop_old cutoff ts)

module _ (hash_key : Str → Str) where
  abbrev pub one_if_ok : {A : Type 0} → Result ApiKeyError A → ℕ
  one_if_ok (ok a) = 1
  one_if_ok (err e) = 0

  -- The requests one after the other, and how many keys were created.
  unfoldable pub creations : List Creation → ApiKeyManager → ApiKeyManager × ℕ
  creations [] m = (m, 0)
  creations ((now, id, raw_key, r) ∷ xs) m =
      let one = create_key hash_key now id raw_key r m in
      let rest = creations xs one.0 in (rest.0, one_if_ok one.1 + rest.1)

  abbrev pub IsWithin : ℕ → Creation → Type 0
  IsWithin start x = (start ≤ x.0) × (x.0 ≤ start + minute)

  create_key-recent :
      (start now : ℕ) (id raw_key : Str) (r : CreateKey) (m : ApiKeyManager)
      → start ≤ now
      → now ≤ start + minute
      → recent start m.create_timestamps ≤ creations_per_minute
      → (one_if_ok (create_key hash_key now id raw_key r m).1 + recent start m.create_timestamps
          ≡ recent start (create_key hash_key now id raw_key r m).0.create_timestamps)
        × (recent start (create_key hash_key now id raw_key r m).0.create_timestamps
            ≤ creations_per_minute)
  unfolding create_key
  create_key-recent start now id raw_key r m after before h =
      let ts = pop_old (now - minute) m.create_timestamps in
      let same = recent-pop_old (now - minute) start m.create_timestamps (omega (arith, before)) in
      elim (Bool-cases (leb creations_per_minute (length ts))) [
        | inl full ↦ rw full (omega (arith, same), omega (arith, same, h))
        | inr room ↦
            let more = recent-append start now ts after in
            rw room (omega (arith, same, more), ground (arith, more, recent-length start ts, room))
      ]

  length-create_key :
      (now : ℕ) (id raw_key : Str) (r : CreateKey) (m : ApiKeyManager)
      → length m.create_timestamps ≤ creations_per_minute
      → length (create_key hash_key now id raw_key r m).0.create_timestamps ≤ creations_per_minute
  unfolding create_key
  length-create_key now id raw_key r m h =
      let ts = pop_old (now - minute) m.create_timestamps in
      elim (Bool-cases (leb creations_per_minute (length ts))) [
        | inl full ↦ rw full (omega (arith, length-pop_old (now - minute) m.create_timestamps, h))
        | inr room ↦ rw room (ground (arith, length-append ts (now ∷ []), room))
      ]

  creations_on :
      (start : ℕ) (xs : List Creation) (m : ApiKeyManager)
      → All (IsWithin start) xs
      → recent start m.create_timestamps ≤ creations_per_minute
      → (creations xs m).1 + recent start m.create_timestamps ≤ creations_per_minute
  unfolding creations
  creations_on start [] m a h = omega (arith, h)
  creations_on start ((now, id, raw_key, r) ∷ xs) m a h =
      let (moved, fits) = create_key-recent start now id raw_key r m a.0.0 a.0.1 h in
      omega
        (arith, moved, creations_on start xs (create_key hash_key now id raw_key r m).0 a.1 fits)

  length-creations :
      (xs : List Creation) (m : ApiKeyManager)
      → length m.create_timestamps ≤ creations_per_minute
      → length (creations xs m).0.create_timestamps ≤ creations_per_minute
  unfolding creations
  length-creations [] m h = h
  length-creations ((now, id, raw_key, r) ∷ xs) m h =
      length-creations xs (create_key hash_key now id raw_key r m).0
        (length-create_key now id raw_key r m h)

  -- In any minute at most ten keys are created, whatever was asked for before, at whatever times, and
  -- however many requests come.
  pub creations_bound :
      (admin_key : Option Str) (before xs : List Creation) (start : ℕ)
      → All (IsWithin start) xs
      → (creations xs (creations before (new hash_key admin_key)).0).1 ≤ 10
  creations_bound admin_key before xs start a =
      let m = (creations before (new hash_key admin_key)).0 in
      let few = length-creations before (new hash_key admin_key) (omega arith) in
      omega (
        arith,
        creations_on start xs m a (omega (arith, recent-length start m.create_timestamps, few)),
      )
