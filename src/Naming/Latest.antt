-- ===== src/Naming/Latest.antt =====
-- The local cache of names holds the records that win, in whatever order they came.
use shadowmesh.Base.{
  ◌+◌, ◌≤◌, ◌<◌, ◌≡◌, refl, ap, sym, subst, ◌∙◌, true, some, List, [], ◌∷◌, arith, Str, str_eq,
  ◌==◌, length, Bool, false, ◌&&◌, key_refl, str_beq_iff, All, none, Option, Bool-cases,
  Option-cases, inl, inr, ◌⊎◌,
}
use shadowmesh.Base.Map
use shadowmesh.Base.Map.{Map, size, size-insert, get-insert, get-insert_self, get-insert_at}
use shadowmesh.Base.Results.{Result, ok, err, is_ok, bind-eq_ok, guard, ◌>>=◌, Result-cases}
use shadowmesh.Naming.Types.{
  Libraries, NameRecord, NamingError, validate_record, verify_record, invalid_signature, first_wins,
  max_cache_entries,
}
use shadowmesh.Naming.Manager.{NamingManager, new, keep_winner, admissible, cache_record}
use shadowmesh.Naming.Winner.{
  HasBest, keep_winner_cases, size-keep_winner, keep_winner-HasBest, keep_winner_keeps,
}

-- Whether a record is one of those.
abbrev pub IsIn : NameRecord → List NameRecord → Type 0
IsIn r [] = ⊥
IsIn r (x ∷ xs) = (r ≡ x) ⊎ IsIn r xs

abbrev pub verifies : Result NamingError Bool → Bool
verifies (ok b) = b
verifies (err x) = false

-- What holds of every record of a list.
all_in :
    {P : NameRecord → Type 0} (rs : List NameRecord)
    → ((r : NameRecord) → IsIn r rs → P r)
    → All P rs
all_in [] f = tt
all_in (r ∷ rs) f = (f r (inl refl), all_in rs (λ x h. f x (inr h)))

module _ (lib : Libraries) where
  -- The calls of `cache_record` one after the other.
  unfoldable pub cache_all : List NameRecord → NamingManager → NamingManager
  cache_all [] m = m
  cache_all (r ∷ rs) m = cache_all rs (cache_record lib r m).0

  -- Where the records of the cache come from.
  abbrev AreFrom : List NameRecord → Map Str NameRecord → Type 0
  AreFrom rs m =
      (h : Str) (w : NameRecord)
      → Map.get h m ≡ some w
      → (w.name_hash ≡ h) × (admissible lib w ≡ ok tt) × IsIn w rs

  cache_record_lem :
      (r : NameRecord) (m : NamingManager)
      → size m.local_cache < max_cache_entries
      → (size (cache_record lib r m).0.local_cache ≤ size m.local_cache + 1)
        × ((q : NameRecord)
            → HasBest q m.local_cache
            → HasBest q (cache_record lib r m).0.local_cache)
        × (admissible lib r ≡ ok tt → HasBest r (cache_record lib r m).0.local_cache)
  unfolding cache_record
  cache_record_lem r m room = elim (Result-cases (admissible lib r)) [
    | inl (u, fine) ↦
        rw (cache_record, fine)
          (
            size-keep_winner r m.local_cache room,
            λ q b. keep_winner_keeps q r m.local_cache room b,
            λ h. keep_winner-HasBest r m.local_cache room,
          )
    | inr (x, refused) ↦ rw (cache_record, refused) (omega arith, λ q b. b, λ h. cc h)
  ]

  cached_on :
      (rs : List NameRecord) (m : NamingManager)
      → size m.local_cache + length rs ≤ max_cache_entries
      → ((q : NameRecord) → HasBest q m.local_cache → HasBest q (cache_all rs m).local_cache)
        × ((r : NameRecord)
            → IsIn r rs
            → admissible lib r ≡ ok tt
            → HasBest r (cache_all rs m).local_cache)
  unfolding cache_all
  cached_on [] m room = (λ q b. b, λ r h fine. absurd h)
  cached_on (x ∷ rs) m room =
      let (grown, keeps, holds) = cache_record_lem x m (omega (arith, room)) in
      let (later, each) = cached_on rs (cache_record lib x m).0 (omega (arith, room, grown)) in
      (
        λ q b. later q (keeps q b),
        λ r h fine. elim h [
          | inl here ↦ later r (
              subst (λ y. HasBest y (cache_record lib x m).0.local_cache) (sym here)
                (holds (subst (λ y. admissible lib y ≡ ok tt) here fine)))
          | inr after ↦ each r after fine
        ],
      )

  keep_winner-AreFrom :
      (all : List NameRecord) (r : NameRecord) (m : Map Str NameRecord)
      → size m < max_cache_entries
      → IsIn r all
      → admissible lib r ≡ ok tt
      → AreFrom all m
      → AreFrom all (keep_winner r m)
  keep_winner-AreFrom all r m room here fine old h w there = elim (keep_winner_cases r m room) [
    | inl (existing, taken, stays, same) ↦ old h w (subst (λ x. Map.get h x ≡ some w) same there)
    | inr (beats, inserted) ↦
        let looked : Map.get h (Map.insert r.name_hash r m) ≡ some w =
          subst (λ x. Map.get h x ≡ some w) inserted there in
        elim (Bool-cases (r.name_hash == h)) [
          | inl alike ↦
              let it : r ≡ w = cc (get-insert_at r.name_hash h r m alike, looked) in
              (
                (ap (λ x. x.name_hash) (sym it) ∙ (str_eq.same_iff r.name_hash h).0 alike),
                subst (λ x. admissible lib x ≡ ok tt) it fine,
                subst (λ x. IsIn x all) it here,
              )
          | inr apart ↦
              let missed : Map.get h (Map.insert r.name_hash r m) ≡ Map.get h m =
                get-insert r.name_hash h r m ∙ rw apart refl in
              old h w (sym missed ∙ looked)
        ]
  ]

  cached_from :
      (all rs : List NameRecord) (m : NamingManager)
      → size m.local_cache + length rs ≤ max_cache_entries
      → ((x : NameRecord) → IsIn x rs → IsIn x all)
      → AreFrom all m.local_cache
      → AreFrom all (cache_all rs m).local_cache
  unfolding cache_all cache_record
  cached_from all [] m room known old = old
  cached_from all (x ∷ rs) m room known old =
      let (grown, keeps, holds) = cache_record_lem x m (omega (arith, room)) in
      cached_from all rs (cache_record lib x m).0 (omega (arith, room, grown))
        (λ y h. known y (inr h))
        (elim (Result-cases (admissible lib x)) [
          | inl (u, fine) ↦
              rw (cache_record, fine)
                (keep_winner-AreFrom all x m.local_cache (omega (arith, room)) (known x (inl refl))
                  fine old)
          | inr (e, refused) ↦ rw (cache_record, refused) old
        ])

  cache_all-AreFrom :
      (rs : List NameRecord)
      → length rs ≤ max_cache_entries
      → AreFrom rs (cache_all rs new).local_cache
  unfolding Map.get
  cache_all-AreFrom rs room =
      cached_from rs rs new (omega (arith, room)) (λ x h. h) (λ h w there. cc there)

  cache_all-HasBest :
      (rs : List NameRecord) (r : NameRecord)
      → length rs ≤ max_cache_entries
      → IsIn r rs
      → admissible lib r ≡ ok tt
      → HasBest r (cache_all rs new).local_cache
  cache_all-HasBest rs r room here fine = (cached_on rs new (omega (arith, room))).1 r here fine

  -- A record that the cache may take for a hash: it is of that hash, it is valid, and its signature
  -- verifies.
  abbrev pub counts : Str → NameRecord → Bool
  counts h r = (r.name_hash == h) && is_ok (validate_record lib r) && verifies (verify_record lib r)

  -- No record of the list counts for the hash, or this one does, and wins over every other one of
  -- the list that does.
  abbrev pub IsBest : Str → List NameRecord → Option NameRecord → Type 0
  IsBest h rs none = All (λ r. counts h r ≡ false) rs
  IsBest h rs (some w) =
      IsIn w rs × (counts h w ≡ true) × All (λ r. (counts h r ≡ false) ⊎ (first_wins w r ≡ true)) rs

  admissible-counts :
      (h : Str) (r : NameRecord) → admissible lib r ≡ ok tt → r.name_hash ≡ h → counts h r ≡ true
  unfolding admissible
  admissible-counts h r fine named =
      let (u, valid, rest) =
        bind-eq_ok (validate_record lib r)
          (λ u. verify_record lib r >>= λ v. guard v invalid_signature) fine in
      let (v, verified, signed) =
        bind-eq_ok (verify_record lib r) (λ v. guard v invalid_signature) rest in
      elim (Bool-cases v) [
        | inl good ↦ rw (valid, verified, good, named, key_refl h) refl
        | inr bad ↦ absurd (cc (subst (λ b. guard b invalid_signature ≡ ok tt) bad signed))
      ]

  counts-admissible :
      (h : Str) (r : NameRecord)
      → counts h r ≡ true
      → (admissible lib r ≡ ok tt) × (r.name_hash ≡ h)
  unfolding admissible
  counts-admissible h r c = elim (Result-cases (validate_record lib r)) [
    | inr (x, refused) ↦ absurd (ground (arith, refused, c))
    | inl (u, valid) ↦ elim (Result-cases (verify_record lib r)) [
      | inr (x, refused) ↦ absurd (ground (arith, valid, refused, c))
      | inl (v, verified) ↦ ground (arith, valid, verified, c, str_beq_iff r.name_hash h)
    ]
  ]

  -- What the list of records asks for at one of them.
  best_over :
      (rs : List NameRecord) (h : Str) (r : NameRecord)
      → length rs ≤ max_cache_entries
      → IsIn r rs
      → (counts h r ≡ false)
        ⊎ ((w : NameRecord) × (Map.get h (cache_all rs new).local_cache ≡ some w)
            × (first_wins w r ≡ true))
  best_over rs h r few here = elim (Bool-cases (counts h r)) [
    | inr out ↦ inl out
    | inl c ↦
        let (fine, named) = counts-admissible h r c in
        let b = cache_all-HasBest rs r few here fine in
        inr (
          b.best,
          subst (λ k. Map.get k (cache_all rs new).local_cache ≡ some b.best) named b.there,
          b.wins,
        )
  ]

  -- Whatever records come in, in whatever order, as long as they are no more than the cache holds:
  -- for each hash the cache has one of the records that came, of that hash, valid and with a
  -- signature that verifies, and `resolve_conflict` prefers it to every other such record that came;
  -- it has none only when no such record came.
  pub cache_all-IsBest :
      (rs : List NameRecord) (h : Str)
      → length rs ≤ max_cache_entries
      → IsBest h rs (Map.get h (cache_all rs new).local_cache)
  cache_all-IsBest rs h few = elim (Option-cases (Map.get h (cache_all rs new).local_cache)) [
    | inl none_there ↦ rw none_there (
        all_in rs (λ r here. elim (best_over rs h r few here) [
          | inl out ↦ out
          | inr (w, there, wins) ↦ absurd (cc (none_there, there))
        ]))
    | inr (w, there) ↦
        let (named, fine, given) = cache_all-AreFrom rs few h w there in
        rw there (
          given,
          admissible-counts h w fine named,
          all_in rs (λ r here. elim (best_over rs h r few here) [
            | inl out ↦ inl out
            | inr (w', there', wins) ↦
                inr (subst (λ x. first_wins x r ≡ true) (cc (there, there')) wins)
          ]),
        )
  ]
