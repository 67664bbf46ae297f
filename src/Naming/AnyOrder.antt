-- ===== src/Naming/AnyOrder.antt =====
-- The order in which records come to the local cache of names.
use shadowmesh.Base.{
  ◌≤◌, ◌≡◌, List, [], ◌∷◌, Str, true, Option, none, some, length, inl, inr, All, str_eq, subst, sym,
}
use shadowmesh.Base.Map
use shadowmesh.Naming.Types.{Libraries, NameRecord, first_wins, max_cache_entries}
use shadowmesh.Naming.Manager.{new}
use shadowmesh.Naming.Conflict.{SameRank, first_wins_antisym}
use shadowmesh.Naming.Latest.{IsIn, IsBest, cache_all, cache_all-IsBest}

-- Both nodes have nothing, or records of the same rank.
abbrev pub AreAlike : Option NameRecord → Option NameRecord → Type 0
AreAlike none none = Unit
AreAlike none (some b) = ⊥
AreAlike (some a) none = ⊥
AreAlike (some a) (some b) = SameRank a b

-- What holds of every record of a list holds of one of them.
at_one :
    (P : NameRecord → Type 0) (rs : List NameRecord) (r : NameRecord) → IsIn r rs → All P rs → P r
at_one P [] r h all = absurd h
at_one P (x ∷ rs) r h all = elim h [
  | inl here ↦ subst P (sym here) all.0
  | inr after ↦ at_one P rs r after all.1
]

module _ (lib : Libraries) where
  best_wins :
      (h : Str) (rs rs' : List NameRecord) (w w' : NameRecord)
      → ((r : NameRecord) → IsIn r rs → IsIn r rs')
      → IsBest lib h rs (some w)
      → IsBest lib h rs' (some w')
      → first_wins w' w ≡ true
  best_wins h rs rs' w w' within b b' = elim (at_one _ rs' w (within w b.0) b'.2) [
    | inl out ↦ absurd (cc (out, b.1))
    | inr wins ↦ wins
  ]

  none_best :
      (h : Str) (rs rs' : List NameRecord) (w : NameRecord)
      → ((r : NameRecord) → IsIn r rs → IsIn r rs')
      → IsBest lib h rs (some w)
      → IsBest lib h rs' none
      → ⊥
  none_best h rs rs' w within b b' = cc (at_one _ rs' w (within w b.0) b', b.1)

  best_alike :
      (h : Str) (rs rs' : List NameRecord) (a b : Option NameRecord)
      → ((r : NameRecord) → IsIn r rs → IsIn r rs')
      → ((r : NameRecord) → IsIn r rs' → IsIn r rs)
      → IsBest lib h rs a
      → IsBest lib h rs' b
      → AreAlike a b
  best_alike h rs rs' none none within within' p q = tt
  best_alike h rs rs' none (some w') within within' p q = none_best h rs' rs w' within' q p
  best_alike h rs rs' (some w) none within within' p q = none_best h rs rs' w within p q
  best_alike h rs rs' (some w) (some w') within within' p q =
      first_wins_antisym w w' (best_wins h rs' rs w' w within' q p)
        (best_wins h rs rs' w w' within p q)

  -- Two nodes that get the same records, each in an order of its own and some of them several times,
  -- agree on each hash: neither has a record for it, or both have one, of the same sequence number,
  -- the same time of registration and the same owner. In all else the two may differ. (Neither node
  -- gets more records than a cache holds.)
  pub cache_all_any_order :
      (rs rs' : List NameRecord) (h : Str)
      → length rs ≤ max_cache_entries
      → length rs' ≤ max_cache_entries
      → ((r : NameRecord) → IsIn r rs → IsIn r rs')
      → ((r : NameRecord) → IsIn r rs' → IsIn r rs)
      → AreAlike
          (Map.get h (cache_all lib rs new).local_cache)
          (Map.get h (cache_all lib rs' new).local_cache)
  cache_all_any_order rs rs' h few few' within within' =
      best_alike h rs rs' _ _ within within' (cache_all-IsBest lib rs h few)
        (cache_all-IsBest lib rs' h few')
