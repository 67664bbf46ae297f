-- ===== src/Base/Map.antt =====
-- Rust's `HashMap` as its entries in some order, which is the order of iteration. Theorems hold for
-- every order, since they hold for every list of entries with distinct keys.
use Prim.Native.Nat.{ℕ, suc, ◌+◌, ◌≤◌}
use mathlib.Core.Path.{◌≡◌, refl, ap}
use mathlib.Core.Bool.{Bool, true, false}
use mathlib.Core.Option.{Option, none, some}
use mathlib.Core.List.{List, [], ◌∷◌}
use native.Mathlib.Omega.{arith}
use shadowmesh.Base.Tests.{if◌then◌else◌}
use shadowmesh.Base.Lists.{length}
use shadowmesh.Base.KeyEq.{Eq, ◌==◌, key_refl}

abbrev pub Map {ℓ κ} : Type ℓ → Type κ → Type (ℓ ⊔ κ)
Map K V = List (K × V)

abbrev pub is_some {ℓ} : {A : Type ℓ} → Option A → Bool
is_some none = false
is_some (some a) = true

abbrev pub measure {ℓ} : {A : Type ℓ} → (A → ℕ) → Option A → ℕ
measure f none = 0
measure f (some a) = f a

module _ {ℓ κ} {K : Type ℓ} {V : Type κ} where
  abbrev pub size : Map K V → ℕ
  size m = length m

  -- `values().map(f).sum()`
  unfoldable pub total : (V → ℕ) → Map K V → ℕ
  total f [] = 0
  total f ((k, v) ∷ m) = f v + total f m

  -- `retain(|_, v| p(v))`
  unfoldable pub retain : (V → Bool) → Map K V → Map K V
  retain p [] = []
  retain p ((k, v) ∷ m) = let rest = retain p m in if p v then (k, v) ∷ rest else rest

  pub size-retain-le : (p : V → Bool) (m : Map K V) → size (retain p m) ≤ size m
  unfolding retain
  size-retain-le p [] = omega arith
  size-retain-le p ((k, v) ∷ m) = ground (arith, size-retain-le p m)

  -- `iter()`, each value changed by itself.
  unfoldable pub change_values : (V → V) → Map K V → Map K V
  change_values f [] = []
  change_values f ((k, v) ∷ m) = (k, f v) ∷ change_values f m

  pub size-change_values : (f : V → V) (m : Map K V) → size (change_values f m) ≡ size m
  unfolding change_values
  size-change_values f [] = refl
  size-change_values f ((k, v) ∷ m) = ap suc (size-change_values f m)

  pub total-retain-le : (g : V → ℕ) (p : V → Bool) (m : Map K V) → total g (retain p m) ≤ total g m
  unfolding retain total
  total-retain-le g p [] = omega arith
  total-retain-le g p ((k, v) ∷ m) = ground (arith, total-retain-le g p m)

module _ {ℓ κ} {K : Type ℓ} {V : Type κ} ⦃e : Eq K⦄ where
  unfoldable pub get : K → Map K V → Option V
  get k [] = none
  get k ((j, v) ∷ m) = if j == k then some v else get k m

  abbrev pub contains_key : K → Map K V → Bool
  contains_key k m = is_some (get k m)

  unfoldable pub insert : K → V → Map K V → Map K V
  insert k v [] = (k, v) ∷ []
  insert k v ((j, w) ∷ m) = if j == k then (k, v) ∷ m else (j, w) ∷ insert k v m

  unfoldable pub remove : K → Map K V → Map K V
  remove k [] = []
  remove k ((j, v) ∷ m) = let rest = remove k m in if j == k then rest else (j, v) ∷ rest

  -- `if let Some(v) = get_mut(k) { *v = f(v) }`
  unfoldable pub adjust : K → (V → V) → Map K V → Map K V
  adjust k f [] = []
  adjust k f ((j, v) ∷ m) = if j == k then (j, f v) ∷ m else (j, v) ∷ adjust k f m

  -- The keys are distinct, as in every `HashMap`.
  abbrev pub Distinct : Map K V → Type 0
  Distinct [] = Unit
  Distinct ((k, v) ∷ m) = (contains_key k m ≡ false) × Distinct m

  pub get-insert :
      (k j : K) (v : V) (m : Map K V) → get j (insert k v m) ≡ (if k == j then some v else get j m)
  unfolding get insert
  get-insert k j v [] = refl
  get-insert k j v ((i, w) ∷ m) =
      ground (arith, e.same_iff k j, e.same_iff i k, e.same_iff i j, get-insert k j v m)

  pub get-remove : (k j : K) (m : Map K V) → get j (remove k m) ≡ (if k == j then none else get j m)
  unfolding get remove
  get-remove k j [] = ground arith
  get-remove k j ((i, w) ∷ m) =
      ground (arith, e.same_iff k j, e.same_iff i k, e.same_iff i j, get-remove k j m)

  pub get-adjust :
      (k j : K) (f : V → V) (m : Map K V)
      → get j (adjust k f m)
        ≡ (if k == j then elim (get j m) [ none ↦ none | some v ↦ some (f v) ] else get j m)
  unfolding get adjust
  get-adjust k j f [] = ground arith
  get-adjust k j f ((i, w) ∷ m) =
      ground (arith, e.same_iff k j, e.same_iff i k, e.same_iff i j, get-adjust k j f m)

  pub get-insert_self : (k : K) (v : V) (m : Map K V) → get k (insert k v m) ≡ some v
  get-insert_self k v m = rw get-insert (rw key_refl)

  pub get-insert_at :
      (k j : K) (v : V) (m : Map K V) → (k == j) ≡ true → get j (insert k v m) ≡ some v
  get-insert_at k j v m h = rw (get-insert, h) refl

  pub get-change_values :
      (k : K) (f : V → V) (m : Map K V)
      → get k (change_values f m) ≡ elim (get k m) [ none ↦ none | some v ↦ some (f v) ]
  unfolding get change_values
  get-change_values k f [] = refl
  get-change_values k f ((j, w) ∷ m) = ground (arith, get-change_values k f m)

  pub change_values-Distinct : (f : V → V) (m : Map K V) → Distinct m → Distinct (change_values f m)
  unfolding get change_values
  change_values-Distinct f [] d = tt
  change_values-Distinct f ((i, w) ∷ m) d =
      ground (arith, change_values-Distinct f m d.1, get-change_values i f m)

  pub insert-Distinct : (k : K) (v : V) (m : Map K V) → Distinct m → Distinct (insert k v m)
  unfolding get insert
  insert-Distinct k v [] d = (refl, tt)
  insert-Distinct k v ((i, w) ∷ m) d =
      ground (arith, e.same_iff i k, e.same_iff k i, insert-Distinct k v m d.1, get-insert k i v m)

  pub remove-Distinct : (k : K) (m : Map K V) → Distinct m → Distinct (remove k m)
  unfolding get remove
  remove-Distinct k [] d = tt
  remove-Distinct k ((i, w) ∷ m) d = ground (arith, remove-Distinct k m d.1, get-remove k i m)

  pub adjust-Distinct : (k : K) (f : V → V) (m : Map K V) → Distinct m → Distinct (adjust k f m)
  unfolding get adjust
  adjust-Distinct k f [] d = tt
  adjust-Distinct k f ((i, w) ∷ m) d = ground (arith, adjust-Distinct k f m d.1, get-adjust k i f m)

  retain_absent :
      (p : V → Bool) (j : K) (m : Map K V)
      → contains_key j m ≡ false
      → contains_key j (retain p m) ≡ false
  unfolding get retain
  retain_absent p j [] h = refl
  retain_absent p j ((i, w) ∷ m) h = ground (arith, retain_absent p j m)

  pub get-retain :
      (p : V → Bool) (j : K) (m : Map K V)
      → Distinct m
      → get j (retain p m) ≡ elim (get j m) [ none ↦ none | some v ↦ if p v then some v else none ]
  unfolding get retain
  get-retain p j [] d = refl
  get-retain p j ((i, w) ∷ m) d =
      ground (arith, e.same_iff i j, get-retain p j m d.1, retain_absent p j m)

  pub retain-Distinct : (p : V → Bool) (m : Map K V) → Distinct m → Distinct (retain p m)
  unfolding get retain
  retain-Distinct p [] d = tt
  retain-Distinct p ((i, w) ∷ m) d = ground (arith, retain-Distinct p m d.1, retain_absent p i m)

  pub remove_absent : (k : K) (m : Map K V) → contains_key k m ≡ false → remove k m ≡ m
  unfolding get remove
  remove_absent k [] h = refl
  remove_absent k ((i, w) ∷ m) h = ground (arith, remove_absent k m)

  pub size-remove :
      (k : K) (m : Map K V)
      → Distinct m
      → size (remove k m) + (if contains_key k m then 1 else 0) ≡ size m
  unfolding get remove
  size-remove k [] d = refl
  size-remove k ((i, w) ∷ m) d =
      ground (arith, e.same_iff i k, remove_absent k m, size-remove k m d.1)

  pub size-insert :
      (k : K) (v : V) (m : Map K V)
      → size (insert k v m) ≡ size m + (if contains_key k m then 0 else 1)
  unfolding get insert
  size-insert k v [] = refl
  size-insert k v ((i, w) ∷ m) = ground (arith, size-insert k v m)

  pub size-adjust : (k : K) (f : V → V) (m : Map K V) → size (adjust k f m) ≡ size m
  unfolding adjust
  size-adjust k f [] = refl
  size-adjust k f ((i, w) ∷ m) = ground (arith, size-adjust k f m)

  module _ (g : V → ℕ) where
    pub total-insert :
        (k : K) (v : V) (m : Map K V)
        → total g (insert k v m) + measure g (get k m) ≡ total g m + g v
    unfolding get insert total
    total-insert k v [] = omega arith
    total-insert k v ((i, w) ∷ m) = ground (arith, total-insert k v m)

    pub total-remove :
        (k : K) (m : Map K V) → Distinct m → total g (remove k m) + measure g (get k m) ≡ total g m
    unfolding get remove total
    total-remove k [] d = refl
    total-remove k ((i, w) ∷ m) d =
        ground (arith, e.same_iff i k, remove_absent k m, total-remove k m d.1)

    pub total-adjust :
        (k : K) (f : V → V) (m : Map K V)
        → ((v : V) → g (f v) ≡ g v)
        → total g (adjust k f m) ≡ total g m
    unfolding adjust total
    total-adjust k f [] h = refl
    total-adjust k f ((i, w) ∷ m) h = ground (arith, h w, total-adjust k f m h)

    pub measure-le-total : (k : K) (m : Map K V) → measure g (get k m) ≤ total g m
    unfolding get total
    measure-le-total k [] = omega arith
    measure-le-total k ((i, w) ∷ m) = ground (arith, measure-le-total k m)
