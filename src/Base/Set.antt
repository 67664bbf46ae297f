-- ===== src/Base/Set.antt =====
-- Rust's `HashSet` as its members in some order.
use mathlib.Core.Path.{◌≡◌, refl}
use mathlib.Core.Logic.{inl, inr}
use mathlib.Core.Bool.{Bool, false, ◌||◌, not, ◌&&◌}
use mathlib.Core.List.{List, [], ◌∷◌}
use native.Mathlib.Omega.{arith}
use shadowmesh.Base.Tests.{if◌then◌else◌, Bool-cases}
use shadowmesh.Base.KeyEq.{Eq, ◌==◌}

module _ {ℓ} {A : Type ℓ} ⦃e : Eq A⦄ where
  unfoldable pub contains : A → List A → Bool
  contains a [] = false
  contains a (x ∷ xs) = x == a || contains a xs

  unfoldable pub insert : A → List A → List A
  insert a xs = if contains a xs then xs else a ∷ xs

  unfoldable pub remove : A → List A → List A
  remove a [] = []
  remove a (x ∷ xs) = let rest = remove a xs in if x == a then rest else x ∷ rest

  abbrev pub Nodup : List A → Type 0
  Nodup [] = Unit
  Nodup (x ∷ xs) = (contains x xs ≡ false) × Nodup xs

  pub contains-insert :
      (a b : A) (xs : List A) → contains b (insert a xs) ≡ (a == b || contains b xs)
  unfolding contains insert
  contains-insert a b xs = elim (Bool-cases (contains a xs)) [
    | inl old ↦ rw (old, insert) (ground (arith, e.same_iff a b))
    | inr new ↦ rw (new, insert) refl
  ]

  pub contains-remove :
      (a b : A) (xs : List A) → contains b (remove a xs) ≡ (not (a == b) && contains b xs)
  unfolding contains remove
  contains-remove a b [] = ground arith
  contains-remove a b (x ∷ xs) =
      ground (arith, e.same_iff a b, e.same_iff x a, e.same_iff x b, contains-remove a b xs)

  pub insert-Nodup : (a : A) (xs : List A) → Nodup xs → Nodup (insert a xs)
  unfolding insert
  insert-Nodup a xs d = ground arith

  pub remove-Nodup : (a : A) (xs : List A) → Nodup xs → Nodup (remove a xs)
  unfolding contains remove
  remove-Nodup a [] d = tt
  remove-Nodup a (x ∷ xs) d = ground (arith, remove-Nodup a xs d.1, contains-remove a x xs)
