-- ===== src/Base/Sort.antt =====
-- A stable sort by a numeric key, as `sort_by` and `sort_by_key` do: an insertion sort that inserts
-- before entries of the same key, from the last entry on.
use mathlib.Core.List.{Perm, Permᴰ, Mem, Nodup, Nodup-cons, mem-cons_self, is_set}
use mathlib.Core.List.Perm
use mathlib.Core.Logic.{∥∥₁_elim, ◌≢◌, inl, inr}
use mathlib.Core.Path.{◌≡◌, refl, ap, ap₂, subst, ◌∙◌, sym}
use mathlib.Core.List.{List, [], ◌∷◌, map}
use Prim.Native.Nat.{ℕ, ◌≤◌}
use native.Mathlib.Omega.{arith}
use shadowmesh.Base.Tests.{leb, leb→le, if◌then◌else◌, Bool-cases}
use shadowmesh.Base.Lists.{All, All-imp}

module _ {ℓ} {A : Type ℓ} (key : A → ℕ) where
  unfoldable pub sort_insert : A → List A → List A
  sort_insert c [] = c ∷ []
  sort_insert c (d ∷ ds) = if leb (key c) (key d) then c ∷ d ∷ ds else d ∷ sort_insert c ds

  unfoldable pub sort_by : List A → List A
  unfolding sort_insert
  sort_by [] = []
  sort_by (c ∷ cs) = sort_insert c (sort_by cs)

  abbrev From : ℕ → A → Type 0
  From n c = n ≤ key c

  abbrev pub IsSorted : List A → Type 0
  IsSorted [] = Unit
  IsSorted (c ∷ cs) = All (From (key c)) cs × IsSorted cs

  sort_insert-From :
      (n : ℕ) (c : A) (cs : List A) → n ≤ key c → All (From n) cs → All (From n) (sort_insert c cs)
  unfolding sort_insert
  sort_insert-From n c [] h a = (h, tt)
  sort_insert-From n c (d ∷ ds) h a = ground (arith, sort_insert-From n c ds h a.1)

  sort_insert-IsSorted : (c : A) (cs : List A) → IsSorted cs → IsSorted (sort_insert c cs)
  unfolding sort_insert
  sort_insert-IsSorted c [] s = (tt, tt)
  sort_insert-IsSorted c (d ∷ ds) s = elim (Bool-cases (leb (key c) (key d))) [
    | inl le ↦
        let below : key c ≤ key d = leb→le _ _ le in
        rw le ((below, All-imp (λ x h. omega arith) ds s.0), s)
    | inr gt ↦
        rw gt (sort_insert-From (key d) c ds (ground arith) s.0, sort_insert-IsSorted c ds s.1)
  ]

  sort_insert-perm : (c : A) (cs : List A) → Perm (sort_insert c cs) (c ∷ cs)
  unfolding sort_insert
  sort_insert-perm c [] = Perm.refl (c ∷ [])
  sort_insert-perm c (d ∷ ds) = elim (Bool-cases (leb (key c) (key d))) [
    | inl le ↦ rw le (Perm.refl (c ∷ d ∷ ds))
    | inr gt ↦ rw gt (Perm.trans (Perm.cons d (sort_insert-perm c ds)) (Perm.swap c d ds))
  ]

  sort_insert-All {κ} :
      (P : A → Type κ) (c : A) (cs : List A) → P c → All P cs → All P (sort_insert c cs)
  unfolding sort_insert
  sort_insert-All P c [] h a = (h, tt)
  sort_insert-All P c (d ∷ ds) h a = elim (Bool-cases (leb (key c) (key d))) [
    | inl le ↦ rw le (h, a)
    | inr gt ↦ rw gt (a.0, sort_insert-All P c ds h a.1)
  ]

  pub sort_by-All {κ} : (P : A → Type κ) (cs : List A) → All P cs → All P (sort_by cs)
  unfolding sort_by
  sort_by-All P [] a = a
  sort_by-All P (c ∷ cs) a = sort_insert-All P c (sort_by cs) a.0 (sort_by-All P cs a.1)

  pub sort_by-IsSorted : (cs : List A) → IsSorted (sort_by cs)
  unfolding sort_by
  sort_by-IsSorted [] = tt
  sort_by-IsSorted (c ∷ cs) = sort_insert-IsSorted c (sort_by cs) (sort_by-IsSorted cs)

  pub sort_by-perm : (cs : List A) → Perm (sort_by cs) cs
  unfolding sort_by
  sort_by-perm [] = Perm.refl []
  sort_by-perm (c ∷ cs) =
      Perm.trans (sort_insert-perm c (sort_by cs)) (Perm.cons c (sort_by-perm cs))

  -- What is in order already stays as it is.
  pub sort_by_sorted : (cs : List A) → IsSorted cs → sort_by cs ≡ cs
  unfolding sort_by
  sort_by_sorted [] s = refl
  sort_by_sorted (c ∷ []) s = refl
  sort_by_sorted (c ∷ d ∷ ds) s = ground (arith, sort_by_sorted (d ∷ ds) s.1)

  -- Insertions of different keys commute.
  sort_insert_comm :
      (a b : A) (cs : List A)
      → key a ≢ key b
      → sort_insert a (sort_insert b cs) ≡ sort_insert b (sort_insert a cs)
  unfolding sort_insert
  sort_insert_comm a b [] n = ground arith
  sort_insert_comm a b (c ∷ cs) n = ground (arith, sort_insert_comm a b cs n)

  Nodup-ne : (a b : A) (cs : List A) → Nodup (map key (a ∷ b ∷ cs)) → key a ≢ key b
  Nodup-ne a b cs d e =
      (Nodup-cons.0 d).0 (subst (λ k. Mem k (key b ∷ map key cs)) (sym e) mem-cons_self)

  sort_by-Permᴰ : {xs ys : List A} → Permᴰ xs ys → Nodup (map key xs) → sort_by xs ≡ sort_by ys
  unfolding sort_by
  sort_by-Permᴰ Permᴰ.nil d = refl
  sort_by-Permᴰ (Permᴰ.cons e p) d = ap₂ sort_insert e (sort_by-Permᴰ p (Nodup-cons.0 d).1)
  sort_by-Permᴰ (Permᴰ.swap {a = a} {b = b} {l = l} e f) d =
      sort_insert_comm a b (sort_by l) (Nodup-ne a b l d)
      ∙ ap₂ sort_insert f (ap (λ c. sort_insert c (sort_by l)) e)
  sort_by-Permᴰ (Permᴰ.trans p q) d =
      sort_by-Permᴰ p d ∙ sort_by-Permᴰ q (Perm.nodup (Perm.map key ∣ p ∣₁) d)

  -- When the keys are distinct, the order in which the entries come does not matter.
  pub sort_by-of_perm :
      (s : IsSet A) {xs ys : List A} → Perm xs ys → Nodup (map key xs) → sort_by xs ≡ sort_by ys
  sort_by-of_perm s p d = ∥∥₁_elim p (is_set s _ _) (λ q. sort_by-Permᴰ q d)
