-- ===== src/Base/KeyEq.antt =====
-- Equality of keys as a Rust `Eq`, and texts as their UTF-8 bytes.
use Prim.Native.Nat.{ℕ}
use Prim.Native.Char.{code}
use Prim.Native.String.{String}
use mathlib.Core.Path.{◌≡◌, refl}
use mathlib.Core.Logic.{◌↔◌}
use mathlib.Core.Bool.{Bool, true, false, ◌&&◌}
use mathlib.Core.List.{List, [], ◌∷◌}
use native.Mathlib.Omega.{arith}
use shadowmesh.Base.Tests.{nat_beq, nat_beq_iff}

-- `derive(PartialEq, Eq)`, with the law that it decides equality.
pub record Eq {ℓ} (K : Type ℓ) : Type ℓ where
  pub same : K → K → Bool
  pub same_iff : (k j : K) → (same k j ≡ true) ↔ (k ≡ j)

module _ {ℓ} {K : Type ℓ} ⦃e : Eq K⦄ where
  infix 50 ◌==◌
  abbrev pub ◌==◌ : K → K → Bool
  k == j = e.same k j

  pub key_refl : (k : K) → (k == k) ≡ true
  key_refl k = (e.same_iff k k).1 refl

instance abbrev pub nat_eq : Eq ℕ
nat_eq = record { same = nat_beq; same_iff = nat_beq_iff }

-- A `String` or `&str`: the list of its bytes.
abbrev pub Str : Type 0
Str = List ℕ

abbrev pub str_beq : Str → Str → Bool
str_beq [] [] = true
str_beq [] (b ∷ bs) = false
str_beq (a ∷ as') [] = false
str_beq (a ∷ as') (b ∷ bs) = nat_beq a b && str_beq as' bs

pub str_beq→eq : (a b : Str) → str_beq a b ≡ true → a ≡ b
str_beq→eq [] [] h = refl
str_beq→eq [] (b ∷ bs) h = cc
str_beq→eq (a ∷ as') [] h = cc
str_beq→eq (a ∷ as') (b ∷ bs) h = ground (arith, str_beq→eq as' bs)

pub str_beq_refl : (a : Str) → str_beq a a ≡ true
str_beq_refl [] = refl
str_beq_refl (a ∷ as') = ground (arith, str_beq_refl as')

pub str_beq_iff : (a b : Str) → (str_beq a b ≡ true) ↔ (a ≡ b)
str_beq_iff a b = (str_beq→eq a b, λ e. rw e (str_beq_refl b))

instance abbrev pub str_eq : Eq Str
str_eq = record { same = str_beq; same_iff = str_beq_iff }

-- An ASCII literal as a `Str`.
abbrev pub bytes : String → Str
bytes (String.◌∷◌ first others) = let tail_bytes = bytes others in code first ∷ tail_bytes
bytes String.[] = []
