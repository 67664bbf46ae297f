-- ===== src/Base/Order.antt =====
-- The order of byte strings.
use mathlib.Core.Path.{◌≡◌, refl}
use mathlib.Core.Bool.{Bool, true, false}
use mathlib.Core.List.{[], ◌∷◌}
use native.Mathlib.Omega.{arith}
use shadowmesh.Base.Tests.{ltb, nat_beq, if◌then◌else◌}
use shadowmesh.Base.KeyEq.{Str}

-- `<` of byte arrays and of strings.
abbrev pub str_ltb : Str → Str → Bool
str_ltb a [] = false
str_ltb [] (b ∷ bs) = true
str_ltb (a ∷ as') (b ∷ bs) = if ltb a b then true else if nat_beq a b then str_ltb as' bs else false

pub str_ltb_asym : (a b : Str) → str_ltb a b ≡ true → str_ltb b a ≡ true → ⊥
str_ltb_asym [] [] h k = cc
str_ltb_asym [] (b ∷ bs) h k = cc
str_ltb_asym (a ∷ as') [] h k = cc
str_ltb_asym (a ∷ as') (b ∷ bs) h k = ground (arith, str_ltb_asym as' bs)

pub str_ltb_total : (a b : Str) → str_ltb a b ≡ false → str_ltb b a ≡ false → a ≡ b
str_ltb_total [] [] h k = refl
str_ltb_total [] (b ∷ bs) h k = cc
str_ltb_total (a ∷ as') [] h k = cc
str_ltb_total (a ∷ as') (b ∷ bs) h k = ground (arith, str_ltb_total as' bs)

pub str_ltb_trans : (a b c : Str) → str_ltb b a ≡ false → str_ltb c b ≡ false → str_ltb c a ≡ false
str_ltb_trans [] b [] h k = refl
str_ltb_trans [] [] (c ∷ cs) h k = cc
str_ltb_trans [] (b ∷ bs) (c ∷ cs) h k = refl
str_ltb_trans (a ∷ as') [] c h k = cc
str_ltb_trans (a ∷ as') (b ∷ bs) [] h k = cc
str_ltb_trans (a ∷ as') (b ∷ bs) (c ∷ cs) h k = ground (arith, str_ltb_trans as' bs cs)
