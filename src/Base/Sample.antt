-- ===== src/Base/Sample.antt =====
-- What the examples of several parts use: a checksum for a hash, and strings one after the other.
use mathlib.Core.Path.{◌≡◌, refl, ap, subst, ◌∙◌}
use mathlib.Core.Option.{Option, some}
use mathlib.Core.List.{List, [], ◌∷◌, ◌++◌}
use Prim.Native.Nat.{ℕ, zero, suc, ◌+◌, ◌*◌, ◌%◌}
use shadowmesh.Base.Lists.{length, take, drop, take-append, drop-append}
use shadowmesh.Base.KeyEq.{Str}

abbrev pub checksum : Str → ℕ
checksum [] = 7
checksum (x ∷ s) = (x + 31 * checksum s) % 65_521

abbrev pub first : Str → ℕ
first [] = 0
first (x ∷ s) = x

-- Each string after its length.
abbrev pub encode : List Str → Str
encode [] = []
encode (x ∷ xs) = length x ∷ (x ++ encode xs)

abbrev pub decode : ℕ → Str → List Str
decode zero s = []
decode (suc n) [] = []
decode (suc n) (k ∷ s) = take k s ∷ decode n (drop k s)

pub decode-encode : (xs : List Str) → decode (length xs) (encode xs) ≡ xs
decode-encode [] = refl
decode-encode (x ∷ xs) =
    rw
      (
        take-append (length x) x (encode xs) refl,
        drop-append (length x) x (encode xs) refl,
        decode-encode xs,
      )
      refl

pub decode_back :
    {A : Type 0} (n : ℕ) (to : A → List Str) (from : List Str → Option A)
    → ((a : A) → length (to a) ≡ n)
    → ((a : A) → from (to a) ≡ some a)
    → (a : A) (s : Str) → some (encode (to a)) ≡ some s
    → from (decode n s) ≡ some a
decode_back n to from many back a s made =
    let at_count : from (decode n (encode (to a))) ≡ some a =
      subst (λ k. from (decode k (encode (to a))) ≡ some a) (many a)
        (ap from (decode-encode (to a)) ∙ back a) in
    let same : encode (to a) ≡ s = cc made in subst (λ t. from (decode n t) ≡ some a) same at_count
