-- ===== src/Crypto/Sample.antt =====
-- A cipher for the examples, which only checks the key, by a checksum.
use shadowmesh.Base.{
  ◌≡◌, refl, subst, true, Option, none, some, [], ◌∷◌, arith, Str, nat_beq, if◌then◌else◌,
}
use shadowmesh.Base.Sample.{checksum}
use shadowmesh.Crypto.{Cipher}

abbrev pub unsealed : Str → Str → Option Str
unsealed key [] = none
unsealed key (t ∷ s) = if nat_beq t (checksum key) then some s else none

pub unsealed_lem : (k p c : Str) → some (checksum k ∷ p) ≡ some c → unsealed k c ≡ some p
unsealed_lem k p c made =
    let same : checksum k ∷ p ≡ c = cc made in
    let alike : nat_beq (checksum k) (checksum k) ≡ true = ground arith in
    subst (λ t. unsealed k t ≡ some p) same (rw alike refl)

abbrev pub cipher : Cipher
cipher = record {
  seal = λ k n p. some (checksum k ∷ p);
  unseal = λ k n c. unsealed k c;
  unseal-seal = λ k n p c made. unsealed_lem k p c made;
}
