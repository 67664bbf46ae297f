-- ===== src/Cid/Format.antt =====
-- `validate_cid` decides the format table of the module's documentation.
use shadowmesh.Base.{
  ℕ, ◌≤◌, ◌≡◌, ◌≢◌, refl, ◌↔◌, ◌⊎◌, inl, inr, true, [], ◌∷◌, ◌++◌, arith, Str, bytes, length, all,
  All, all→All, All→all, All-imp,
}
use shadowmesh.Cid.{is_base58, is_base32_lower, starts_with, validate_cid}

-- `c` lies between two characters.
abbrev Between : ℕ → ℕ → ℕ → Type 0
Between lo hi c = (lo ≤ c) × (c ≤ hi)

-- Digits and letters without `0`, `O`, `I` and `l`.
abbrev pub Base58 : ℕ → Type 0
Base58 c =
    Between b'1' b'9' c
    ⊎ ((Between b'A' b'Z' c × (c ≢ b'I') × (c ≢ b'O')) ⊎ (Between b'a' b'z' c × (c ≢ b'l')))

-- `a-z2-7`
abbrev pub Base32 : ℕ → Type 0
Base32 c = Between b'a' b'z' c ⊎ Between b'2' b'7' c

is_base58-Base58 : (c : ℕ) → is_base58 c ≡ true → Base58 c
unfolding is_base58
is_base58-Base58 c h = ground arith

Base58-is_base58 : (c : ℕ) → Base58 c → is_base58 c ≡ true
unfolding is_base58
Base58-is_base58 c h = ground arith

is_base32_lower-Base32 : (c : ℕ) → is_base32_lower c ≡ true → Base32 c
unfolding is_base32_lower
is_base32_lower-Base32 c h = ground arith

Base32-is_base32_lower : (c : ℕ) → Base32 c → is_base32_lower c ≡ true
unfolding is_base32_lower
Base32-is_base32_lower c h = ground arith

starts_with_sound : (p s : Str) → starts_with p s ≡ true → (r : Str) × (s ≡ p ++ r)
unfolding starts_with
starts_with_sound [] s h = (s, refl)
starts_with_sound (a ∷ p) [] h = cc
starts_with_sound (a ∷ p) (c ∷ s) h =
    let (r, e) = starts_with_sound p s (ground arith) in (r, ground (arith, e))

starts_with_append : (p r : Str) → starts_with p (p ++ r) ≡ true
unfolding starts_with
starts_with_append [] r = refl
starts_with_append (a ∷ p) r = ground (arith, starts_with_append p r)

-- The table: `Qm`, 46 bytes, Base58, or `bafy`, 59 bytes, Base32lower.
pub data Cid (s : Str) : Type 0 where
  v0 : (r : Str) → s ≡ bytes "Qm" ++ r → length s ≡ 46 → All Base58 s → Cid s
  v1 : (r : Str) → s ≡ bytes "bafy" ++ r → length s ≡ 59 → All Base32 s → Cid s

validate_cid_complete : (s : Str) → Cid s → validate_cid s ≡ true
unfolding validate_cid starts_with
validate_cid_complete s (v0 r e n a) =
    ground (arith, e, All→all is_base58 s (All-imp Base58-is_base58 s a))
validate_cid_complete s (v1 r e n a) =
    ground (arith, e, All→all is_base32_lower s (All-imp Base32-is_base32_lower s a))

validate_cid_cases :
    (s : Str)
    → validate_cid s ≡ true
    → ((starts_with (bytes "Qm") s ≡ true) × (length s ≡ 46) × (all is_base58 s ≡ true))
      ⊎ ((starts_with (bytes "bafy") s ≡ true) × (length s ≡ 59) × (all is_base32_lower s ≡ true))
unfolding validate_cid
validate_cid_cases [] h = cc
validate_cid_cases (c ∷ s) h = ground arith

validate_cid_sound : (s : Str) → validate_cid s ≡ true → Cid s
validate_cid_sound s h = elim (validate_cid_cases s h) [
  | inl (p, n, a) ↦
      let (r, e) = starts_with_sound _ s p in
      v0 r e n (All-imp is_base58-Base58 s (all→All is_base58 s a))
  | inr (p, n, a) ↦
      let (r, e) = starts_with_sound _ s p in
      v1 r e n (All-imp is_base32_lower-Base32 s (all→All is_base32_lower s a))
]

-- `validate_cid` accepts exactly the texts of the two formats: `Qm` with 46 bytes of Base58 (digits
-- and letters without 0, O, I, l), and `bafy` with 59 bytes of a-z and 2-7.
pub validate_cid_iff : (s : Str) → (validate_cid s ≡ true) ↔ Cid s
validate_cid_iff s = (validate_cid_sound s, validate_cid_complete s)
