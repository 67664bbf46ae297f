-- ===== src/Cid.antt =====
-- protocol/src/cid_validation.rs, which gateway/src/cid_validation.rs passes on: what a CID and a
-- content path may look like before they reach IPFS. A `&str` is the list of its bytes.
pub mod Split
pub mod Format
pub mod Paths
mod Examples
use shadowmesh.Base.{
  ℕ, zero, suc, ◌+◌, Bool, true, false, not, ◌&&◌, ◌||◌, Option, none, some, List, [], ◌∷◌, leb,
  ltb, nat_beq, Str, bytes, str_beq, if◌then◌else◌, length, take, drop, all, any,
}

abbrev pub max_cid_path_len : ℕ
max_cid_path_len = 512

abbrev pub base58_chars : Str
base58_chars = bytes "123456789ABCDEFGHJKLMNPQRSTUVWXYZabcdefghijkmnopqrstuvwxyz"

abbrev pub base32_lower_chars : Str
base32_lower_chars = bytes "abcdefghijklmnopqrstuvwxyz234567"

-- `slice.contains(&c)`
pub has_byte : Str → ℕ → Bool
has_byte s c = any (λ x. nat_beq x c) s

unfoldable pub is_base58 : ℕ → Bool
unfolding has_byte
is_base58 c = has_byte base58_chars c

unfoldable pub is_base32_lower : ℕ → Bool
unfolding has_byte
is_base32_lower c = has_byte base32_lower_chars c

unfoldable pub all_base58 : Str → Bool
all_base58 s = all is_base58 s

unfoldable pub all_base32_lower : Str → Bool
all_base32_lower s = all is_base32_lower s

-- `str::starts_with`
unfoldable pub starts_with : Str → Str → Bool
starts_with [] s = true
starts_with (p ∷ ps) [] = false
starts_with (p ∷ ps) (c ∷ s) = nat_beq p c && starts_with ps s

abbrev pub is_empty : Str → Bool
is_empty [] = true
is_empty (c ∷ s) = false

unfoldable pub validate_cid : Str → Bool
unfolding all_base58 all_base32_lower
validate_cid cid =
    if is_empty cid
    then false
    else if starts_with (bytes "Qm") cid
    then nat_beq (length cid) 46 && all_base58 cid
    else if starts_with (bytes "bafy") cid
    then nat_beq (length cid) 59 && all_base32_lower cid
    else false

pub data CidValidationError : Type 0 where
  empty too_long control_character invalid_cid traversal_attempt : CidValidationError

pub data Result {ℓ} (A : Type ℓ) : Type ℓ where
  ok : A → Result A
  err : CidValidationError → Result A

abbrev pub slash : ℕ
slash = b'/'

-- `path.find('/')`
unfoldable pub find_slash : Str → Option ℕ
find_slash [] = none
find_slash (c ∷ s) =
    if nat_beq c slash then some 0 else elim (find_slash s) [ none ↦ none | some i ↦ some (suc i) ]

-- `sub.split('/')`
unfoldable pub split_slash : Str → List Str
split_slash [] = [] ∷ []
split_slash (c ∷ s) = elim (split_slash s) [
  | [] ↦ []
  | seg ∷ rest ↦ if nat_beq c slash then [] ∷ seg ∷ rest else (c ∷ seg) ∷ rest
]

abbrev pub is_control : ℕ → Bool
is_control b = ltb b 0x20

abbrev pub is_dots : Str → Bool
is_dots segment = str_beq segment (bytes ".") || str_beq segment (bytes "..")

unfoldable pub split_at_slash : Str → Str × Option Str
unfolding find_slash
split_at_slash path = elim (find_slash path) [
  | none ↦ (path, none)
  | some pos ↦ (take pos path, some (drop (pos + 1) path))
]

unfoldable pub has_dots : Option Str → Bool
unfolding split_slash
has_dots none = false
has_dots (some sub) = any is_dots (split_slash sub)

-- The two validators differ in the test of the identifier alone.
unfoldable pub validate_cid_path : Str → Result (Str × Option Str)
validate_cid_path path =
    if is_empty path
    then err empty
    else if ltb max_cid_path_len (length path)
    then err too_long
    else if any is_control path
    then err control_character
    else let (cid, subpath) = split_at_slash path in
      if not (validate_cid cid)
      then err invalid_cid
      else if has_dots subpath
      then err traversal_attempt
      else ok (cid, subpath)

abbrev pub is_ascii_alphanumeric : ℕ → Bool
is_ascii_alphanumeric b =
    (leb b'0' b && leb b b'9') || (leb b'A' b && leb b b'Z') || (leb b'a' b && leb b b'z')

unfoldable pub validate_content_path : Str → Result (Str × Option Str)
validate_content_path path =
    if is_empty path
    then err empty
    else if ltb max_cid_path_len (length path)
    then err too_long
    else if any is_control path
    then err control_character
    else let (content_id, subpath) = split_at_slash path in
      if is_empty content_id
        || ltb 128 (length content_id)
        || not (all is_ascii_alphanumeric content_id)
      then err invalid_cid
      else if has_dots subpath
      then err traversal_attempt
      else ok (content_id, subpath)
