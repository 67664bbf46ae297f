-- ===== src/Storage/Paths.antt =====
-- Where `fragment_path` puts a fragment.
use shadowmesh.Base.{
  ℕ, zero, suc, bytes, ◌≤◌, ◌<◌, ◌≡◌, ap, sym, ◌∙◌, Bool, true, false, ◌&&◌, ◌⊎◌, [], ◌∷◌, arith,
  Str, all, All, all→All, All-imp, All-take, length, take, drop, min_ℕ,
}
use shadowmesh.Storage.Types.{
  FilePath, ok, panics, fragment_path, path_of, valid_hash, is_ascii_alphanumeric, is_char_boundary,
}

-- A component that no file system reads as a separator or as a step up.
abbrev pub PlainByte : ℕ → Type 0
PlainByte b = ((b'0' ≤ b) × (b ≤ b'9')) ⊎ (((b'A' ≤ b) × (b ≤ b'Z')) ⊎ ((b'a' ≤ b) × (b ≤ b'z')))

alphanumeric-PlainByte : (b : ℕ) → is_ascii_alphanumeric b ≡ true → PlainByte b
alphanumeric-PlainByte b h = ground arith

module _ (data_dir hash : Str) (p : FilePath) where
  path_ok :
      fragment_path data_dir hash ≡ ok p → (valid_hash hash ≡ true) × (path_of data_dir hash ≡ p)
  unfolding fragment_path
  path_ok h = ground arith

last : FilePath → Str
last [] = []
last (c ∷ []) = c
last (c ∷ d ∷ ds) = last (d ∷ ds)

-- Two hashes that get a path get different files, unless they are the same hash.
pub fragment_path_inj :
    (data_dir h k : Str) (p : FilePath)
    → fragment_path data_dir h ≡ ok p
    → fragment_path data_dir k ≡ ok p
    → h ≡ k
unfolding last
fragment_path_inj data_dir h k p a b =
    ap last ((path_ok data_dir h p a).1 ∙ sym (path_ok data_dir k p b).1)

valid_bytes : (hash : Str) → valid_hash hash ≡ true → All PlainByte hash × (0 < length hash)
valid_bytes hash h =
    (All-imp alphanumeric-PlainByte hash (all→All _ hash (ground arith)), ground arith)

-- The components that a path has below the data directory are the word `fragments` and two that are
-- made of letters and digits alone, so that it names a file below that directory.
pub fragment_path-IsPlain :
    (data_dir hash : Str) (p : FilePath)
    → fragment_path data_dir hash ≡ ok p
    → (sub : Str) × (p ≡ data_dir ∷ bytes "fragments" ∷ sub ∷ hash ∷ [])
      × All PlainByte sub
      × All PlainByte hash
      × (0 < length hash)
fragment_path-IsPlain data_dir hash p h =
    let (v, e) = path_ok data_dir hash p h in
    let (plain, long) = valid_bytes hash v in
    (take (min_ℕ 2 (length hash)) hash, sym e, All-take PlainByte _ hash plain, plain, long)

not_alphanumeric :
    (n : ℕ) (s : Str) (b : ℕ) (rest : Str)
    → drop n s ≡ b ∷ rest
    → 0x80 ≤ b
    → all is_ascii_alphanumeric s ≡ false
not_alphanumeric zero [] b rest e h = cc
not_alphanumeric zero (c ∷ s) b rest e h = ground arith
not_alphanumeric (suc n) [] b rest e h = cc
not_alphanumeric (suc n) (c ∷ s) b rest e h = ground (arith, not_alphanumeric n s b rest)

and_false : (a b c : Bool) → c ≡ false → (a && b && c) ≡ false
and_false a b c h = ground arith

min_above : (n k : ℕ) → k < n → min_ℕ n k ≡ k
min_above n k h = ground arith

cut_inside :
    (n : ℕ) (s : Str) (b : ℕ) (rest : Str)
    → drop n s ≡ b ∷ rest
    → 0x80 ≤ b
    → b < 0xC0
    → is_char_boundary n s ≡ false
cut_inside n s b rest e lo hi = ground arith

-- A hash with more than 32 bytes whose 33rd byte continues a character is not refused: to cut the
-- text for the error message, `fragment_path` indexes inside that character, and panics.
pub fragment_path-panics :
    (data_dir hash : Str) (b : ℕ) (rest : Str)
    → 32 < length hash
    → drop 32 hash ≡ b ∷ rest
    → 0x80 ≤ b
    → b < 0xC0
    → fragment_path data_dir hash ≡ panics
unfolding fragment_path
fragment_path-panics data_dir hash b rest long e lo hi =
    rw (and_false _ _ _ (not_alphanumeric 32 hash b rest e lo))
      (rw (min_above (length hash) 32 long) (rw (cut_inside 32 hash b rest e lo hi)))
