-- ===== src/Naming/Names.antt =====
-- Which names are valid.
use shadowmesh.Base.{◌≤◌, ◌≡◌, ◌⊎◌, true, [], ◌++◌, Str, bytes, length, all}
use shadowmesh.Naming.Types.{starts_alphanumeric, ends_alphanumeric, is_label_char, max_name_length}

suffix : Str
suffix = bytes ".shadow"

-- A label: letters, digits and hyphens, a hyphen neither first nor last.
pub record IsLabel (label : Str) : Type 0 where
  pub first : starts_alphanumeric label ≡ true
  pub last : ends_alphanumeric label ≡ true
  pub chars : all is_label_char label ≡ true

-- A valid name: a label of at most 63 bytes, after an underscore or none, and the suffix.
pub record IsName (name : Str) : Type 0 where
  pub prefix : Str
  pub label : Str
  pub prefixed : (prefix ≡ []) ⊎ (prefix ≡ bytes "_")
  pub is_label : IsLabel label
  pub short : length (prefix ++ label) ≤ max_name_length
  pub whole : name ≡ (prefix ++ label) ++ bytes ".shadow"
