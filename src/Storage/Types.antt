-- ===== src/Storage/Types.antt =====
-- The data of node-runner/src/storage.rs, its errors, and `fragment_path`.
-- The file system is not modelled: `Disk` holds its answers during one call, whatever they are.
use shadowmesh.Base.{
  ℕ, ◌-◌, ◌^◌, Bool, true, ◌&&◌, ◌||◌, Option, List, [], ◌∷◌, leb, ltb, Str, bytes, if◌then◌else◌,
  length, take, drop, all, min_ℕ,
}
use shadowmesh.Base.Map.{Map}

abbrev pub u64_mod : ℕ
u64_mod = 2 ^ 64

pub record StorageStats : Type 0 where
  pub total_bytes : ℕ
  pub fragment_count : ℕ
  pub content_count : ℕ
  pub pinned_count : ℕ
  pub capacity_bytes : ℕ
  pub last_gc : Option ℕ

unfoldable pub available_bytes : StorageStats → ℕ
available_bytes s = s.capacity_bytes - s.total_bytes

pub record StoredFragment : Type 0 where
  pub hash : Str
  pub cid : Str
  pub index : ℕ
  pub size : ℕ
  pub stored_at : ℕ
  pub last_accessed : ℕ
  pub access_count : ℕ
  pub pinned : Bool

pub record StoredContent : Type 0 where
  pub cid : Str
  pub name : Str
  pub total_size : ℕ
  pub fragment_count : ℕ
  pub fragments : List Str
  pub stored_at : ℕ
  pub pinned : Bool
  pub mime_type : Str

pub record StorageManager : Type 0 where
  pub data_dir : Str
  pub max_capacity : ℕ
  pub fragments : Map Str StoredFragment
  pub content : Map Str StoredContent
  pub current_usage : ℕ
  pub stats : StorageStats

pub data StorageError : Type 0 where
  insufficient_space : ℕ → ℕ → StorageError
  not_found pinned invalid_hash : Str → StorageError
  io : StorageError

-- `panics`: the call unwinds instead of returning.
pub data Outcome {ℓ} (A : Type ℓ) : Type ℓ where
  ok : A → Outcome A
  err : StorageError → Outcome A
  panics : Outcome A

-- A path, as its components.
abbrev pub FilePath : Type 0
FilePath = List Str

pub record Disk : Type 0 where
  pub create_dir_all : FilePath → Bool
  pub write : FilePath → Str → Bool
  pub read : FilePath → Option Str
  pub exists : FilePath → Bool
  pub remove_file : FilePath → Bool
  pub save_metadata : Bool

abbrev pub is_ascii_alphanumeric : ℕ → Bool
is_ascii_alphanumeric b =
    (leb b'0' b && leb b b'9') || (leb b'A' b && leb b b'Z') || (leb b'a' b && leb b b'z')

-- `str::is_char_boundary` for an index up to the length: no continuation byte follows.
abbrev pub is_char_boundary : ℕ → Str → Bool
is_char_boundary i s = elim (drop i s) [ [] ↦ true | b ∷ rest ↦ ltb b 0x80 || leb 0xC0 b ]

-- In UTF-8 each character that is not ASCII has bytes from 0x80 on alone, so that all characters
-- are ASCII alphanumeric exactly when all bytes are.
abbrev pub valid_hash : Str → Bool
valid_hash hash = leb 1 (length hash) && leb (length hash) 512 && all is_ascii_alphanumeric hash

abbrev pub path_of : Str → Str → FilePath
path_of data_dir hash = data_dir ∷ bytes "fragments" ∷ take (min_ℕ 2 (length hash)) hash ∷ hash ∷ []

unfoldable pub fragment_path : Str → Str → Outcome FilePath
fragment_path data_dir hash =
    if valid_hash hash
    then ok (path_of data_dir hash)
    else let shown = min_ℕ (length hash) 32 in
      if is_char_boundary shown hash then err (invalid_hash (take shown hash)) else panics
