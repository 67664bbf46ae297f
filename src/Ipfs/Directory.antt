-- ===== src/Ipfs/Directory.antt =====
-- `store_directory` of protocol/src/storage.rs: the files of a directory go up in one request, whose
-- answer lists them and, without a name, the directory itself. The entries that the walk finds are
-- an argument, each with its bytes or without when it cannot be read.
use shadowmesh.Base.{
  ℕ, ◌%◌, ◌^◌, ◌⊎◌, ◌≡◌, refl, inl, inr, Bool, true, false, not, Option, none, some, List, [], ◌∷◌,
  ◌++◌, Str, All, if◌then◌else◌, filter, map, is_nil, sum_of,
}
use shadowmesh.Ipfs.{IpfsError, other, timed_out, Outcome, answered, failed, elapsed}

pub record AddResponse : Type 0 where
  pub name : Str
  pub hash : Str
  pub size : Str

pub record UploadedFile : Type 0 where
  pub name : Str
  pub hash : Str
  pub size : ℕ

pub record DirectoryUploadResult : Type 0 where
  pub root_cid : Str
  pub files : List UploadedFile
  pub total_size : ℕ

-- The loop over the walk: the bytes of every file, or nothing when one cannot be read.
unfoldable pub read_all : List (Str × Option Str) → Option (List (Str × Str))
read_all [] = some []
read_all ((name, none) ∷ es) = none
read_all ((name, some content) ∷ es) = elim (read_all es) [
  | none ↦ none
  | some files ↦ some ((name, content) ∷ files)
]

abbrev pub last_hash : List AddResponse → Str
last_hash [] = []
last_hash (r ∷ []) = r.hash
last_hash (r ∷ s ∷ rs) = last_hash (s ∷ rs)

-- `iter().rev().find(|r| r.name.is_empty())`
unfoldable pub last_nameless : List AddResponse → Option AddResponse
last_nameless [] = none
last_nameless (r ∷ rs) =
    let later = last_nameless rs in
    elim later [ none ↦ (if is_nil r.name then some r else none) | some s ↦ some s ]

abbrev pub root_of : Option AddResponse → List AddResponse → Str
root_of none results = last_hash results
root_of (some r) results = r.hash

abbrev pub or_zero : Option ℕ → ℕ
or_zero none = 0
or_zero (some n) = n

-- `parse_u64` is the standard library's `str::parse`.
module _ (parse_u64 : Str → Option ℕ) where
  abbrev pub uploaded : AddResponse → UploadedFile
  uploaded r = record { name = r.name; hash = r.hash; size = or_zero (parse_u64 r.size) }

  unfoldable pub upload_result : List AddResponse → DirectoryUploadResult
  upload_result results =
      let files = map uploaded (filter (λ r. not (is_nil r.name)) results) in
      record {
        root_cid = root_of (last_nameless results) results;
        files = files;
        total_size = sum_of (λ f. f.size) files % 2 ^ 64;
      }

  upload_outcome : Outcome (List AddResponse) → DirectoryUploadResult ⊎ IpfsError
  upload_outcome (answered results) = inl (upload_result results)
  upload_outcome (failed error) = inr error
  upload_outcome elapsed = inr timed_out

  -- `not_found`, `not_a_directory` and `unreadable` are the texts of the errors.
  unfoldable pub store_directory :
      Str
      → Str
      → Str
      → Bool
      → Bool
      → List (Str × Option Str)
      → (List (Str × Str) → Outcome (List AddResponse))
      → DirectoryUploadResult ⊎ IpfsError
  unfolding upload_outcome
  store_directory not_found not_a_directory unreadable exists is_dir walk add_directory =
      if not exists
      then inr (other not_found)
      else if not is_dir
      then inr (other not_a_directory)
      else elim (read_all walk) [
        | none ↦ inr (other unreadable)
        | some files ↦ upload_outcome (add_directory files)
      ]

  no_nameless :
      (rs : List AddResponse) → All (λ r. is_nil r.name ≡ false) rs → last_nameless rs ≡ none
  unfolding last_nameless
  no_nameless [] a = refl
  no_nameless (r ∷ rs) a = rw (no_nameless rs a.1, a.0) refl

  last_nameless-append :
      (before after : List AddResponse) (r : AddResponse)
      → is_nil r.name ≡ true
      → All (λ r. is_nil r.name ≡ false) after
      → last_nameless (before ++ r ∷ after) ≡ some r
  unfolding last_nameless
  last_nameless-append [] after r e a = rw (no_nameless after a, e) refl
  last_nameless-append (b ∷ before) after r e a = rw (last_nameless-append before after r e a) refl

  read_all-of_files :
      (files : List (Str × Str)) → read_all (map (λ f. (f.0, some f.1)) files) ≡ some files
  unfolding read_all
  read_all-of_files [] = refl
  read_all-of_files ((name, content) ∷ fs) = rw (read_all-of_files fs) refl

  -- When every file can be read and the answer to the request has a response without a name, the
  -- root is the hash of the last such response, wherever it stands; the files are the responses with
  -- a name, in order, and the total is the sum of their sizes, a size that is no number being 0.
  pub store_directory_lem :
      (not_found not_a_directory unreadable : Str) (files : List (Str × Str))
      (add_directory : List (Str × Str) → Outcome (List AddResponse))
      (before after : List AddResponse) (r : AddResponse)
      → is_nil r.name ≡ true
      → All (λ r. is_nil r.name ≡ false) after
      → add_directory files ≡ answered (before ++ r ∷ after)
      → let named = map uploaded (filter (λ r. not (is_nil r.name)) (before ++ r ∷ after)) in
        store_directory not_found not_a_directory unreadable true true
          (map (λ f. (f.0, some f.1)) files)
          add_directory
        ≡ inl (record {
          root_cid = r.hash;
          files = named;
          total_size = sum_of (λ f. f.size) named % 2 ^ 64;
        })
  unfolding store_directory upload_result
  store_directory_lem not_found not_a_directory unreadable files add_directory before after r e a
        sent =
      rw (read_all-of_files files, sent, last_nameless-append before after r e a) refl
