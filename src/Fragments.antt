-- ===== src/Fragments.antt =====
-- protocol/src/fragments.rs: content is cut into fragments that travel by themselves, and put
-- together again. blake3 is a parameter: its one-shot hash in hexadecimal, and its incremental one.
pub mod Chunks
pub mod Reassembly
mod Examples
use shadowmesh.Base.{
  ℕ, zero, suc, ◌+◌, ◌*◌, Bool, List, [], ◌∷◌, ◌++◌, Str, bytes, leb, if◌then◌else◌, length, take,
  drop, map, str_beq, ◌≡◌,
}
use shadowmesh.Base.Sort.{sort_by}

abbrev pub chunk_size : ℕ
chunk_size = 256 * 1024

-- The two numbers are `u32` in the code; here they have no bound.
pub record ContentFragment : Type 0 where
  pub index : ℕ
  pub total_fragments : ℕ
  pub content : Str
  pub hash : Str

pub record ContentMetadata : Type 0 where
  pub name : Str
  pub size : ℕ
  pub mime_type : Str

pub record ContentManifest : Type 0 where
  pub content_hash : Str
  pub fragments : List Str
  pub metadata : ContentMetadata

abbrev pub concat : List Str → Str
concat [] = []
concat (c ∷ cs) = c ++ concat cs

-- `data.chunks(n)`, on as much fuel as there are bytes.
unfoldable pub chunks_on : ℕ → ℕ → Str → List Str
chunks_on zero n content = []
chunks_on (suc fuel) n [] = []
chunks_on (suc fuel) n (b ∷ bs) = take n (b ∷ bs) ∷ chunks_on fuel n (drop n (b ∷ bs))

unfoldable pub chunks : ℕ → Str → List Str
unfolding chunks_on
chunks n content = chunks_on (length content) n content

module _ {H : Type 0} (update : H → Str → H) where
  -- `hasher.update` for each piece.
  abbrev pub feed : H → List Str → H
  feed h [] = h
  feed h (c ∷ cs) = feed (update h c) cs

-- What blake3 documents: feeding pieces one by one hashes their concatenation.
pub record Blake3 : Type 1 where
  pub Hasher : Type 0
  pub fresh : Hasher
  pub update : Hasher → Str → Hasher
  pub finalize : Hasher → Str
  pub hash : Str → Str
  pub finalize-feed :
      (pieces : List Str) → finalize (feed update fresh pieces) ≡ hash (concat pieces)

-- `into_iter().flat_map(|f| f.data)` over the fragments in the order of their indices.
unfoldable pub reassemble_fragments : List ContentFragment → Str
reassemble_fragments fragments = concat (map (λ f. f.content) (sort_by (λ f. f.index) fragments))

module _ (blake3 : Blake3) where
  -- The loop over the chunks: their hashes, and the hasher that has seen them.
  unfoldable pub hash_chunks : List Str → blake3.Hasher → List Str × blake3.Hasher
  hash_chunks [] h = ([], h)
  hash_chunks (c ∷ cs) h =
      let (hashes, h') = hash_chunks cs (blake3.update h c) in (blake3.hash c ∷ hashes, h')

  unfoldable pub fragment_content : Str → Str → ContentManifest
  unfolding hash_chunks
  fragment_content content name =
      let (hashes, h) = hash_chunks (chunks chunk_size content) blake3.fresh in
      record {
        content_hash = blake3.finalize h;
        fragments = hashes;
        metadata = record {
          name = name;
          size = length content;
          mime_type = bytes "application/octet-stream";
        };
      }

  unfoldable pub create_fragment : Str → ℕ → ℕ → ContentFragment
  create_fragment content index total_fragments = record {
    index = index;
    total_fragments = total_fragments;
    content = content;
    hash = blake3.hash content;
  }

  unfoldable pub verify_fragment : ContentFragment → Bool
  verify_fragment fragment = str_beq (blake3.hash fragment.content) fragment.hash
