-- ===== src/Fragments/Chunks.antt =====
-- The chunks of a content, and the manifest made from them.
use shadowmesh.Base.{
  ℕ, zero, suc, ◌+◌, ◌-◌, ◌*◌, ◌≤◌, ◌<◌, ◌≡◌, refl, ap, ◌∙◌, List, [], ◌∷◌, ◌++◌, arith, Str, All,
  length, take, drop, map, length-take,
}
use native.Mathlib.Decide.{dec_lt}
use shadowmesh.Fragments.{
  chunk_size, concat, chunks_on, chunks, feed, Blake3, hash_chunks, fragment_content,
}

take-append-drop : (n : ℕ) (xs : Str) → take n xs ++ drop n xs ≡ xs
take-append-drop zero xs = refl
take-append-drop (suc n) [] = refl
take-append-drop (suc n) (x ∷ xs) = rw (take-append-drop n xs)

length-drop : (n : ℕ) (xs : Str) → length (drop n xs) ≡ length xs - n
length-drop zero xs = omega arith
length-drop (suc n) [] = omega arith
length-drop (suc n) (x ∷ xs) = omega (arith, length-drop n xs)

few_times : (k n : ℕ) → k * n < n → k * n ≡ 0
few_times zero n h = omega arith
few_times (suc k) n h = absurd (omega arith)

needed_step : (k n l r : ℕ) → 0 < l → r ≡ l - n → k * n < r + n → suc k * n < l + n
needed_step k n l r pos e h = elim (dec_lt l n) [
  | yes short ↦ omega (arith, few_times k n (omega arith))
  | no long ↦ omega arith
]

-- As many chunks as whole chunks fit in, rounded up, none of them empty or too long, and in order
-- the content.
pub record Cuts (n : ℕ) (content : Str) (cs : List Str) : Type 0 where
  pub whole : concat cs ≡ content
  pub sizes : All (λ c. (0 < length c) × (length c ≤ n)) cs
  pub enough : length content ≤ length cs * n
  pub needed : length cs * n < length content + n

module _ (n : ℕ) (pos : 0 < n) where
  chunks_on-Cuts :
      (fuel : ℕ) (content : Str) → length content ≤ fuel → Cuts n content (chunks_on fuel n content)
  unfolding chunks_on
  chunks_on-Cuts zero [] h = record {
    whole = refl;
    sizes = tt;
    enough = omega arith;
    needed = omega arith;
  }
  chunks_on-Cuts zero (b ∷ bs) h = absurd (omega arith)
  chunks_on-Cuts (suc fuel) [] h = record {
    whole = refl;
    sizes = tt;
    enough = omega arith;
    needed = omega arith;
  }
  chunks_on-Cuts (suc fuel) (b ∷ bs) h =
      let rest = chunks_on-Cuts fuel (drop n (b ∷ bs)) (omega (arith, length-drop n (b ∷ bs))) in
      record {
        whole = ap (λ r. take n (b ∷ bs) ++ r) rest.whole ∙ take-append-drop n (b ∷ bs);
        sizes = (
          (omega (arith, length-take n (b ∷ bs)), omega (arith, length-take n (b ∷ bs))),
          rest.sizes,
        );
        enough = omega (arith, rest.enough, length-drop n (b ∷ bs));
        needed = needed_step _ n _ _ (omega arith) (length-drop n (b ∷ bs)) rest.needed;
      }

  pub chunks-Cuts : (content : Str) → Cuts n content (chunks n content)
  unfolding chunks
  chunks-Cuts content = chunks_on-Cuts (length content) content (omega arith)

module _ (blake3 : Blake3) where
  hash_chunks_lem :
      (cs : List Str) (h : blake3.Hasher)
      → hash_chunks blake3 cs h ≡ (map blake3.hash cs, feed blake3.update h cs)
  unfolding hash_chunks
  hash_chunks_lem [] h = refl
  hash_chunks_lem (c ∷ cs) h = rw (hash_chunks_lem cs (blake3.update h c)) refl

  -- The manifest of a content: its hash is the hash of the whole content, its fragments are the
  -- hashes of the chunks in order, and its size is that of the content. The chunks are the content
  -- cut at 256 KiB: none is empty or longer, their number is the size divided by 256 KiB and rounded
  -- up, and together they are the content.
  pub fragment_content_lem :
      (content name : Str)
      → let m = fragment_content blake3 content name in
        (m.content_hash ≡ blake3.hash content)
        × (m.fragments ≡ map blake3.hash (chunks chunk_size content))
        × (m.metadata.size ≡ length content)
        × Cuts chunk_size content (chunks chunk_size content)
  unfolding fragment_content
  fragment_content_lem content name =
      let cs = chunks chunk_size content in
      let cuts = chunks-Cuts chunk_size (omega arith) content in
      rw (hash_chunks_lem cs blake3.fresh)
        (blake3.finalize-feed cs ∙ ap blake3.hash cuts.whole, refl, refl, cuts)
