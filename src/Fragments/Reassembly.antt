-- ===== src/Fragments/Reassembly.antt =====
-- Fragments that arrive in any order give the content back.
use mathlib.Core.List.{Perm, Mem, Nodup, Nodup-cons, Nodup-nil, mem-cons, not-mem-nil}
use mathlib.Core.List.Perm
use mathlib.Core.Logic.Or
use shadowmesh.Base.{
  ℕ, ◌+◌, ◌≤◌, ◌<◌, ◌≡◌, refl, ap, sym, ◌∙◌, true, List, [], ◌∷◌, arith, Str, All, map,
  str_beq_refl,
}
use shadowmesh.Base.Sort.{sort_by-of_perm, sort_by_sorted, IsSorted}
use shadowmesh.Fragments.{
  ContentFragment, concat, chunks, Blake3, create_fragment, reassemble_fragments, verify_fragment,
}
use shadowmesh.Fragments.Chunks.{chunks-Cuts}

fragment-set : IsSet ContentFragment
fragment-set = hlevel

module _ (blake3 : Blake3) (total : ℕ) where
  -- The fragments of a sender: one for each chunk, numbered from `i` on.
  unfoldable pub numbered : ℕ → List Str → List ContentFragment
  numbered i [] = []
  numbered i (c ∷ cs) = create_fragment blake3 c i total ∷ numbered (i + 1) cs

  numbered-from :
      (i n : ℕ) (cs : List Str) → n ≤ i → All (λ (f : ContentFragment). n ≤ f.index) (numbered i cs)
  unfolding numbered create_fragment
  numbered-from i n [] h = tt
  numbered-from i n (c ∷ cs) h = (h, numbered-from (i + 1) n cs (omega arith))

  numbered-IsSorted :
      (i : ℕ) (cs : List Str) → IsSorted (λ (f : ContentFragment). f.index) (numbered i cs)
  unfolding numbered create_fragment
  numbered-IsSorted i [] = tt
  numbered-IsSorted i (c ∷ cs) =
      (numbered-from (i + 1) i cs (omega arith), numbered-IsSorted (i + 1) cs)

  not-mem_above :
      (i : ℕ) (fs : List ContentFragment)
      → All (λ f. i + 1 ≤ f.index) fs
      → ¬ Mem i (map (λ f. f.index) fs)
  not-mem_above i [] a m = not-mem-nil m
  not-mem_above i (f ∷ fs) a m =
      Or.elim (λ x y. absurd x) (mem-cons.0 m) (λ e. omega arith) (not-mem_above i fs a.1)

  numbered-Nodup : (i : ℕ) (cs : List Str) → Nodup (map (λ f. f.index) (numbered i cs))
  unfolding numbered create_fragment
  numbered-Nodup i [] = Nodup-nil
  numbered-Nodup i (c ∷ cs) = Nodup-cons.1 (
    not-mem_above i _ (numbered-from (i + 1) (i + 1) cs (omega arith)),
    numbered-Nodup (i + 1) cs,
  )

  contents-numbered : (i : ℕ) (cs : List Str) → map (λ f. f.content) (numbered i cs) ≡ cs
  unfolding numbered create_fragment
  contents-numbered i [] = refl
  contents-numbered i (c ∷ cs) = ap (λ r. c ∷ r) (contents-numbered (i + 1) cs)

  -- Cut into chunks of any size, numbered, and brought in any order, a content is put together
  -- again as it was.
  pub reassemble_fragments-chunks :
      (n : ℕ) (content : Str) (arrived : List ContentFragment)
      → 0 < n
      → Perm arrived (numbered 0 (chunks n content))
      → reassemble_fragments arrived ≡ content
  unfolding reassemble_fragments
  reassemble_fragments-chunks n content arrived pos p =
      ap (λ fs. concat (map (λ f. f.content) fs))
        (sym (
            sort_by-of_perm (λ f. f.index) fragment-set (Perm.symm p)
              (numbered-Nodup 0 (chunks n content)))
          ∙ sort_by_sorted (λ f. f.index) _ (numbered-IsSorted 0 (chunks n content)))
      ∙ ap concat (contents-numbered 0 (chunks n content))
      ∙ (chunks-Cuts n pos content).whole

  -- Each of those fragments passes its own check.
  numbered_verify :
      (i : ℕ) (cs : List Str) → All (λ f. verify_fragment blake3 f ≡ true) (numbered i cs)
  unfolding numbered create_fragment verify_fragment
  numbered_verify i [] = tt
  numbered_verify i (c ∷ cs) = (str_beq_refl (blake3.hash c), numbered_verify (i + 1) cs)
