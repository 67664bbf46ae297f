-- ===== src/Fragments/Examples.antt =====
-- Fragments of concrete contents, with a hash that is the content itself.
use mathlib.Core.List.{append_assoc, append-nil}
use mathlib.Core.List.Perm
use shadowmesh.Base.{ℕ, ◌≡◌, sym, ◌∙◌, List, [], ◌∷◌, ◌++◌, arith, Str, bytes}
use shadowmesh.Fragments.{
  ContentFragment, concat, chunks, chunks_on, feed, Blake3, create_fragment, reassemble_fragments,
}
use shadowmesh.Fragments.Reassembly.{numbered, reassemble_fragments-chunks}

feed-concat : (h : Str) (pieces : List Str) → feed (λ a b. a ++ b) h pieces ≡ h ++ concat pieces
feed-concat h [] = sym (append-nil h)
feed-concat h (c ∷ cs) = feed-concat (h ++ c) cs ∙ append_assoc h c (concat cs)

abbrev plain : Blake3
plain = record {
  Hasher = Str;
  fresh = [];
  update = λ a b. a ++ b;
  finalize = λ h. h;
  hash = λ h. h;
  finalize-feed = feed-concat [];
}

abbrev piece : Str → ℕ → ContentFragment
piece content index = record {
  index = index;
  total_fragments = 3;
  content = content;
  hash = content;
}

abbrev arrived : List ContentFragment
arrived = piece (bytes "cd") 1 ∷ piece (bytes "ab") 0 ∷ piece (bytes "e") 2 ∷ []

reassemble_fragments-chunks_example : reassemble_fragments arrived ≡ bytes "abcde"
unfolding numbered chunks chunks_on create_fragment
reassemble_fragments-chunks_example =
    reassemble_fragments-chunks plain 3 2 (bytes "abcde") arrived (omega arith)
      (Perm.swap (piece (bytes "ab") 0) (piece (bytes "cd") 1) (piece (bytes "e") 2 ∷ []))
