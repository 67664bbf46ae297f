-- ===== src/Cid/Examples.antt =====
-- The validators at concrete paths.
use shadowmesh.Base.{◌≡◌, refl, none, some, [], ◌++◌, Str, bytes, inl}
use shadowmesh.Cid.{
  validate_cid, validate_cid_path, ok, err, traversal_attempt, split_at_slash, has_dots,
  split_slash, starts_with, is_base58,
}
use shadowmesh.Cid.Paths.{validate_cid_path_iff, validated_walk, IsSafe, walk, push_all, segments}

abbrev valid_v0 : Str
valid_v0 = bytes "QmYwAPJzv5CZsnN625s3Xf2nemtYgPpHdWEz79ojWnPbdG"

abbrev readme : Str
readme = bytes "QmYwAPJzv5CZsnN625s3Xf2nemtYgPpHdWEz79ojWnPbdG/docs/readme.md"

readme_ok : validate_cid_path readme ≡ ok (valid_v0, some (bytes "docs/readme.md"))
unfolding validate_cid_path validate_cid starts_with is_base58 split_at_slash has_dots
readme_ok = refl

traversal_refused :
    validate_cid_path (valid_v0 ++ bytes "/docs/../readme.md") ≡ err traversal_attempt
unfolding validate_cid_path validate_cid starts_with is_base58 split_at_slash has_dots
traversal_refused = refl

validate_cid_path_iff_example : IsSafe valid_v0 (some (bytes "docs/readme.md"))
validate_cid_path_iff_example =
    ((validate_cid_path_iff readme valid_v0 (some (bytes "docs/readme.md"))).0 readme_ok).2

validated_walk_example :
    walk [] (segments (some (bytes "docs/readme.md")))
    ≡ some (push_all [] (segments (some (bytes "docs/readme.md"))))
validated_walk_example =
    validated_walk readme valid_v0 (some (bytes "docs/readme.md")) [] (inl readme_ok)

walk_escapes : walk [] (segments (some (bytes "a/../../b"))) ≡ none
unfolding walk split_slash
walk_escapes = refl
