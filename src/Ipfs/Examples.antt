-- ===== src/Ipfs/Examples.antt =====
-- Attempts with concrete answers.
use shadowmesh.Base.{
  some, ◌∷◌, [], Option, ◌-◌, ℕ, ◌≡◌, refl, inl, none, Str, bytes, if◌then◌else◌, leb,
}
use shadowmesh.Ipfs.{
  default_config, Outcome, answered, elapsed, attempts, with_retries, store_content,
}
use shadowmesh.Ipfs.Directory.{AddResponse}
use shadowmesh.Ipfs.Retry.{
  outcomes, first_answer, last_error, answer_or, with_retries-result, IsShort, with_retries-IsShort,
}

-- The second attempt is answered.
abbrev second : ℕ → Outcome Str
second attempt = if leb attempt 1 then elapsed else answered (bytes "data")

second_wins : (store_content default_config (λ attempt. 42) second).result ≡ inl (bytes "data")
unfolding store_content with_retries attempts
second_wins = refl

with_retries-result_example :
    (with_retries 3 (λ attempt. 42) second).result
    ≡ answer_or (first_answer (outcomes second 3 1)) (last_error none (outcomes second 3 1))
with_retries-result_example = with_retries-result 3 (λ attempt. 42) second

with_retries-IsShort_example :
    IsShort (λ attempt. 42) 3 1 (with_retries 3 (λ attempt. 42) second).delays
with_retries-IsShort_example = with_retries-IsShort 3 (λ attempt. 42) second

abbrev climbing : Str
climbing = bytes "QmYwAPJzv5CZsnA625s3Xf2nemtYgPpHdWEz79ojWnPbdG/../x"

abbrev parse : Str → Option ℕ
parse [] = none
parse (d ∷ ds) = some (d - 48)

abbrev response : Str → Str → AddResponse
response name hash = record { name = name; hash = hash; size = bytes "7" }
