-- ===== src/Crypto/Examples.antt =====
-- Three layers.
use shadowmesh.Base.{◌≡◌, refl, List, [], ◌∷◌, Str, bytes}
use shadowmesh.Base.Results.{ok, err}
use shadowmesh.Crypto.{encrypt, encrypt_raw, wrap, unwrap_all}
use shadowmesh.Crypto.Layers.{unwrap_all-wrap}
use shadowmesh.Crypto.Sample.{cipher}

abbrev keys : List Str
keys = bytes "k0" ∷ bytes "k1" ∷ bytes "k2" ∷ []

abbrev wrapped : Str
wrapped = elim (wrap cipher (λ i. bytes "abcdefghijkl") keys (bytes "GET /")) [
  | ok s ↦ s
  | err x ↦ []
]

unwrap_all-wrap_example : unwrap_all cipher keys wrapped ≡ ok (bytes "GET /")
unfolding wrap encrypt_raw encrypt
unwrap_all-wrap_example =
    unwrap_all-wrap cipher (λ i. bytes "abcdefghijkl") keys (bytes "GET /") wrapped (λ i. refl) refl
