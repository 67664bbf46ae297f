-- ===== src/Crypto.antt =====
-- protocol/src/crypto.rs: keys and layers of encryption. ChaCha20-Poly1305 and BLAKE3 are
-- parameters; what is documented of the cipher stands in the record `Cipher`. Nonces are
-- arguments; the texts of the errors are left out.
pub mod Layers
pub mod Sample
mod Examples
use shadowmesh.Base.{
  ℕ, zero, suc, ◌+◌, ◌-◌, ◌≤◌, ◌≡◌, Bool, Option, none, some, List, [], ◌∷◌, ◌++◌, ltb, leb,
  nat_beq, Str, bytes, str_beq, if◌then◌else◌, length, take, drop, map,
}
use shadowmesh.Base.Results.{Result, ok, err, ◌>>=◌}

abbrev pub key_size : ℕ
key_size = 32

abbrev pub nonce_size : ℕ
nonce_size = 12

pub data CryptoError : Type 0 where
  encryption_failed decryption_failed invalid_key_size invalid_nonce invalid_ciphertext :
      CryptoError

pub record EncryptedData : Type 0 where
  pub nonce : Str
  pub ciphertext : Str

-- `encrypt` and `decrypt` of the cipher, on a key and a nonce: what was encrypted is decrypted.
pub record Cipher : Type 0 where
  pub seal : Str → Str → Str → Option Str
  pub unseal : Str → Str → Str → Option Str
  pub unseal-seal : (k n p c : Str) → seal k n p ≡ some c → unseal k n c ≡ some p

module _ (cipher : Cipher) where
  abbrev pub sealed : Str → Option Str → Result CryptoError EncryptedData
  sealed nonce none = err encryption_failed
  sealed nonce (some ciphertext) = ok (record { nonce = nonce; ciphertext = ciphertext })

  unfoldable pub encrypt : Str → Str → Str → Result CryptoError EncryptedData
  encrypt key nonce plaintext = sealed nonce (cipher.seal key nonce plaintext)

  abbrev pub opened : Option Str → Result CryptoError Str
  opened none = err decryption_failed
  opened (some plaintext) = ok plaintext

  unfoldable pub decrypt : Str → EncryptedData → Result CryptoError Str
  decrypt key encrypted =
      if nat_beq (length encrypted.nonce) nonce_size
      then opened (cipher.unseal key encrypted.nonce encrypted.ciphertext)
      else err invalid_nonce

  unfoldable pub encrypt_raw : Str → Str → Str → Result CryptoError Str
  encrypt_raw key nonce plaintext = do
    encrypted ← encrypt key nonce plaintext
    ok (encrypted.nonce ++ encrypted.ciphertext)

  unfoldable pub decrypt_raw : Str → Str → Result CryptoError Str
  decrypt_raw key content =
      if ltb (length content) nonce_size
      then err invalid_ciphertext
      else decrypt key
          (record { nonce = take nonce_size content; ciphertext = drop nonce_size content })

  -- `wrap`: the layers from the last to the first, each with a nonce of its own.
  unfoldable pub wrap : (ℕ → Str) → List Str → Str → Result CryptoError Str
  wrap nonce [] plaintext = ok plaintext
  wrap nonce (key ∷ keys) plaintext = do
    inner ← wrap (λ i. nonce (suc i)) keys plaintext
    encrypt_raw key (nonce 0) inner

  abbrev pub layer_at : ℕ → List Str → Option Str
  layer_at layer [] = none
  layer_at zero (key ∷ keys) = some key
  layer_at (suc layer) (key ∷ keys) = layer_at layer keys

  unfoldable pub unwrap_layer : List Str → Str → ℕ → Result CryptoError Str
  unwrap_layer keys content layer = elim (layer_at layer keys) [
    | none ↦ err decryption_failed
    | some key ↦ decrypt_raw key content
  ]

  unfoldable pub unwrap_all : List Str → Str → Result CryptoError Str
  unwrap_all [] content = ok content
  unwrap_all (key ∷ keys) content = do inner ← decrypt_raw key content; unwrap_all keys inner

-- `blake3` is the 32 bytes of the hash, `to_hex` their hexadecimal text.
module _ (blake3 : Str → Str) (to_hex : Str → Str) where
  unfoldable pub derive_key : Str → Str → Str
  derive_key secret context = take key_size (blake3 (context ++ secret))

  -- `format!("shadowmesh-hop-{}", i)`, with the standard library's text of a number.
  unfoldable pub derive_route_keys : (ℕ → Str) → Str → ℕ → ℕ → List Str
  derive_route_keys to_string secret i zero = []
  derive_route_keys to_string secret i (suc left) =
      derive_key secret (bytes "shadowmesh-hop-" ++ to_string i)
      ∷ derive_route_keys to_string secret (i + 1) left

  unfoldable pub hash_content : Str → Str
  hash_content content = to_hex (blake3 content)

  unfoldable pub verify_content_hash : Str → Str → Bool
  verify_content_hash content expected_hash = str_beq (hash_content content) expected_hash
