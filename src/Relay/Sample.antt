-- ===== src/Relay/Sample.antt =====
-- Small libraries, by which the examples run. Peers are named by the bytes of their keys.
use shadowmesh.Base.{
  ℕ, ◌+◌, ◌≡◌, refl, ap, true, Option, none, some, List, [], ◌∷◌, ◌++◌, arith, Str, length, str_beq,
  str_beq_refl, Option-cases, inl, inr,
}
use shadowmesh.Base.Sample.{encode, decode, decode_back, first, checksum}
use shadowmesh.Crypto.Sample.{cipher}
use shadowmesh.Relay.Types.{
  Codec, Libraries, CreateHandshake, CreatedHandshake, RelayPayload, ExtendRequest,
}

abbrev codec_of :
    {A : Type 0} (n : ℕ) (to : A → List Str) (from : List Str → Option A)
    → ((a : A) → length (to a) ≡ n)
    → ((a : A) → from (to a) ≡ some a)
    → Codec A
codec_of n to from many back = record {
  serialize = λ a. some (encode (to a));
  deserialize = λ s. from (decode n s);
  deserialize-serialize = decode_back n to from many back;
}

abbrev optional : Option Str → Str
optional none = []
optional (some s) = 1 ∷ s

abbrev from_optional : Str → Option Str
from_optional [] = none
from_optional (x ∷ s) = some s

abbrev read_create : List Str → Option CreateHandshake
read_create (key ∷ id ∷ time ∷ pad ∷ []) =
    some
      (record { client_public_key = key; circuit_id = id; timestamp = first time; padding = pad })
read_create _ = none

abbrev read_created : List Str → Option CreatedHandshake
read_created (key ∷ proof ∷ time ∷ identity ∷ sig ∷ []) = some (record {
  relay_public_key = key;
  key_confirmation = proof;
  timestamp = first time;
  relay_identity_key = identity;
  signature = sig;
})
read_created _ = none

abbrev read_payload : List Str → Option (RelayPayload Str)
read_payload (next ∷ hop ∷ content ∷ hash ∷ []) =
    some (record { next_hop = from_optional next; hop_id = hop; inner = content; digest = hash })
read_payload _ = none

abbrev read_extend : List Str → Option (ExtendRequest Str)
read_extend (peer ∷ h ∷ []) = some (record { next_peer = peer; handshake = h })
read_extend _ = none

pub read_payload_lem :
    (p : RelayPayload Str)
    → read_payload (optional p.next_hop ∷ p.hop_id ∷ p.inner ∷ p.digest ∷ []) ≡ some p
read_payload_lem p = elim (Option-cases p.next_hop) [
  | inl last ↦ rw last refl
  | inr (next, onward) ↦ rw onward refl
]

abbrev pub lib : Libraries Str
lib = record {
  cipher = cipher;
  Secret = ℕ;
  public_key = λ a. a ∷ [];
  diffie_hellman = λ a key. (a + first key) ∷ [];
  diffie_hellman_comm = λ a b. ap (λ x. x ∷ []) (omega arith);
  blake3 = λ s. checksum s ∷ [];
  keyed_blake3 = λ k s. checksum (k ++ s) ∷ [];
  Identity = Str;
  identity_key = λ i. i;
  is_identity_key = λ k. true;
  peer_of = λ k. k;
  sign = λ i m. checksum (i ++ m) ∷ [];
  verify = λ k m s. str_beq s (checksum (k ++ m) ∷ []);
  is_identity_key_lem = λ i. refl;
  verify-sign = λ i m. str_beq_refl (checksum (i ++ m) ∷ []);
  create_codec =
      codec_of 4 (λ h. h.client_public_key ∷ h.circuit_id ∷ (h.timestamp ∷ []) ∷ h.padding ∷ [])
        read_create (λ h. refl) (λ h. refl);
  created_codec =
      codec_of 5
        (λ h.
          h.relay_public_key
          ∷ h.key_confirmation
          ∷ (h.timestamp ∷ [])
          ∷ h.relay_identity_key
          ∷ h.signature
          ∷ [])
        read_created (λ h. refl) (λ h. refl);
  payload_codec =
      codec_of 4 (λ p. optional p.next_hop ∷ p.hop_id ∷ p.inner ∷ p.digest ∷ []) read_payload
        (λ p. refl) read_payload_lem;
  extend_codec =
      codec_of 2 (λ r. r.next_peer ∷ r.handshake ∷ []) read_extend (λ r. refl) (λ r. refl);
}
