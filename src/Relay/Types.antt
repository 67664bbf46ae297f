-- ===== src/Relay/Types.antt =====
-- The data of protocol/src/zk_relay.rs, and what it takes from libraries: X25519, BLAKE3, Ed25519
-- signatures of libp2p, and bincode, each with what its documentation says.
use shadowmesh.Base.{ℕ, ◌/◌, ◌%◌, ◌≡◌, Bool, true, Option, none, some, [], ◌∷◌, Str, str_eq}
use shadowmesh.Crypto.{Cipher}

-- `bincode::serialize` and `deserialize` of a type: what is serialised is read back.
pub record Codec (A : Type 0) : Type 0 where
  pub serialize : A → Option Str
  pub deserialize : Str → Option A
  pub deserialize-serialize : (a : A) (s : Str) → serialize a ≡ some s → deserialize s ≡ some a

-- `serialize(self).unwrap_or_default()`
abbrev pub or_empty : Option Str → Str
or_empty none = []
or_empty (some s) = s

pub data RelayError : Type 0 where
  circuit_not_found circuit_expired circuit_build_failed decryption_failed encryption_failed :
      RelayError
  invalid_payload invalid_hop forward_failed max_circuits_exceeded rate_limited : RelayError
  handshake_auth_failed stale_cell replayed_cell circuit_id_collision : RelayError

pub data CellType : Type 0 where
  create created extend extended relay destroy padding : CellType

pub record RelayCell : Type 0 where
  pub circuit_id : Str
  pub cell_type : CellType
  pub payload : Str
  pub timestamp : ℕ

pub record CreateHandshake : Type 0 where
  pub client_public_key : Str
  pub circuit_id : Str
  pub timestamp : ℕ
  pub padding : Str

pub record CreatedHandshake : Type 0 where
  pub relay_public_key : Str
  pub key_confirmation : Str
  pub timestamp : ℕ
  pub relay_identity_key : Str
  pub signature : Str

-- The index of a hop in eight bytes, the lowest first, as `usize::to_le_bytes`.
abbrev pub to_le_bytes : ℕ → Str
to_le_bytes n =
    n % 256
    ∷ n / 256 % 256
    ∷ n / 65_536 % 256
    ∷ n / 16_777_216 % 256
    ∷ n / 4_294_967_296 % 256
    ∷ n / 1_099_511_627_776 % 256
    ∷ n / 281_474_976_710_656 % 256
    ∷ n / 72_057_594_037_927_936 % 256
    ∷ []

module _ (Peer : Type 0) where
  pub record RelayPayload : Type 0 where
    pub next_hop : Option Peer
    pub hop_id : Str
    pub inner : Str
    pub digest : Str

  pub record ExtendRequest : Type 0 where
    pub next_peer : Peer
    pub handshake : Str

  pub data RelayAction : Type 0 where
    forward : RelayCell → Peer → RelayAction
    respond : RelayCell → RelayAction
    exit : Str → Str → RelayAction
    drops : RelayAction

  -- The libraries.
  pub record Libraries : Type 1 where
    pub cipher : Cipher
    -- X25519: both sides of an exchange get the same secret.
    pub Secret : Type 0
    pub public_key : Secret → Str
    pub diffie_hellman : Secret → Str → Str
    pub diffie_hellman_comm :
        (a b : Secret) → diffie_hellman a (public_key b) ≡ diffie_hellman b (public_key a)
    -- BLAKE3, plain and keyed, of all that was fed to it.
    pub blake3 : Str → Str
    pub keyed_blake3 : Str → Str → Str
    -- Ed25519: a signature verifies under the public key of its pair.
    pub Identity : Type 0
    pub identity_key : Identity → Str
    pub is_identity_key : Str → Bool
    pub peer_of : Str → Peer
    pub sign : Identity → Str → Str
    pub verify : Str → Str → Str → Bool
    pub is_identity_key_lem : (i : Identity) → is_identity_key (identity_key i) ≡ true
    pub verify-sign : (i : Identity) (m : Str) → verify (identity_key i) m (sign i m) ≡ true
    pub create_codec : Codec CreateHandshake
    pub created_codec : Codec CreatedHandshake
    pub payload_codec : Codec RelayPayload
    pub extend_codec : Codec ExtendRequest
