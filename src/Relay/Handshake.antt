-- ===== src/Relay/Handshake.antt =====
-- The CREATE and CREATED handshakes of protocol/src/zk_relay.rs, from which client and relay derive
-- the key of a hop.
use shadowmesh.Base.{str_ltb, ℕ, Bool, ◌++◌, Str, bytes, str_beq, if◌then◌else◌, take, Eq, ◌==◌}
use shadowmesh.Base.Results.{Result, guard, ◌>>◌}
use shadowmesh.Crypto.{key_size}
use shadowmesh.Relay.Types.{
  Libraries, CreateHandshake, CreatedHandshake, RelayError, handshake_auth_failed, RelayCell,
  CellType, or_empty, to_le_bytes,
}

-- The two public keys, the smaller one first.
unfoldable pub sorted_keys : Str → Str → Str
sorted_keys self_public peer_public =
    if str_ltb self_public peer_public
    then self_public ++ peer_public
    else peer_public ++ self_public

-- `circuit_id` and the index of the hop.
unfoldable pub context_of : Str → ℕ → Str
context_of circuit_id hop_index = circuit_id ++ to_le_bytes hop_index

abbrev pub handshake_transcript : Str → Str → Str → Str
handshake_transcript relay_ephemeral client_ephemeral circuit_id =
    bytes "shadowmesh-created-auth-v1" ++ (relay_ephemeral ++ (client_ephemeral ++ circuit_id))

abbrev pub new_cell : ℕ → Str → CellType → Str → RelayCell
new_cell unix circuit_id cell_type payload = record {
  circuit_id = circuit_id;
  cell_type = cell_type;
  payload = payload;
  timestamp = unix;
}

module _ {Peer : Type 0} (lib : Libraries Peer) where
  unfoldable pub derive_symmetric_key : lib.Secret → Str → Str → Str
  derive_symmetric_key secret peer_public context = take key_size (
      lib.keyed_blake3 (lib.diffie_hellman secret peer_public) (
        bytes "shadowmesh-circuit-key-v1"
        ++ (context ++ sorted_keys (lib.public_key secret) peer_public)))

  -- The hash that shows that the relay has the key.
  unfoldable pub confirmation_of : Str → Str
  confirmation_of shared_key =
      take 16 (lib.blake3 (bytes "shadowmesh-key-confirm-v1" ++ shared_key))

  -- `padding` is drawn at random.
  abbrev pub new_handshake : ℕ → Str → Str → Str → CreateHandshake
  new_handshake unix padding client_public_key circuit_id = record {
    client_public_key = client_public_key;
    circuit_id = circuit_id;
    timestamp = unix;
    padding = padding;
  }

  unfoldable pub new_signed : ℕ → Str → Str → Str → Str → lib.Identity → CreatedHandshake
  new_signed unix relay_public_key client_public_key circuit_id shared_key identity = record {
    relay_public_key = relay_public_key;
    key_confirmation = confirmation_of shared_key;
    timestamp = unix;
    relay_identity_key = lib.identity_key identity;
    signature =
        lib.sign identity (handshake_transcript relay_public_key client_public_key circuit_id);
  }

  unfoldable pub verify_key : CreatedHandshake → Str → Bool
  verify_key h shared_key = str_beq h.key_confirmation (confirmation_of shared_key)

  unfoldable pub verify_identity :
      ⦃e : Eq Peer⦄ → CreatedHandshake → Str → Str → Peer → Result RelayError (Unit {0})
  verify_identity h client_public_key circuit_id expected_peer = do
    guard (lib.is_identity_key h.relay_identity_key) handshake_auth_failed
    guard (lib.peer_of h.relay_identity_key == expected_peer) handshake_auth_failed
    guard
        (lib.verify h.relay_identity_key
          (handshake_transcript h.relay_public_key client_public_key circuit_id) h.signature)
        handshake_auth_failed

  abbrev pub serialize_handshake : CreateHandshake → Str
  serialize_handshake h = or_empty (lib.create_codec.serialize h)
