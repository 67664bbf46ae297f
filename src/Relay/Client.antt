-- ===== src/Relay/Client.antt =====
-- `ZkRelayClient` of protocol/src/zk_relay.rs. Secrets, identifiers, nonces and padding are drawn at
-- random and are arguments; times are in nanoseconds, `unix` in seconds. The client's own secret is
-- kept by the code and never used.
use shadowmesh.Base.{
  ℕ, suc, ◌+◌, ◌-◌, Bool, true, false, not, Option, none, some, List, [], ◌∷◌, ◌++◌, ltb, leb, Str,
  str_eq, if◌then◌else◌, length, take, map, Eq,
}
use shadowmesh.Base.Map
use shadowmesh.Base.Map.{Map, size, is_some}
use shadowmesh.Base.Results.{Result, ok, err, guard, ok_or, map_err, ◌>>=◌, ◌>>◌, and_then}
use shadowmesh.Crypto.{encrypt_raw, decrypt_raw}
use shadowmesh.Relay.Types.{
  Libraries, CreatedHandshake, RelayError, RelayCell, RelayPayload, create, extend, relay, destroy,
  padding, circuit_not_found, circuit_expired, circuit_build_failed, decryption_failed,
  encryption_failed, invalid_payload, invalid_hop,
}
use shadowmesh.Relay.Handshake.{
  context_of, new_cell, serialize_handshake, verify_identity, verify_key,
}
use shadowmesh.Relay.Circuit.{
  RelayConfig, CircuitHop, Circuit, hop_at, new_circuit, is_expired, add_hops,
  complete_hop_handshake, get_create_handshake,
}

module _ {Peer : Type 0} (lib : Libraries Peer) where
  pub record RelayClient : Type 0 where
    pub circuits : Map Str (Circuit lib)
    pub config : RelayConfig

  abbrev pub with_config : RelayConfig → RelayClient
  with_config config = record { circuits = []; config = config }

  unfoldable pub build_circuit :
      ℕ → Str → List (lib.Secret × Peer) → RelayClient → RelayClient × Result RelayError Str
  build_circuit now id peers client =
      if ltb (length peers) 2
      then (client, err circuit_build_failed)
      else (let c = add_hops lib peers (new_circuit lib now id client.config.circuit_lifetime) in
          (
            record client { circuits = Map.insert id (record c { ready = false }) client.circuits },
            ok id,
          ))

  unfoldable pub get_create_cell : ℕ → Str → Str → RelayClient → Result RelayError RelayCell
  get_create_cell unix pad id client = do
    c ← ok_or circuit_not_found (Map.get id client.circuits)
    h ← ok_or invalid_hop (get_create_handshake lib unix pad 0 c)
    ok (new_cell unix id create (serialize_handshake lib h))

  -- The layers for the hops that have a key, the first hop's on the outside.
  unfoldable pub wrap_keyed : (ℕ → Str) → List (Option Str) → Str → Result RelayError Str
  wrap_keyed nonce [] payload = ok payload
  wrap_keyed nonce (none ∷ ks) payload = wrap_keyed (λ i. nonce (suc i)) ks payload
  wrap_keyed nonce (some key ∷ ks) payload = do
    inner ← wrap_keyed (λ i. nonce (suc i)) ks payload
    map_err (λ e. encryption_failed) (encrypt_raw lib.cipher key (nonce 0) inner)

  -- The EXTEND cell for the next hop, or nothing when this was the last one.
  unfoldable pub extend_cell :
      ℕ → Str → (ℕ → Str) → ℕ → Circuit lib → Result RelayError (Option RelayCell)
  extend_cell unix pad nonce hop_index c =
      if ltb (hop_index + 1) (length c.hops)
      then (do
        h ← ok_or invalid_hop (get_create_handshake lib unix pad (hop_index + 1) c)
        next ← ok_or invalid_hop (hop_at lib (hop_index + 1) c.hops)
        request ← ok_or invalid_payload (
            lib.extend_codec.serialize
              (record { next_peer = next.peer_id; handshake = serialize_handshake lib h }))
        payload ←
            wrap_keyed nonce (map (λ k. k.symmetric_key) (take (hop_index + 1) c.hops)) request
        ok (some (new_cell unix c.id extend payload)))
      else ok none

  abbrev pub ready_if : Bool → Circuit lib → Circuit lib
  ready_if b c = if b then record c { ready = true } else c

  -- Once the hop has its key: the confirmation, then the next hop.
  unfoldable pub confirm :
      ℕ
      → Str
      → (ℕ → Str)
      → CreatedHandshake
      → ℕ
      → Circuit lib
      → Str
      → Circuit lib × Result RelayError (Option RelayCell)
  confirm unix pad nonce response hop_index c key =
      if verify_key lib response key
      then (
        ready_if (leb (length c.hops) (hop_index + 1)) c,
        extend_cell unix pad nonce hop_index c,
      )
      else (c, err decryption_failed)

  unfoldable pub process_response :
      ⦃e : Eq Peer⦄
      → ℕ
      → Str
      → (ℕ → Str)
      → CreatedHandshake
      → ℕ
      → Circuit lib
      → Circuit lib × Result RelayError (Option RelayCell)
  process_response unix pad nonce response hop_index c = elim (hop_at lib hop_index c.hops) [
    | none ↦ (c, err invalid_hop)
    | some hop ↦
        elim (verify_identity lib response (lib.public_key hop.ephemeral) c.id hop.peer_id) [
          | err e ↦ (c, err e)
          | ok u ↦
              and_then
                (complete_hop_handshake lib hop_index response.relay_public_key
                  (context_of c.id hop_index) c)
                (confirm unix pad nonce response hop_index)
        ]
  ]

  -- The call on the client: the circuit is changed in its table.
  unfoldable pub process_created_response :
      ⦃e : Eq Peer⦄
      → ℕ
      → Str
      → (ℕ → Str)
      → Str
      → CreatedHandshake
      → ℕ
      → RelayClient
      → RelayClient × Result RelayError (Option RelayCell)
  process_created_response unix pad nonce id response hop_index client =
      elim (Map.get id client.circuits) [
        | none ↦ (client, err circuit_not_found)
        | some c ↦
            let (c', r) = process_response unix pad nonce response hop_index c in
            (record client { circuits = Map.insert id c' client.circuits }, r)
      ]

  unfoldable pub compute_digest : Str → Str → Str
  compute_digest content hop_id = take 16 (lib.blake3 (content ++ hop_id))

  abbrev pub new_payload : Option Peer → Str → Str → RelayPayload Peer
  new_payload next_hop hop_id inner = record {
    next_hop = next_hop;
    hop_id = hop_id;
    inner = inner;
    digest = compute_digest inner hop_id;
  }

  abbrev pub next_of : List (CircuitHop lib) → Option Peer
  next_of [] = none
  next_of (h ∷ hs) = some h.peer_id

  -- The loop from the exit to the entry.
  unfoldable pub wrap_hops : (ℕ → Str) → List (CircuitHop lib) → Str → Result RelayError Str
  wrap_hops nonce [] request = ok request
  wrap_hops nonce (h ∷ hs) request = do
    inner ← wrap_hops (λ i. nonce (suc i)) hs request
    plain ←
        ok_or invalid_payload
          (lib.payload_codec.serialize (new_payload (next_of hs) h.hop_id inner))
    key ← ok_or circuit_build_failed h.symmetric_key
    map_err (λ e. encryption_failed) (encrypt_raw lib.cipher key (nonce 0) plain)

  unfoldable pub wrap_request :
      ℕ → ℕ → (ℕ → Str) → Str → Str → RelayClient → Result RelayError RelayCell
  wrap_request now unix nonce id request client = do
    c ← ok_or circuit_not_found (Map.get id client.circuits)
    guard (not (is_expired lib now c)) circuit_expired
    guard c.ready circuit_build_failed
    payload ← wrap_hops nonce c.hops request
    ok (new_cell unix id relay payload)

  -- The loop from the entry to the exit.
  unfoldable pub unwrap_hops : List (CircuitHop lib) → Str → Result RelayError Str
  unwrap_hops [] content = ok content
  unwrap_hops (h ∷ hs) content = do
    key ← ok_or decryption_failed h.symmetric_key
    inner ← map_err (λ e. decryption_failed) (decrypt_raw lib.cipher key content)
    unwrap_hops hs inner

  unfoldable pub unwrap_response : Str → RelayCell → RelayClient → Result RelayError Str
  unwrap_response id cell client = do
    c ← ok_or circuit_not_found (Map.get id client.circuits)
    unwrap_hops c.hops cell.payload

  abbrev pub first_peer : Option (Circuit lib) → Option Peer
  first_peer none = none
  first_peer (some c) = next_of c.hops

  unfoldable pub get_entry_node : Str → RelayClient → Option Peer
  get_entry_node id client = first_peer (Map.get id client.circuits)

  unfoldable pub destroy_circuit : ℕ → Str → RelayClient → RelayClient × Option RelayCell
  destroy_circuit unix id client =
      if Map.contains_key id client.circuits
      then (
        record client { circuits = Map.remove id client.circuits },
        some (new_cell unix id destroy []),
      )
      else (client, none)

  abbrev pub active_circuits : RelayClient → ℕ
  active_circuits client = size client.circuits

  unfoldable pub cleanup_expired : ℕ → RelayClient → RelayClient × ℕ
  cleanup_expired now client =
      let kept = Map.retain (λ c. not (is_expired lib now c)) client.circuits in
      (record client { circuits = kept }, size client.circuits - size kept)

  -- `random` is the 512 bytes drawn.
  unfoldable pub create_padding_cell : ℕ → Str → Str → RelayClient → Option RelayCell
  create_padding_cell unix random id client =
      if not client.config.padding_enabled then none else some (new_cell unix id padding random)
