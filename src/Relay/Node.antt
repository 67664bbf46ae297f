-- ===== src/Relay/Node.antt =====
-- `ZkRelayNode` of protocol/src/zk_relay.rs: a relay answers a cell with an action, and keeps the
-- circuits, the digests of CREATE cells that it has seen, and counters. Its locks are held for the
-- whole of a handler but for a moment in `handle_relay`, and a handler is one step here.
use shadowmesh.Base.{
  ℕ, ◌+◌, ◌-◌, ◌*◌, ◌/◌, ◌%◌, ◌^◌, Bool, false, not, ◌||◌, Option, none, some, [], ◌++◌, ltb, leb,
  Str, bytes, str_eq, if◌then◌else◌, min_ℕ, max_ℕ, Eq, ◌==◌,
}
use shadowmesh.Base.Map
use shadowmesh.Base.Map.{Map, size, total}
use shadowmesh.Base.Results.{Result, ok, err, and_then}
use shadowmesh.Relay.Types.{
  Libraries, CreateHandshake, CreatedHandshake, RelayError, RelayCell, RelayAction, respond,
  created, invalid_payload, max_circuits_exceeded, rate_limited, stale_cell, replayed_cell,
  circuit_id_collision, or_empty, to_le_bytes,
}
use shadowmesh.Relay.Handshake.{derive_symmetric_key, context_of, new_cell, new_signed}
use shadowmesh.Relay.Circuit.{RelayConfig}

abbrev pub u64_mod : ℕ
u64_mod = 2 ^ 64

abbrev pub as_secs : ℕ → ℕ
as_secs ns = ns / 1_000_000_000

pub record RelayStats : Type 0 where
  pub cells_relayed : ℕ
  pub bytes_relayed : ℕ
  pub active_circuits : ℕ
  pub circuits_created : ℕ
  pub circuits_destroyed : ℕ
  pub decryption_failures : ℕ

-- `check_freshness`, on the time and the age in seconds.
unfoldable pub is_fresh : ℕ → ℕ → ℕ → Bool
is_fresh unix max_age timestamp =
    not (ltb (min_ℕ (unix + max_age) (u64_mod - 1)) timestamp || ltb max_age (unix - timestamp))

module _ {Peer : Type 0} (lib : Libraries Peer) where
  pub record RelayCircuitState : Type 0 where
    pub circuit_id : Str
    pub ephemeral : lib.Secret
    pub client_public_key : Str
    pub hop_key : Str
    pub prev_hop : Option Peer
    pub next_hop : Option Peer
    pub created_at : ℕ
    pub expires_at : ℕ

  pub record RelayNode : Type 0 where
    pub identity : lib.Identity
    pub circuit_states : Map Str RelayCircuitState
    pub replay_cache : Map Str ℕ
    pub config : RelayConfig
    pub stats : RelayStats

  abbrev pub with_config : lib.Identity → RelayConfig → RelayNode
  with_config identity config = record {
    identity = identity;
    circuit_states = [];
    replay_cache = [];
    config = config;
    stats = record {
      cells_relayed = 0;
      bytes_relayed = 0;
      active_circuits = 0;
      circuits_created = 0;
      circuits_destroyed = 0;
      decryption_failures = 0;
    };
  }

  abbrev pub expired : ℕ → RelayCircuitState → Bool
  expired now s = ltb s.expires_at now

  abbrev pub fresh : ℕ → RelayNode → ℕ → Bool
  fresh unix n timestamp = is_fresh unix (as_secs n.config.max_cell_age) timestamp

  -- The state of a new circuit and the answer to its client. The key is that of the hop 0.
  unfoldable pub from_handshake :
      ℕ
      → ℕ
      → lib.Secret
      → Str
      → Str
      → Peer
      → ℕ
      → lib.Identity
      → RelayCircuitState × CreatedHandshake
  from_handshake now unix secret circuit_id client_public_key from_peer lifetime identity =
      let hop_key = derive_symmetric_key lib secret client_public_key (context_of circuit_id 0) in
      (
        record {
          circuit_id = circuit_id;
          ephemeral = secret;
          client_public_key = client_public_key;
          hop_key = hop_key;
          prev_hop = some from_peer;
          next_hop = none;
          created_at = now;
          expires_at = now + lifetime;
        },
        new_signed lib unix (lib.public_key secret) client_public_key circuit_id hop_key identity,
      )

  unfoldable pub replay_digest : Str → CreateHandshake → Str
  replay_digest circuit_id h = lib.blake3 (
      bytes "shadowmesh-create-replay-v1"
      ++ (circuit_id ++ (to_le_bytes h.timestamp ++ (h.client_public_key ++ h.padding))))

  abbrev pub cache_cap : RelayConfig → ℕ
  cache_cap config = max_ℕ (min_ℕ (config.max_circuits * 2) (u64_mod - 1)) 1024

  -- The cache once the old digests are gone, and all of them if there are too many.
  unfoldable pub pruned : ℕ → RelayNode → Map Str ℕ
  pruned now n =
      let kept = Map.retain (λ seen. leb (now - seen) n.config.max_cell_age) n.replay_cache in
      if leb (cache_cap n.config) (size kept) then [] else kept

  unfoldable pub check_and_record_replay :
      ℕ → Str → RelayNode → RelayNode × Result RelayError (Unit {0})
  check_and_record_replay now digest n =
      let cache = pruned now n in
      if Map.contains_key digest cache
      then (record n { replay_cache = cache }, err replayed_cell)
      else (record n { replay_cache = Map.insert digest now cache }, ok tt)

  -- Circuits that the peer has made.
  abbrev pub is_from : ⦃e : Eq Peer⦄ → Peer → RelayCircuitState → Bool
  is_from peer s = elim s.prev_hop [ none ↦ false | some p ↦ p == peer ]

  abbrev pub one_if_from : ⦃e : Eq Peer⦄ → Peer → RelayCircuitState → ℕ
  one_if_from peer s = if is_from peer s then 1 else 0

  unfoldable pub count_from : ⦃e : Eq Peer⦄ → Peer → Map Str RelayCircuitState → ℕ
  count_from peer states = total (one_if_from peer) states

  abbrev pub with_states : Map Str RelayCircuitState → RelayNode → RelayNode
  with_states states n = record n { circuit_states = states }

  abbrev pub counted_create : RelayNode → RelayNode
  counted_create n =
      let s = n.stats in
      record n {
        stats = record s {
          circuits_created = (s.circuits_created + 1) % u64_mod;
          active_circuits = size n.circuit_states;
        };
      }

  -- The part of `handle_create` under the lock of the circuits.
  unfoldable pub admit_circuit :
      ⦃e : Eq Peer⦄
      → ℕ
      → ℕ
      → lib.Secret
      → Str
      → Str
      → Peer
      → RelayNode
      → RelayNode × Result RelayError (RelayAction Peer)
  admit_circuit now unix secret circuit_id client_public_key from_peer n =
      if leb n.config.max_circuits (size n.circuit_states)
      then (n, err max_circuits_exceeded)
      else if Map.contains_key circuit_id n.circuit_states
      then (n, err circuit_id_collision)
      else if leb n.config.max_circuits_per_peer (count_from from_peer n.circuit_states)
      then (n, err rate_limited)
      else (let (state, response) =
            from_handshake now unix secret circuit_id client_public_key from_peer
              n.config.circuit_lifetime n.identity in
          (
            counted_create (with_states (Map.insert circuit_id state n.circuit_states) n),
            ok (
                respond (
                  new_cell unix circuit_id created
                    (or_empty (lib.created_codec.serialize response)))),
          ))

  -- Once the handshake is read.
  unfoldable pub create_circuit :
      ⦃e : Eq Peer⦄
      → ℕ
      → ℕ
      → lib.Secret
      → Str
      → Peer
      → CreateHandshake
      → RelayNode
      → RelayNode × Result RelayError (RelayAction Peer)
  create_circuit now unix secret circuit_id from_peer h n =
      if not (fresh unix n h.timestamp)
      then (n, err stale_cell)
      else and_then (check_and_record_replay now (replay_digest circuit_id h) n)
          (λ n' u. admit_circuit now unix secret circuit_id h.client_public_key from_peer n')

  unfoldable pub handle_create :
      ⦃e : Eq Peer⦄
      → ℕ
      → ℕ
      → lib.Secret
      → RelayCell
      → Peer
      → RelayNode
      → RelayNode × Result RelayError (RelayAction Peer)
  handle_create now unix secret cell from_peer n =
      if not (fresh unix n cell.timestamp)
      then (n, err stale_cell)
      else elim (lib.create_codec.deserialize cell.payload) [
        | none ↦ (n, err invalid_payload)
        | some h ↦ create_circuit now unix secret cell.circuit_id from_peer h n
      ]
