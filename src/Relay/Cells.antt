-- ===== src/Relay/Cells.antt =====
-- What a relay of protocol/src/zk_relay.rs does with each kind of cell: `handle_extend`,
-- `handle_relay`, `handle_destroy`, `process_cell`, and the cleanup.
use shadowmesh.Base.{
  ℕ, ◌+◌, ◌-◌, ◌%◌, Bool, true, false, not, none, some, List, [], ◌∷◌, Str, str_beq, str_eq,
  if◌then◌else◌, length, Eq,
}
use shadowmesh.Base.Map
use shadowmesh.Base.Map.{Map, size, total}
use shadowmesh.Base.Results.{Result, ok, err}
use shadowmesh.Crypto.{decrypt_raw, encrypt_raw}
use shadowmesh.Relay.Types.{
  Libraries, RelayError, RelayCell, RelayPayload, RelayAction, forward, exit, drops, CellType,
  create, created, extend, extended, relay, destroy, padding, circuit_not_found, circuit_expired,
  decryption_failed, encryption_failed, invalid_payload, invalid_hop, stale_cell,
}
use shadowmesh.Relay.Handshake.{new_cell}
use shadowmesh.Relay.Client.{compute_digest}
use shadowmesh.Relay.Node.{
  u64_mod, RelayCircuitState, RelayNode, with_states, expired, fresh, is_from, handle_create,
}

module _ {Peer : Type 0} (lib : Libraries Peer) where
  abbrev pub set_next : Peer → RelayCircuitState lib → RelayCircuitState lib
  set_next peer s = record s { next_hop = some peer }

  -- Once the circuit is found and alive, and the cell comes from its previous hop.
  unfoldable pub extend_circuit :
      ℕ
      → RelayCell
      → RelayCircuitState lib
      → RelayNode lib
      → RelayNode lib × Result RelayError (RelayAction Peer)
  extend_circuit unix cell s n = elim (decrypt_raw lib.cipher s.hop_key cell.payload) [
    | err e ↦ (n, err decryption_failed)
    | ok plain ↦ elim (lib.extend_codec.deserialize plain) [
      | none ↦ (n, err invalid_payload)
      | some request ↦ (
        with_states lib (Map.adjust cell.circuit_id (set_next request.next_peer) n.circuit_states)
            n,
        ok (forward (new_cell unix cell.circuit_id create request.handshake) request.next_peer),
      )
    ]
  ]

  abbrev pub without_circuit : Str → RelayNode lib → RelayNode lib
  without_circuit circuit_id n = with_states lib (Map.remove circuit_id n.circuit_states) n

  unfoldable pub handle_extend :
      ⦃e : Eq Peer⦄
      → ℕ
      → ℕ
      → RelayCell
      → Peer
      → RelayNode lib
      → RelayNode lib × Result RelayError (RelayAction Peer)
  handle_extend now unix cell from_peer n =
      if not (fresh lib unix n cell.timestamp)
      then (n, err stale_cell)
      else elim (Map.get cell.circuit_id n.circuit_states) [
        | none ↦ (n, err circuit_not_found)
        | some s ↦
            if expired lib now s
            then (without_circuit cell.circuit_id n, err circuit_expired)
            else if is_from lib from_peer s
            then extend_circuit unix cell s n
            else (n, err invalid_hop)
      ]

  abbrev pub counted_failure : RelayNode lib → RelayNode lib
  counted_failure n =
      let s = n.stats in
      record n { stats = record s { decryption_failures = (s.decryption_failures + 1) % u64_mod } }

  abbrev pub counted_relay : RelayCell → RelayNode lib → RelayNode lib
  counted_relay cell n =
      let s = n.stats in
      record n {
        stats = record s {
          cells_relayed = (s.cells_relayed + 1) % u64_mod;
          bytes_relayed = (s.bytes_relayed + length cell.payload) % u64_mod;
        };
      }

  unfoldable pub verify : RelayPayload Peer → Bool
  verify p = str_beq p.digest (compute_digest lib p.inner p.hop_id)

  -- Where the cell goes: onward, out here, or back with one more layer.
  unfoldable pub next_action :
      ℕ
      → Str
      → RelayCell
      → RelayCircuitState lib
      → RelayPayload Peer
      → Bool
      → Result RelayError (RelayAction Peer)
  next_action unix nonce cell s p true = elim p.next_hop [
    | some next ↦ ok (forward (new_cell unix cell.circuit_id relay p.inner) next)
    | none ↦ ok (exit p.inner cell.circuit_id)
  ]
  next_action unix nonce cell s p false = elim s.prev_hop [
    | none ↦ err invalid_hop
    | some prev ↦ elim (encrypt_raw lib.cipher s.hop_key nonce cell.payload) [
      | err e ↦ err encryption_failed
      | ok encrypted ↦ ok (forward (new_cell unix cell.circuit_id relay encrypted) prev)
    ]
  ]

  -- Once the circuit is found and alive.
  unfoldable pub relay_cell :
      ⦃e : Eq Peer⦄
      → ℕ
      → Str
      → RelayCell
      → Peer
      → RelayCircuitState lib
      → RelayNode lib
      → RelayNode lib × Result RelayError (RelayAction Peer)
  relay_cell unix nonce cell from_peer s n = elim (decrypt_raw lib.cipher s.hop_key cell.payload) [
    | err e ↦ (counted_failure n, err decryption_failed)
    | ok plain ↦ elim (lib.payload_codec.deserialize plain) [
      | none ↦ (n, err invalid_payload)
      | some p ↦
          if verify p
          then (counted_relay cell n, next_action unix nonce cell s p (is_from lib from_peer s))
          else (n, err invalid_payload)
    ]
  ]

  unfoldable pub handle_relay :
      ⦃e : Eq Peer⦄
      → ℕ
      → ℕ
      → Str
      → RelayCell
      → Peer
      → RelayNode lib
      → RelayNode lib × Result RelayError (RelayAction Peer)
  handle_relay now unix nonce cell from_peer n =
      if not (fresh lib unix n cell.timestamp)
      then (n, err stale_cell)
      else elim (Map.get cell.circuit_id n.circuit_states) [
        | none ↦ (n, err circuit_not_found)
        | some s ↦
            if expired lib now s
            then (without_circuit cell.circuit_id n, err circuit_expired)
            else relay_cell unix nonce cell from_peer s n
      ]

  abbrev pub counted_destroy : ℕ → RelayNode lib → RelayNode lib
  counted_destroy removed n =
      let s = n.stats in
      record n {
        stats = record s {
          circuits_destroyed = (s.circuits_destroyed + removed) % u64_mod;
          active_circuits = size n.circuit_states;
        };
      }

  unfoldable pub handle_destroy :
      ℕ → RelayCell → RelayNode lib → RelayNode lib × Result RelayError (RelayAction Peer)
  handle_destroy unix cell n = elim (Map.get cell.circuit_id n.circuit_states) [
    | none ↦ (n, ok drops)
    | some s ↦ (
      counted_destroy 1 (without_circuit cell.circuit_id n),
      elim s.next_hop [
        | none ↦ ok drops
        | some next ↦ ok (forward (new_cell unix cell.circuit_id destroy []) next)
      ],
    )
  ]

  unfoldable pub process_in :
      ⦃e : Eq Peer⦄
      → CellType
      → ℕ
      → ℕ
      → lib.Secret
      → Str
      → RelayCell
      → Peer
      → RelayNode lib
      → RelayNode lib × Result RelayError (RelayAction Peer)
  process_in create now unix secret nonce cell from_peer n =
      handle_create lib now unix secret cell from_peer n
  process_in extend now unix secret nonce cell from_peer n = handle_extend now unix cell from_peer n
  process_in relay now unix secret nonce cell from_peer n =
      handle_relay now unix nonce cell from_peer n
  process_in destroy now unix secret nonce cell from_peer n = handle_destroy unix cell n
  process_in padding now unix secret nonce cell from_peer n = (n, ok drops)
  process_in created now unix secret nonce cell from_peer n = (n, ok drops)
  process_in extended now unix secret nonce cell from_peer n = (n, ok drops)

  abbrev pub process_cell :
      ⦃e : Eq Peer⦄
      → ℕ
      → ℕ
      → lib.Secret
      → Str
      → RelayCell
      → Peer
      → RelayNode lib
      → RelayNode lib × Result RelayError (RelayAction Peer)
  process_cell now unix secret nonce cell from_peer n =
      process_in cell.cell_type now unix secret nonce cell from_peer n

  unfoldable pub cleanup_expired : ℕ → RelayNode lib → RelayNode lib × ℕ
  cleanup_expired now n =
      let kept = Map.retain (λ s. not (expired lib now s)) n.circuit_states in
      let removed = size n.circuit_states - size kept in
      (counted_destroy removed (with_states lib kept n), removed)

  -- What reaches a relay: cells, each with the clocks, what is drawn for it and the peer that it is
  -- from, and the ticks that clean up.
  pub data Event : Type 0 where
    arrives : ℕ → ℕ → lib.Secret → Str → RelayCell → Peer → Event
    cleans : ℕ → Event

  unfoldable pub step : ⦃e : Eq Peer⦄ → RelayNode lib → Event → RelayNode lib
  step n (arrives now unix secret nonce cell from_peer) =
      (process_cell now unix secret nonce cell from_peer n).0
  step n (cleans now) = (cleanup_expired now n).0

  unfoldable pub run : ⦃e : Eq Peer⦄ → RelayNode lib → List Event → RelayNode lib
  unfolding step
  run n [] = n
  run n (x ∷ xs) = run (step n x) xs
