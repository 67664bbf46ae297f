-- ===== src/Relay/Bounded.antt =====
-- The limits hold through every step of a relay.
use shadowmesh.Base.{
  ℕ, refl, not, List, [], ◌∷◌, arith, Str, str_eq, Eq, Option-cases, Bool-cases, inl, inr,
}
use shadowmesh.Base.Map
use shadowmesh.Base.Map.{
  Map, Distinct, size, total, total-insert, total-remove, total-adjust, total-retain-le,
  insert-Distinct, remove-Distinct, adjust-Distinct, retain-Distinct, size-insert, size-remove,
  size-adjust, size-retain-le, contains_key,
}
use shadowmesh.Base.Results.{Result-cases}
use shadowmesh.Crypto.{decrypt_raw}
use shadowmesh.Relay.Types.{
  Libraries, RelayCell, CellType, create, created, extend, extended, relay, destroy, padding,
}
use shadowmesh.Relay.Circuit.{RelayConfig}
use shadowmesh.Relay.Node.{
  RelayCircuitState, RelayNode, with_config, with_states, is_from, count_from, handle_create,
  expired, fresh,
}
use shadowmesh.Relay.Cells.{
  counted_failure, counted_relay, counted_destroy, without_circuit, set_next, extend_circuit,
  handle_extend, verify, relay_cell, handle_relay, handle_destroy, process_in, cleanup_expired,
  Event, arrives, cleans, step, run,
}
use shadowmesh.Relay.Limits.{
  IsLimited, remove-Within, retain-Within, adjust-Within, kept, create_circuit-IsLimited,
}

module _ {Peer : Type 0} ⦃e : Eq Peer⦄ (lib : Libraries Peer) where
  handle_create-IsLimited :
      (config : RelayConfig) (now unix : ℕ) (secret : lib.Secret) (cell : RelayCell)
      (from_peer : Peer) (n : RelayNode lib)
      → IsLimited lib config n
      → IsLimited lib config (handle_create lib now unix secret cell from_peer n).0
  unfolding handle_create
  handle_create-IsLimited config now unix secret cell from_peer n v =
      elim (Bool-cases (fresh lib unix n cell.timestamp)) [
        | inl new ↦ elim (Option-cases (lib.create_codec.deserialize cell.payload)) [
          | inl unread ↦ rw (new, unread) v
          | inr (h, read) ↦
              rw (new, read)
                (create_circuit-IsLimited lib config now unix secret cell.circuit_id from_peer h n
                  v)
        ]
        | inr stale ↦ rw stale v
      ]

  without_circuit-IsLimited :
      (config : RelayConfig) (id : Str) (n : RelayNode lib)
      → IsLimited lib config n
      → IsLimited lib config (without_circuit lib id n)
  without_circuit-IsLimited config id n v =
      kept lib config n (without_circuit lib id n) refl refl v
        (remove-Within lib config id n.circuit_states v.circuits)

  extend_circuit-IsLimited :
      (config : RelayConfig) (unix : ℕ) (cell : RelayCell) (s : RelayCircuitState lib)
      (n : RelayNode lib)
      → IsLimited lib config n
      → IsLimited lib config (extend_circuit lib unix cell s n).0
  unfolding extend_circuit
  extend_circuit-IsLimited config unix cell s n v =
      elim (Result-cases (decrypt_raw lib.cipher s.hop_key cell.payload)) [
        | inl (plain, opens) ↦ elim (Option-cases (lib.extend_codec.deserialize plain)) [
          | inl unread ↦ rw (extend_circuit, opens, unread) v
          | inr (request, read) ↦
              rw (extend_circuit, opens, read)
                (kept lib config n
                  (with_states lib
                    (Map.adjust cell.circuit_id (set_next lib request.next_peer) n.circuit_states)
                    n)
                  refl refl v
                  (adjust-Within lib config cell.circuit_id request.next_peer n.circuit_states
                    v.circuits))
        ]
        | inr (x, shut) ↦ rw (extend_circuit, shut) v
      ]

  handle_extend-IsLimited :
      (config : RelayConfig) (now unix : ℕ) (cell : RelayCell) (from_peer : Peer)
      (n : RelayNode lib)
      → IsLimited lib config n
      → IsLimited lib config (handle_extend lib now unix cell from_peer n).0
  unfolding handle_extend
  handle_extend-IsLimited config now unix cell from_peer n v =
      elim (Bool-cases (fresh lib unix n cell.timestamp)) [
        | inr stale ↦ rw stale v
        | inl new ↦ elim (Option-cases (Map.get cell.circuit_id n.circuit_states)) [
          | inl missing ↦ rw (new, missing) v
          | inr (s, found) ↦ elim (Bool-cases (expired lib now s)) [
            | inl old ↦ rw (new, found, old) (without_circuit-IsLimited config cell.circuit_id n v)
            | inr alive ↦ elim (Bool-cases (is_from lib from_peer s)) [
              | inl own ↦
                  rw (new, found, alive, own) (extend_circuit-IsLimited config unix cell s n v)
              | inr strange ↦ rw (new, found, alive, strange) v
            ]
          ]
        ]
      ]

  relay_cell-IsLimited :
      (config : RelayConfig) (unix : ℕ) (nonce : Str) (cell : RelayCell) (from_peer : Peer)
      (s : RelayCircuitState lib) (n : RelayNode lib)
      → IsLimited lib config n
      → IsLimited lib config (relay_cell lib unix nonce cell from_peer s n).0
  unfolding relay_cell
  relay_cell-IsLimited config unix nonce cell from_peer s n v =
      elim (Result-cases (decrypt_raw lib.cipher s.hop_key cell.payload)) [
        | inr (x, shut) ↦
            rw (relay_cell, shut) (kept lib config n (counted_failure lib n) refl refl v v.circuits)
        | inl (plain, opens) ↦ elim (Option-cases (lib.payload_codec.deserialize plain)) [
          | inl unread ↦ rw (relay_cell, opens, unread) v
          | inr (p, read) ↦ elim (Bool-cases (verify lib p)) [
            | inl whole ↦
                rw (relay_cell, opens, read, whole)
                  (kept lib config n (counted_relay lib cell n) refl refl v v.circuits)
            | inr broken ↦ rw (relay_cell, opens, read, broken) v
          ]
        ]
      ]

  handle_relay-IsLimited :
      (config : RelayConfig) (now unix : ℕ) (nonce : Str) (cell : RelayCell) (from_peer : Peer)
      (n : RelayNode lib)
      → IsLimited lib config n
      → IsLimited lib config (handle_relay lib now unix nonce cell from_peer n).0
  unfolding handle_relay
  handle_relay-IsLimited config now unix nonce cell from_peer n v =
      elim (Bool-cases (fresh lib unix n cell.timestamp)) [
        | inr stale ↦ rw stale v
        | inl new ↦ elim (Option-cases (Map.get cell.circuit_id n.circuit_states)) [
          | inl missing ↦ rw (new, missing) v
          | inr (s, found) ↦ elim (Bool-cases (expired lib now s)) [
            | inl old ↦ rw (new, found, old) (without_circuit-IsLimited config cell.circuit_id n v)
            | inr alive ↦
                rw (new, found, alive) (relay_cell-IsLimited config unix nonce cell from_peer s n v)
          ]
        ]
      ]

  handle_destroy-IsLimited :
      (config : RelayConfig) (unix : ℕ) (cell : RelayCell) (n : RelayNode lib)
      → IsLimited lib config n
      → IsLimited lib config (handle_destroy lib unix cell n).0
  unfolding handle_destroy
  handle_destroy-IsLimited config unix cell n v =
      elim (Option-cases (Map.get cell.circuit_id n.circuit_states)) [
        | inl missing ↦ rw (handle_destroy, missing) v
        | inr (s, found) ↦
            rw (handle_destroy, found)
              (kept lib config n (counted_destroy lib 1 (without_circuit lib cell.circuit_id n))
                refl refl v (remove-Within lib config cell.circuit_id n.circuit_states v.circuits))
      ]

  process_in-IsLimited :
      (config : RelayConfig) (t : CellType) (now unix : ℕ) (secret : lib.Secret) (nonce : Str)
      (cell : RelayCell) (from_peer : Peer) (n : RelayNode lib)
      → IsLimited lib config n
      → IsLimited lib config (process_in lib t now unix secret nonce cell from_peer n).0
  unfolding process_in
  process_in-IsLimited config create now unix secret nonce cell from_peer n v =
      handle_create-IsLimited config now unix secret cell from_peer n v
  process_in-IsLimited config extend now unix secret nonce cell from_peer n v =
      handle_extend-IsLimited config now unix cell from_peer n v
  process_in-IsLimited config relay now unix secret nonce cell from_peer n v =
      handle_relay-IsLimited config now unix nonce cell from_peer n v
  process_in-IsLimited config destroy now unix secret nonce cell from_peer n v =
      handle_destroy-IsLimited config unix cell n v
  process_in-IsLimited config padding now unix secret nonce cell from_peer n v = v
  process_in-IsLimited config created now unix secret nonce cell from_peer n v = v
  process_in-IsLimited config extended now unix secret nonce cell from_peer n v = v

  pub step-IsLimited :
      (config : RelayConfig) (n : RelayNode lib) (x : Event lib)
      → IsLimited lib config n
      → IsLimited lib config (step lib n x)
  unfolding step cleanup_expired
  step-IsLimited config n (arrives now unix secret nonce cell from_peer) v =
      process_in-IsLimited config cell.cell_type now unix secret nonce cell from_peer n v
  step-IsLimited config n (cleans now) v =
      kept lib config n (step lib n (cleans now)) refl refl v
        (retain-Within lib config (λ s. not (expired lib now s)) n.circuit_states v.circuits)

  -- Every step keeps the limits.
  run-IsLimited_from :
      (config : RelayConfig) (n : RelayNode lib) (xs : List (Event lib))
      → IsLimited lib config n
      → IsLimited lib config (run lib n xs)
  unfolding run
  run-IsLimited_from config n [] v = v
  run-IsLimited_from config n (x ∷ xs) v =
      run-IsLimited_from config (step lib n x) xs (step-IsLimited config n x v)

  -- A relay is never flooded: whatever cells reach it, in any order, from any peers, and whatever time
  -- its clocks show, it holds no more circuits than `max_circuits`, no more of any one peer than
  -- `max_circuits_per_peer`, none twice, and no more digests than the cache is cut at.
  pub run-IsLimited :
      (identity : lib.Identity) (config : RelayConfig) (xs : List (Event lib))
      → IsLimited lib config (run lib (with_config lib identity config) xs)
  unfolding count_from total
  run-IsLimited identity config xs =
      run-IsLimited_from config (with_config lib identity config) xs (record {
        configured = refl;
        circuits = record { distinct = tt; all = omega arith; each = λ p. omega arith };
        digests = omega arith;
      })
