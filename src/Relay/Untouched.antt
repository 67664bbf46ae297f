-- ===== src/Relay/Untouched.antt =====
-- The cells that leave the replay cache of a relay as it is.
use shadowmesh.Base.{ℕ, ◌≡◌, arith, Str, str_eq, Eq, Option-cases, inl, inr}
use shadowmesh.Base.Map
use shadowmesh.Base.Map.{
  Map, Distinct, contains_key, get-insert, get-insert_self, get-retain, size, size-retain-le,
  retain-Distinct, insert-Distinct, size-insert,
}
use shadowmesh.Relay.Types.{Libraries, RelayCell}
use shadowmesh.Relay.Node.{RelayCircuitState, RelayNode}
use shadowmesh.Relay.Cells.{extend_circuit, handle_extend, relay_cell, handle_relay, handle_destroy}

module _ {Peer : Type 0} ⦃e : Eq Peer⦄ (lib : Libraries Peer) where
  abbrev pub IsUntouched : RelayNode lib → RelayNode lib → Type 0
  IsUntouched n m = (m.replay_cache ≡ n.replay_cache) × (m.config ≡ n.config)

  extend_circuit-IsUntouched :
      (unix : ℕ) (cell : RelayCell) (s : RelayCircuitState lib) (n : RelayNode lib)
      → IsUntouched n (extend_circuit lib unix cell s n).0
  unfolding extend_circuit
  extend_circuit-IsUntouched unix cell s n = ground arith

  pub handle_extend-IsUntouched :
      (now unix : ℕ) (cell : RelayCell) (from_peer : Peer) (n : RelayNode lib)
      → IsUntouched n (handle_extend lib now unix cell from_peer n).0
  unfolding handle_extend
  handle_extend-IsUntouched now unix cell from_peer n =
      elim (Option-cases (Map.get cell.circuit_id n.circuit_states)) [
        | inl missing ↦ ground (arith, missing)
        | inr (s, found) ↦ ground (arith, found, extend_circuit-IsUntouched unix cell s n)
      ]

  relay_cell-IsUntouched :
      (unix : ℕ) (nonce : Str) (cell : RelayCell) (from_peer : Peer) (s : RelayCircuitState lib)
      (n : RelayNode lib)
      → IsUntouched n (relay_cell lib unix nonce cell from_peer s n).0
  unfolding relay_cell
  relay_cell-IsUntouched unix nonce cell from_peer s n = ground arith

  pub handle_relay-IsUntouched :
      (now unix : ℕ) (nonce : Str) (cell : RelayCell) (from_peer : Peer) (n : RelayNode lib)
      → IsUntouched n (handle_relay lib now unix nonce cell from_peer n).0
  unfolding handle_relay
  handle_relay-IsUntouched now unix nonce cell from_peer n =
      elim (Option-cases (Map.get cell.circuit_id n.circuit_states)) [
        | inl missing ↦ ground (arith, missing)
        | inr (s, found) ↦
            ground (arith, found, relay_cell-IsUntouched unix nonce cell from_peer s n)
      ]

  pub handle_destroy-IsUntouched :
      (unix : ℕ) (cell : RelayCell) (n : RelayNode lib)
      → IsUntouched n (handle_destroy lib unix cell n).0
  unfolding handle_destroy
  handle_destroy-IsUntouched unix cell n = ground arith
