-- ===== src/Relay/Isolation.antt =====
-- A circuit is out of reach of the peers that did not make it.
use shadowmesh.Base.{ℕ, ◌≡◌, refl, ◌∙◌, false, some, List, [], ◌∷◌, Str, str_eq, Eq, ◌==◌, not}
use shadowmesh.Base.Map
use shadowmesh.Base.Map.{
  Map, Distinct, contains_key, get-insert, get-remove, get-adjust, get-retain, size, is_some,
}
use shadowmesh.Relay.Types.{
  Libraries, RelayCell, CellType, create, created, extend, extended, relay, destroy, padding,
}
use shadowmesh.Relay.Circuit.{RelayConfig}
use shadowmesh.Relay.Node.{RelayCircuitState, RelayNode, is_from, expired}
use shadowmesh.Relay.Cells.{process_in, cleanup_expired, Event, arrives, cleans, step, run}
use shadowmesh.Relay.Limits.{IsLimited}
use shadowmesh.Relay.Bounded.{step-IsLimited}
use shadowmesh.Relay.Keeps.{
  handle_create-keeps, handle_extend-keeps, handle_relay-keeps, handle_destroy-keeps,
}

module _ {Peer : Type 0} ⦃e : Eq Peer⦄ (lib : Libraries Peer) where
  -- What a stranger can send: a cell from a peer that did not make the circuit, which is not to
  -- destroy this circuit.
  pub record IsByOthers (id : Str) (s : RelayCircuitState lib) (now : ℕ) (cell : RelayCell)
      (from_peer : Peer) : Type 0 where
    pub alive : expired lib now s ≡ false
    pub stranger : is_from lib from_peer s ≡ false
    pub spares : cell.cell_type ≡ destroy → (cell.circuit_id == id) ≡ false

  process_in-keeps :
      (t : CellType) (now unix : ℕ) (secret : lib.Secret) (nonce : Str) (cell : RelayCell)
      (id : Str) (from_peer : Peer) (s : RelayCircuitState lib) (n : RelayNode lib)
      → cell.cell_type ≡ t
      → Map.get id n.circuit_states ≡ some s
      → IsByOthers id s now cell from_peer
      → Map.get id (process_in lib t now unix secret nonce cell from_peer n).0.circuit_states
        ≡ some s
  unfolding process_in
  process_in-keeps create now unix secret nonce cell id from_peer s n kind there o =
      handle_create-keeps lib now unix secret cell id from_peer s n there
  process_in-keeps extend now unix secret nonce cell id from_peer s n kind there o =
      handle_extend-keeps lib now unix cell id from_peer s n there o.alive o.stranger
  process_in-keeps relay now unix secret nonce cell id from_peer s n kind there o =
      handle_relay-keeps lib now unix nonce cell id from_peer s n there o.alive
  process_in-keeps destroy now unix secret nonce cell id from_peer s n kind there o =
      handle_destroy-keeps lib unix cell id s n there (o.spares kind)
  process_in-keeps padding now unix secret nonce cell id from_peer s n kind there o = there
  process_in-keeps created now unix secret nonce cell id from_peer s n kind there o = there
  process_in-keeps extended now unix secret nonce cell id from_peer s n kind there o = there

  -- The same of whatever reaches the relay.
  abbrev pub AreByOthers : Str → RelayCircuitState lib → List (Event lib) → Type 0
  AreByOthers id s [] = Unit
  AreByOthers id s (arrives now unix secret nonce cell from_peer ∷ xs) =
      IsByOthers id s now cell from_peer × AreByOthers id s xs
  AreByOthers id s (cleans now ∷ xs) = (expired lib now s ≡ false) × AreByOthers id s xs

  cleans-keeps :
      (now : ℕ) (id : Str) (s : RelayCircuitState lib) (n : RelayNode lib)
      → Distinct n.circuit_states
      → Map.get id n.circuit_states ≡ some s
      → expired lib now s ≡ false
      → Map.get id (cleanup_expired lib now n).0.circuit_states ≡ some s
  unfolding cleanup_expired
  cleans-keeps now id s n distinct there alive =
      get-retain (λ t. not (expired lib now t)) id n.circuit_states distinct
      ∙ rw (there, alive) refl

  -- A circuit cannot be taken over: as long as it is alive, whatever cells other peers send (to create
  -- a circuit of the same identifier, to extend it, to relay through it), in any number and order, and
  -- whenever the relay cleans up, leave it as it is, with its key, its next hop and its end. (None is a
  -- DESTROY cell with its identifier, and the relay is within its limits, as every relay is.)
  pub run-AreByOthers :
      (id : Str) (s : RelayCircuitState lib) (config : RelayConfig) (n : RelayNode lib)
      (xs : List (Event lib))
      → IsLimited lib config n
      → Map.get id n.circuit_states ≡ some s
      → AreByOthers id s xs
      → Map.get id (run lib n xs).circuit_states ≡ some s
  unfolding run step
  run-AreByOthers id s config n [] v there o = there
  run-AreByOthers id s config n (arrives now unix secret nonce cell from_peer ∷ xs) v there o =
      let x = arrives now unix secret nonce cell from_peer in
      run-AreByOthers id s config (step lib n x) xs (step-IsLimited lib config n x v)
        (process_in-keeps cell.cell_type now unix secret nonce cell id from_peer s n refl there o.0)
        o.1
  run-AreByOthers id s config n (cleans now ∷ xs) v there o =
      run-AreByOthers id s config (step lib n (cleans now)) xs
        (step-IsLimited lib config n (cleans now) v)
        (cleans-keeps now id s n v.circuits.distinct there o.0) o.1
