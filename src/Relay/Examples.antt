-- ===== src/Relay/Examples.antt =====
-- A client and relays, with the libraries of Relay/Sample.antt.
use shadowmesh.Base.{
  ℕ, ◌≡◌, refl, none, some, Option, List, [], ◌∷◌, arith, Str, bytes, str_eq, false, ◌⊎◌,
}
use shadowmesh.Base.Map
use shadowmesh.Base.Map.{Distinct, size, total}
use shadowmesh.Base.Results.{Result, ok, err}
use shadowmesh.Crypto.{encrypt_raw, encrypt}
use shadowmesh.Relay.Types.{
  RelayCell, RelayAction, RelayError, drops, forward, create, extend, relay, destroy, padding,
  stale_cell, replayed_cell, decryption_failed,
}
use shadowmesh.Relay.Handshake.{
  verify_identity, new_signed, verify_key, new_cell, new_handshake, serialize_handshake, context_of,
  derive_symmetric_key, sorted_keys, confirmation_of,
}
use shadowmesh.Relay.Circuit.{
  complete_hop_handshake, get_create_handshake, RelayConfig, default_config, CircuitHop, Circuit,
}
use shadowmesh.Relay.Client.{confirm, wrap_keyed, process_response, ready_if, extend_cell}
use shadowmesh.Relay.Node.{
  RelayCircuitState, RelayNode, with_states, with_config, is_fresh, from_handshake, replay_digest,
  pruned, check_and_record_replay, count_from, admit_circuit, create_circuit, handle_create,
}
use shadowmesh.Relay.Cells.{Event, arrives, cleans, step, run, process_in, set_next, handle_extend}
use shadowmesh.Relay.Limits.{IsLimited}
use shadowmesh.Relay.Bounded.{run-IsLimited}
use shadowmesh.Relay.Agreement.{process_response-first, process_response-later, answer, with_key}
use shadowmesh.Relay.Isolation.{run-AreByOthers}
use shadowmesh.Relay.Captured.{handle_create-again}
use shadowmesh.Relay.Extending.{request_for, handle_extend-process_response}
use shadowmesh.Relay.Sample.{lib}

abbrev alice : Str
alice = bytes "alice"

abbrev mallory : Str
mallory = bytes "mallory"

abbrev entry : Str
entry = bytes "entry"

abbrev last : Str
last = bytes "last"

abbrev name : Str
name = bytes "c"

abbrev small : RelayConfig
small = record default_config { max_circuits = 2; max_circuits_per_peer = 1 }

abbrev create_of : Str → RelayCell
create_of id =
    new_cell 100 id create
      (serialize_handshake lib (new_handshake lib 100 (bytes "pad") (11 ∷ []) id))

-- Two circuits asked for, one of them twice and one by another peer.
abbrev events : List (Event lib)
events =
    arrives 5 100 21 (bytes "n") (create_of name) alice
    ∷ arrives 6 100 22 (bytes "n") (create_of name) mallory
    ∷ arrives 7 100 23 (bytes "n") (create_of (bytes "d")) alice
    ∷ arrives 8 100 24 (bytes "n") (create_of (bytes "e")) mallory
    ∷ cleans 9
    ∷ []

run-IsLimited_example : IsLimited lib small (run lib (with_config lib entry small) events)
run-IsLimited_example = run-IsLimited lib entry small events

abbrev circuit : Circuit lib
circuit = record {
  id = name;
  hops =
      record {
        peer_id = entry;
        ephemeral = 11;
        relay_public_key = none;
        symmetric_key = none;
        hop_id = bytes "h0";
      }
      ∷ record {
        peer_id = last;
        ephemeral = 12;
        relay_public_key = none;
        symmetric_key = none;
        hop_id = bytes "h1";
      }
      ∷ [];
  created_at = 5;
  lifetime = 1_000;
  ready = false;
}

abbrev hop : Str → ℕ → Str → CircuitHop lib
hop peer secret id = record {
  peer_id = peer;
  ephemeral = secret;
  relay_public_key = none;
  symmetric_key = none;
  hop_id = id;
}

process_response-first_example :
    process_response lib 101
      (bytes "p")
      (λ i. bytes "abcdefghijkl")
      (answer lib 5 100 1_000 alice entry 21 circuit (hop entry 11 (bytes "h0"))).1
      0
      circuit
    ≡ (
      ready_if lib false (
          with_key lib 0 21
            (answer lib 5 100 1_000 alice entry 21 circuit (hop entry 11 (bytes "h0"))).0.hop_key
            circuit),
      extend_cell lib 101
          (bytes "p")
          (λ i. bytes "abcdefghijkl")
          0
          (with_key lib 0 21
            (answer lib 5 100 1_000 alice entry 21 circuit (hop entry 11 (bytes "h0"))).0.hop_key
            circuit),
    )
process_response-first_example =
    process_response-first lib 5 100 101 1_000 (bytes "p") (λ i. bytes "abcdefghijkl") alice entry
      21 circuit (hop entry 11 (bytes "h0")) refl refl

process_response-later_example :
    (process_response lib 101
      (bytes "p")
      (λ i. bytes "abcdefghijkl")
      (answer lib 5 100 1_000 entry last 22 circuit (hop last 12 (bytes "h1"))).1
      1
      circuit).1
    ≡ err decryption_failed
unfolding confirmation_of derive_symmetric_key sorted_keys context_of
process_response-later_example =
    process_response-later lib 5 100 101 1_000 0 (bytes "p") (λ i. bytes "abcdefghijkl") entry last
      22 circuit (hop last 12 (bytes "h1")) refl refl refl

-- The relay with Alice's circuit.
abbrev state : RelayCircuitState lib
state = (from_handshake lib 5 100 21 name (11 ∷ []) alice small.circuit_lifetime entry).0

abbrev made : List (Event lib)
made = arrives 5 100 21 (bytes "n") (create_of name) alice ∷ []

abbrev serving : RelayNode lib
serving = run lib (with_config lib entry small) made

abbrev attacks : List (Event lib)
attacks =
    arrives 6 100 22 (bytes "n") (create_of name) mallory
    ∷ arrives 7 100 22 (bytes "n") (new_cell 100 name extend (bytes "x")) mallory
    ∷ arrives 8 100 23 (bytes "n") (new_cell 100 name relay (bytes "y")) mallory
    ∷ arrives 9 100 23 (bytes "n") (new_cell 100 (bytes "d") destroy []) mallory
    ∷ cleans 10
    ∷ []

run-AreByOthers_example : Map.get name (run lib serving attacks).circuit_states ≡ some state
unfolding from_handshake Map.get Map.insert run step process_in handle_create create_circuit
    check_and_record_replay pruned admit_circuit is_fresh replay_digest Map.retain count_from total
run-AreByOthers_example =
    run-AreByOthers lib name state small serving attacks (run-IsLimited lib entry small made) refl (
      record { alive = refl; stranger = refl; spares = λ h. cc h },
      (
        record { alive = refl; stranger = refl; spares = λ h. cc h },
        (
          record { alive = refl; stranger = refl; spares = λ h. cc h },
          (record { alive = refl; stranger = refl; spares = λ h. refl }, (refl, tt)),
        ),
      ),
    )

abbrev answered : RelayNode lib × Result RelayError (RelayAction Str)
answered = handle_create lib 5 100 21 (create_of name) alice (with_config lib entry small)

abbrev action : RelayAction Str
action = elim answered.1 [ ok a ↦ a | err x ↦ drops ]

-- Another circuit is made and one is gone, before the cell comes again.
abbrev other_name : Str
other_name = bytes "other"

abbrev meanwhile : List (Event lib)
meanwhile =
    arrives 6 101 23 (bytes "n") (create_of other_name) alice
    ∷ arrives 7 102 24 (bytes "n") (new_cell 102 other_name destroy []) alice
    ∷ cleans 8
    ∷ []

handle_create-again_example :
    let m = run lib answered.0 meanwhile in
    ((handle_create lib 8 103 22 (create_of name) mallory m).1 ≡ err stale_cell)
    ⊎ ((handle_create lib 8 103 22 (create_of name) mallory m).1 ≡ err replayed_cell)
unfolding handle_create create_circuit check_and_record_replay pruned admit_circuit is_fresh
    replay_digest Map.get Map.insert Map.retain from_handshake count_from total
handle_create-again_example =
    handle_create-again lib 5 100 8 103 21 22 (create_of name) alice mallory
      (with_config lib entry small) answered.0 action meanwhile tt refl
      (omega arith, (omega arith, (omega arith, tt))) (omega arith) (omega arith)

-- The relay with the circuit that it answered for, and the cell that the client makes of the answer.
abbrev answering : RelayNode lib
answering = record (with_config lib entry small) {
  circuit_states =
      (name, (answer lib 5 100 1_000 alice entry 21 circuit (hop entry 11 (bytes "h0"))).0) ∷ [];
}

abbrev asked : Result RelayError (Option RelayCell)
asked =
    (process_response lib 101 (bytes "p") (λ i. bytes "abcdefghijkl")
      (answer lib 5 100 1_000 alice entry 21 circuit (hop entry 11 (bytes "h0"))).1 0 circuit).1

abbrev cell_in : Result RelayError (Option RelayCell) → RelayCell
cell_in (ok (some cell)) = cell
cell_in (ok none) = new_cell 0 [] padding []
cell_in (err x) = new_cell 0 [] padding []

handle_extend-process_response_example : handle_extend lib 9 103 (cell_in asked) alice answering ≡ (
  with_states lib (Map.adjust name (set_next lib last) answering.circuit_states) answering,
  ok (
      forward
        (new_cell 103 name create
          (request_for lib 101 (bytes "p") name (hop last 12 (bytes "h1"))).handshake)
        last),
)
unfolding process_response verify_identity from_handshake new_signed complete_hop_handshake confirm
    verify_key confirmation_of derive_symmetric_key context_of sorted_keys extend_cell
    get_create_handshake wrap_keyed encrypt_raw encrypt Map.get is_fresh
handle_extend-process_response_example =
    handle_extend-process_response lib 5 100 101 103 9 1_000 (bytes "p") (λ i. bytes "abcdefghijkl")
      alice entry 21 circuit (hop entry 11 (bytes "h0")) (hop last 12 (bytes "h1")) []
      (cell_in asked) answering refl refl refl refl refl refl refl
