-- ===== src/Relay/Keeps.antt =====
-- What the handlers of a relay leave as it is.
use shadowmesh.Base.{
  ℕ, ◌≡◌, refl, ap, ◌∙◌, subst, Bool, true, false, Option, none, some, Str, str_eq, Eq, ◌==◌,
  Bool-cases, Option-cases, inl, inr, not, leb,
}
use shadowmesh.Base.Map
use shadowmesh.Base.Map.{
  Map, Distinct, contains_key, get-insert, get-remove, get-adjust, get-retain, size, is_some,
}
use shadowmesh.Base.Results.{Result-cases, and_then-keeps}
use shadowmesh.Crypto.{decrypt_raw}
use shadowmesh.Relay.Types.{Libraries, CreateHandshake, RelayCell}
use shadowmesh.Relay.Node.{
  RelayCircuitState, RelayNode, pruned, check_and_record_replay, is_from, count_from, admit_circuit,
  create_circuit, handle_create, expired, fresh, replay_digest,
}
use shadowmesh.Relay.Cells.{
  set_next, extend_circuit, handle_extend, verify, relay_cell, handle_relay, handle_destroy,
}

module _ {Peer : Type 0} ⦃e : Eq Peer⦄ (lib : Libraries Peer) where
  -- Identifiers at which a test finds different things are different.
  differ :
      (f : Option (RelayCircuitState lib) → Bool) (other id : Str)
      (states : Map Str (RelayCircuitState lib))
      → f (Map.get other states) ≡ true
      → f (Map.get id states) ≡ false
      → (other == id) ≡ false
  differ f other id states this that = elim (Bool-cases (other == id)) [
    | inl same ↦
        let at_id : f (Map.get id states) ≡ true =
          subst (λ k. f (Map.get k states) ≡ true) ((str_eq.same_iff other id).0 same) this in
        cc (at_id, that)
    | inr apart ↦ apart
  ]

  abbrev has : (RelayCircuitState lib → Bool) → Option (RelayCircuitState lib) → Bool
  has f none = false
  has f (some s) = f s

  -- A circuit of an identifier that was free.
  insert-keeps :
      (other id : Str) (new s : RelayCircuitState lib) (states : Map Str (RelayCircuitState lib))
      → contains_key other states ≡ false
      → Map.get id states ≡ some s
      → Map.get id (Map.insert other new states) ≡ some s
  insert-keeps other id new s states free there =
      let apart = differ (λ o. not (is_some o)) other id states (ap not free) (rw there refl) in
      get-insert other id new states ∙ rw apart there

  -- Removing a circuit of which a test says otherwise.
  remove-keeps :
      (f : RelayCircuitState lib → Bool) (other id : Str) (gone s : RelayCircuitState lib)
      (states : Map Str (RelayCircuitState lib))
      → Map.get other states ≡ some gone
      → Map.get id states ≡ some s
      → f gone ≡ true
      → f s ≡ false
      → Map.get id (Map.remove other states) ≡ some s
  remove-keeps f other id gone s states found there this that =
      let apart = differ (has f) other id states (rw found this) (rw there that) in
      get-remove other id states ∙ rw apart there

  admit_circuit-keeps :
      (now unix : ℕ) (secret : lib.Secret) (other key id : Str) (from_peer : Peer)
      (s : RelayCircuitState lib) (n : RelayNode lib)
      → Map.get id n.circuit_states ≡ some s
      → Map.get id (admit_circuit lib now unix secret other key from_peer n).0.circuit_states
        ≡ some s
  unfolding admit_circuit
  admit_circuit-keeps now unix secret other key id from_peer s n there =
      let states = n.circuit_states in
      elim (Bool-cases (leb n.config.max_circuits (size states))) [
        | inl full ↦ rw full there
        | inr room ↦ elim (Bool-cases (contains_key other states)) [
          | inl taken ↦ rw (room, taken) there
          | inr free ↦
              elim (Bool-cases
                (leb n.config.max_circuits_per_peer (count_from lib from_peer states))) [
                  | inl many ↦ rw (room, free, many) there
                  | inr few ↦ rw (room, free, few) (insert-keeps other id _ s states free there)
                ]
        ]
      ]

  recorded_circuits :
      (now : ℕ) (digest : Str) (n : RelayNode lib)
      → (check_and_record_replay lib now digest n).0.circuit_states ≡ n.circuit_states
  unfolding check_and_record_replay
  recorded_circuits now digest n = elim (Bool-cases (contains_key digest (pruned lib now n))) [
    | inl seen ↦ rw seen refl
    | inr unseen ↦ rw unseen refl
  ]

  create_circuit-keeps :
      (now unix : ℕ) (secret : lib.Secret) (other id : Str) (from_peer : Peer) (h : CreateHandshake)
      (s : RelayCircuitState lib) (n : RelayNode lib)
      → Map.get id n.circuit_states ≡ some s
      → Map.get id (create_circuit lib now unix secret other from_peer h n).0.circuit_states
        ≡ some s
  unfolding create_circuit
  create_circuit-keeps now unix secret other id from_peer h s n there =
      elim (Bool-cases (fresh lib unix n h.timestamp)) [
        | inl new ↦ rw new (
            and_then-keeps (λ m. Map.get id m.circuit_states ≡ some s)
              (check_and_record_replay lib now (replay_digest lib other h) n)
              (λ m u. admit_circuit lib now unix secret other h.client_public_key from_peer m)
              (rw (recorded_circuits now (replay_digest lib other h) n) there)
              (λ m u.
                admit_circuit-keeps now unix secret other h.client_public_key id from_peer s m))
        | inr stale ↦ rw stale there
      ]

  pub handle_create-keeps :
      (now unix : ℕ) (secret : lib.Secret) (cell : RelayCell) (id : Str) (from_peer : Peer)
      (s : RelayCircuitState lib) (n : RelayNode lib)
      → Map.get id n.circuit_states ≡ some s
      → Map.get id (handle_create lib now unix secret cell from_peer n).0.circuit_states ≡ some s
  unfolding handle_create
  handle_create-keeps now unix secret cell id from_peer s n there =
      elim (Bool-cases (fresh lib unix n cell.timestamp)) [
        | inl new ↦ elim (Option-cases (lib.create_codec.deserialize cell.payload)) [
          | inl unread ↦ rw (new, unread) there
          | inr (h, read) ↦
              rw (new, read)
                (create_circuit-keeps now unix secret cell.circuit_id id from_peer h s n there)
        ]
        | inr stale ↦ rw stale there
      ]

  -- A cell to extend changes a circuit of the peer that it is from.
  extend_circuit-keeps :
      (unix : ℕ) (cell : RelayCell) (id : Str) (from_peer : Peer) (own s : RelayCircuitState lib)
      (n : RelayNode lib)
      → Map.get cell.circuit_id n.circuit_states ≡ some own
      → Map.get id n.circuit_states ≡ some s
      → is_from lib from_peer own ≡ true
      → is_from lib from_peer s ≡ false
      → Map.get id (extend_circuit lib unix cell own n).0.circuit_states ≡ some s
  unfolding extend_circuit
  extend_circuit-keeps unix cell id from_peer own s n found there mine strange =
      elim (Result-cases (decrypt_raw lib.cipher own.hop_key cell.payload)) [
        | inr (x, shut) ↦ rw (extend_circuit, shut) there
        | inl (plain, opens) ↦ elim (Option-cases (lib.extend_codec.deserialize plain)) [
          | inl unread ↦ rw (extend_circuit, opens, unread) there
          | inr (request, read) ↦
              let other =
                differ (has (is_from lib from_peer)) cell.circuit_id id n.circuit_states
                  (rw found mine) (rw there strange) in
              rw
                (
                  extend_circuit,
                  opens,
                  read,
                  get-adjust cell.circuit_id id (set_next lib request.next_peer) n.circuit_states,
                  other,
                )
                there
        ]
      ]

  pub handle_extend-keeps :
      (now unix : ℕ) (cell : RelayCell) (id : Str) (from_peer : Peer) (s : RelayCircuitState lib)
      (n : RelayNode lib)
      → Map.get id n.circuit_states ≡ some s
      → expired lib now s ≡ false
      → is_from lib from_peer s ≡ false
      → Map.get id (handle_extend lib now unix cell from_peer n).0.circuit_states ≡ some s
  unfolding handle_extend
  handle_extend-keeps now unix cell id from_peer s n there alive strange =
      elim (Bool-cases (fresh lib unix n cell.timestamp)) [
        | inr stale ↦ rw stale there
        | inl new ↦ elim (Option-cases (Map.get cell.circuit_id n.circuit_states)) [
          | inl missing ↦ rw (new, missing) there
          | inr (t, found) ↦ elim (Bool-cases (expired lib now t)) [
            | inl old ↦
                rw (new, found, old)
                  (remove-keeps (expired lib now) cell.circuit_id id t s n.circuit_states found
                    there old alive)
            | inr live ↦ elim (Bool-cases (is_from lib from_peer t)) [
              | inl mine ↦
                  rw (new, found, live, mine)
                    (extend_circuit-keeps unix cell id from_peer t s n found there mine strange)
              | inr other ↦ rw (new, found, live, other) there
            ]
          ]
        ]
      ]

  relay_cell-keeps :
      (unix : ℕ) (nonce : Str) (cell : RelayCell) (from_peer : Peer) (t : RelayCircuitState lib)
      (n : RelayNode lib)
      → (relay_cell lib unix nonce cell from_peer t n).0.circuit_states ≡ n.circuit_states
  unfolding relay_cell
  relay_cell-keeps unix nonce cell from_peer t n =
      elim (Result-cases (decrypt_raw lib.cipher t.hop_key cell.payload)) [
        | inr (x, shut) ↦ rw (relay_cell, shut) refl
        | inl (plain, opens) ↦ elim (Option-cases (lib.payload_codec.deserialize plain)) [
          | inl unread ↦ rw (relay_cell, opens, unread) refl
          | inr (p, read) ↦ elim (Bool-cases (verify lib p)) [
            | inl whole ↦ rw (relay_cell, opens, read, whole) refl
            | inr broken ↦ rw (relay_cell, opens, read, broken) refl
          ]
        ]
      ]

  pub handle_relay-keeps :
      (now unix : ℕ) (nonce : Str) (cell : RelayCell) (id : Str) (from_peer : Peer)
      (s : RelayCircuitState lib) (n : RelayNode lib)
      → Map.get id n.circuit_states ≡ some s
      → expired lib now s ≡ false
      → Map.get id (handle_relay lib now unix nonce cell from_peer n).0.circuit_states ≡ some s
  unfolding handle_relay
  handle_relay-keeps now unix nonce cell id from_peer s n there alive =
      elim (Bool-cases (fresh lib unix n cell.timestamp)) [
        | inr stale ↦ rw stale there
        | inl new ↦ elim (Option-cases (Map.get cell.circuit_id n.circuit_states)) [
          | inl missing ↦ rw (new, missing) there
          | inr (t, found) ↦ elim (Bool-cases (expired lib now t)) [
            | inl old ↦
                rw (new, found, old)
                  (remove-keeps (expired lib now) cell.circuit_id id t s n.circuit_states found
                    there old alive)
            | inr live ↦ rw (new, found, live, relay_cell-keeps unix nonce cell from_peer t n) there
          ]
        ]
      ]

  pub handle_destroy-keeps :
      (unix : ℕ) (cell : RelayCell) (id : Str) (s : RelayCircuitState lib) (n : RelayNode lib)
      → Map.get id n.circuit_states ≡ some s
      → (cell.circuit_id == id) ≡ false
      → Map.get id (handle_destroy lib unix cell n).0.circuit_states ≡ some s
  unfolding handle_destroy
  handle_destroy-keeps unix cell id s n there other =
      elim (Option-cases (Map.get cell.circuit_id n.circuit_states)) [
        | inl missing ↦ rw (handle_destroy, missing) there
        | inr (t, found) ↦
            rw (handle_destroy, found, get-remove cell.circuit_id id n.circuit_states, other) there
      ]
