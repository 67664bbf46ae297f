-- ===== src/Relay/Extending.antt =====
-- The cell with which the client extends a circuit, at the relay that answered for the first hop.
use shadowmesh.Base.{
  ℕ, ◌≡◌, refl, ap, sym, subst, ◌∙◌, true, false, some, List, ◌∷◌, arith, Str, str_eq, length, Eq,
  Option-cases, inl, inr,
}
use shadowmesh.Base.Map
use shadowmesh.Base.Results.{ok, Result-cases}
use shadowmesh.Crypto.{nonce_size, encrypt_raw}
use shadowmesh.Crypto.Layers.{decrypt_raw-encrypt_raw}
use shadowmesh.Relay.Types.{Libraries, ExtendRequest, RelayCell, forward, create, extend}
use shadowmesh.Relay.Handshake.{new_cell, new_handshake, serialize_handshake}
use shadowmesh.Relay.Circuit.{Circuit, CircuitHop, keyed, get_create_handshake}
use shadowmesh.Relay.Client.{process_response, wrap_keyed, extend_cell}
use shadowmesh.Relay.Node.{
  RelayCircuitState, RelayNode, with_states, from_handshake, is_from, expired, fresh,
}
use shadowmesh.Relay.Cells.{set_next, extend_circuit, handle_extend}
use shadowmesh.Relay.Agreement.{answer, with_key, process_response-first}

module _ {Peer : Type 0} ⦃e : Eq Peer⦄ (lib : Libraries Peer) where
  -- What the client asks of a relay: the next hop, and the handshake for it.
  abbrev pub request_for : ℕ → Str → Str → CircuitHop lib → ExtendRequest Peer
  request_for unix pad id g = record {
    next_peer = g.peer_id;
    handshake =
        serialize_handshake lib (new_handshake lib unix pad (lib.public_key g.ephemeral) id);
  }

  -- How the cell was made.
  record Extends (unix : ℕ) (pad key nonce id : Str) (g : CircuitHop lib) (cell : RelayCell)
      : Type 0 where
    plain : Str
    content : Str
    serialized : lib.extend_codec.serialize (request_for unix pad id g) ≡ some plain
    encrypted : encrypt_raw lib.cipher key nonce plain ≡ ok content
    same : cell ≡ new_cell unix id extend content

  extend_cell-Extends :
      (unix : ℕ) (pad key : Str) (nonce : ℕ → Str) (c : Circuit lib) (h g : CircuitHop lib)
      (hs : List (CircuitHop lib)) (cell : RelayCell)
      → c.hops ≡ h ∷ g ∷ hs
      → h.symmetric_key ≡ some key
      → extend_cell lib unix pad nonce 0 c ≡ ok (some cell)
      → Extends unix pad key (nonce 0) c.id g cell
  unfolding extend_cell get_create_handshake wrap_keyed
  extend_cell-Extends unix pad key nonce c h g hs cell shape has_key made =
      elim (Option-cases (lib.extend_codec.serialize (request_for unix pad c.id g))) [
        | inl failed ↦ absurd (ground (arith, shape, has_key, failed, made))
        | inr (plain, serialized) ↦
            elim (Result-cases (encrypt_raw lib.cipher key (nonce 0) plain)) [
              | inl (content, encrypted) ↦ record {
                plain = plain;
                content = content;
                serialized = serialized;
                encrypted = encrypted;
                same = ground (arith, shape, has_key, serialized, encrypted, made);
              }
              | inr (x, failed) ↦ absurd (ground (arith, shape, has_key, serialized, failed, made))
            ]
      ]

  change_hops :
      (secret : lib.Secret) (key : Str) (c : Circuit lib) (h g : CircuitHop lib)
      (hs : List (CircuitHop lib))
      → c.hops ≡ h ∷ g ∷ hs
      → (with_key lib 0 secret key c).hops ≡ keyed lib (lib.public_key secret) key h ∷ g ∷ hs
  change_hops secret key c h g hs shape = rw shape refl

  -- A relay that has the circuit opens the cell and sends the handshake to the next hop.
  handle_extend-Extends :
      (now unix unix' : ℕ) (pad nonce id : Str) (g : CircuitHop lib) (cell : RelayCell)
      (s : RelayCircuitState lib) (n : RelayNode lib) (from_peer : Peer)
      → length nonce ≡ nonce_size
      → Extends unix pad s.hop_key nonce id g cell
      → fresh lib unix' n unix ≡ true
      → Map.get id n.circuit_states ≡ some s
      → expired lib now s ≡ false
      → is_from lib from_peer s ≡ true
      → handle_extend lib now unix' cell from_peer n ≡ (
        with_states lib (Map.adjust id (set_next lib g.peer_id) n.circuit_states) n,
        ok (forward (new_cell unix' id create (request_for unix pad id g).handshake) g.peer_id),
      )
  unfolding handle_extend extend_circuit
  handle_extend-Extends now unix unix' pad nonce id g cell s n from_peer size x new there alive
        own =
      let opens =
        decrypt_raw-encrypt_raw lib.cipher s.hop_key nonce x.plain x.content size x.encrypted in
      let parses = lib.extend_codec.deserialize-serialize _ x.plain x.serialized in
      subst
        (λ q. handle_extend lib now unix' q from_peer n ≡ (
          with_states lib (Map.adjust id (set_next lib g.peer_id) n.circuit_states) n,
          ok (forward (new_cell unix' id create (request_for unix pad id g).handshake) g.peer_id),
        ))
        (sym x.same) (rw (new, there, alive, own, extend_circuit, opens, parses) refl)

  -- The second hop is reached: the client makes its EXTEND cell from the answer that the relay of the
  -- first hop made of its handshake, and that relay, when the cell comes from the peer that made the
  -- circuit, in time and while the circuit is alive, opens it with its own key, notes the second hop
  -- as the next one, and sends it the client's handshake for that hop in a CREATE cell. (The relay has
  -- the identity of the peer that the client expects; the nonce has twelve bytes.)
  pub handle_extend-process_response :
      (now unix unix' unix'' now'' lifetime : ℕ) (pad : Str) (nonce : ℕ → Str) (from_peer : Peer)
      (i : lib.Identity) (secret : lib.Secret) (c : Circuit lib) (h g : CircuitHop lib)
      (hs : List (CircuitHop lib)) (cell : RelayCell) (n : RelayNode lib)
      → c.hops ≡ h ∷ g ∷ hs
      → lib.peer_of (lib.identity_key i) ≡ h.peer_id
      → (process_response lib unix' pad nonce
          (answer lib now unix lifetime from_peer i secret c h).1
          0
          c).1
        ≡ ok (some cell)
      → length (nonce 0) ≡ nonce_size
      → Map.get c.id n.circuit_states ≡ some (answer lib now unix lifetime from_peer i secret c h).0
      → expired lib now'' (answer lib now unix lifetime from_peer i secret c h).0 ≡ false
      → fresh lib unix'' n unix' ≡ true
      → handle_extend lib now'' unix'' cell from_peer n ≡ (
        with_states lib (Map.adjust c.id (set_next lib g.peer_id) n.circuit_states) n,
        ok (
            forward
              (new_cell unix'' c.id create (request_for unix' pad c.id g).handshake)
              g.peer_id),
      )
  unfolding from_handshake
  handle_extend-process_response now unix unix' unix'' now'' lifetime pad nonce from_peer i secret c
        h g hs cell n shape known made size there alive new =
      let s = (answer lib now unix lifetime from_peer i secret c h).0 in
      let first =
        process_response-first lib now unix unix' lifetime pad nonce from_peer i secret c h
          (rw shape refl) known in
      let x =
        extend_cell-Extends unix' pad s.hop_key nonce (with_key lib 0 secret s.hop_key c)
          (keyed lib (lib.public_key secret) s.hop_key h) g hs cell
          (change_hops secret s.hop_key c h g hs shape) refl (sym (ap (λ r. r.1) first) ∙ made) in
      handle_extend-Extends now'' unix' unix'' pad (nonce 0) c.id g cell s n from_peer size x new
        there alive ((e.same_iff from_peer from_peer).1 refl)
