-- ===== src/Relay/Peeling.antt =====
-- A request that the client wraps is peeled layer by layer: each relay on the path opens one, and the
-- exit has the request.
use shadowmesh.Base.{
  Option-cases, inl, inr, ℕ, suc, ◌<◌, ◌≡◌, refl, ap, subst, true, false, Option, none, some, List,
  [], ◌∷◌, arith, Str, length, map, Eq, str_beq_refl, str_eq,
}
use shadowmesh.Base.Map
use shadowmesh.Base.Results.{Result, ok, err, ok_or, map_err, bind-eq_ok, ok_or-eq_ok, Result-cases}
use shadowmesh.Crypto.{nonce_size, encrypt_raw, decrypt_raw}
use shadowmesh.Crypto.Layers.{decrypt_raw-encrypt_raw}
use shadowmesh.Relay.Types.{
  Libraries, RelayError, RelayCell, RelayPayload, RelayAction, forward, exit, respond, drops, relay,
  circuit_build_failed, invalid_payload, encryption_failed,
}
use shadowmesh.Relay.Handshake.{new_cell}
use shadowmesh.Relay.Circuit.{Circuit, CircuitHop}
use shadowmesh.Relay.Client.{
  RelayClient, compute_digest, new_payload, next_of, wrap_hops, wrap_request,
}
use shadowmesh.Relay.Node.{
  RelayCircuitState, RelayNode, is_from, expired, is_fresh, as_secs, u64_mod,
}
use shadowmesh.Relay.Cells.{verify, next_action, relay_cell, handle_relay}

module _ {Peer : Type 0} ⦃e : Eq Peer⦄ (lib : Libraries Peer) where
  -- One layer: `plain` is the payload of a hop, and `content` is it under the key of the hop.
  unwrapped :
      (next : Option Peer) (hop_id inner key nonce plain content : Str)
      → length nonce ≡ nonce_size
      → lib.payload_codec.serialize (new_payload lib next hop_id inner) ≡ some plain
      → encrypt_raw lib.cipher key nonce plain ≡ ok content
      → (decrypt_raw lib.cipher key content ≡ ok plain)
        × (lib.payload_codec.deserialize plain ≡ some (new_payload lib next hop_id inner))
        × (verify lib (new_payload lib next hop_id inner) ≡ true)
  unfolding verify
  unwrapped next hop_id inner key nonce plain content h s m = (
    decrypt_raw-encrypt_raw lib.cipher key nonce plain content h m,
    lib.payload_codec.deserialize-serialize _ plain s,
    str_beq_refl (compute_digest lib inner hop_id),
  )

  -- What the loop of `wrap_request` made for a hop.
  pub record Wrapped (nonce : ℕ → Str) (h : CircuitHop lib) (hs : List (CircuitHop lib))
      (request content : Str) : Type 0 where
    pub inner : Str
    pub plain : Str
    pub key : Str
    pub within : wrap_hops lib (λ i. nonce (suc i)) hs request ≡ ok inner
    pub serialized :
        lib.payload_codec.serialize (new_payload lib (next_of lib hs) h.hop_id inner) ≡ some plain
    pub has_key : h.symmetric_key ≡ some key
    pub encrypted : encrypt_raw lib.cipher key (nonce 0) plain ≡ ok content

  map_err-eq_ok :
      {E F : Type 0} (f : E → F) (r : Result E Str) {a : Str} → map_err f r ≡ ok a → r ≡ ok a
  map_err-eq_ok f (ok b) h = ground (arith, h)
  map_err-eq_ok f (err x) h = ground (arith, h)

  pub wrap_hops-Wrapped :
      (nonce : ℕ → Str) (h : CircuitHop lib) (hs : List (CircuitHop lib)) (request content : Str)
      → wrap_hops lib nonce (h ∷ hs) request ≡ ok content
      → Wrapped nonce h hs request content
  unfolding wrap_hops
  wrap_hops-Wrapped nonce h hs request content made =
      let (inner, within, rest) =
        bind-eq_ok (wrap_hops lib (λ i. nonce (suc i)) hs request) _ made in
      let (plain, serialized, rest') =
        bind-eq_ok
          (ok_or invalid_payload
            (lib.payload_codec.serialize (new_payload lib (next_of lib hs) h.hop_id inner)))
          _ rest in
      let (key, has_key, encrypted) =
        bind-eq_ok (ok_or circuit_build_failed h.symmetric_key) _ rest' in
      record {
        inner = inner;
        plain = plain;
        key = key;
        within = within;
        serialized = ok_or-eq_ok invalid_payload _ serialized;
        has_key = ok_or-eq_ok circuit_build_failed _ has_key;
        encrypted = map_err-eq_ok (λ x. encryption_failed) _ encrypted;
      }

  -- The relay has the circuit, alive, with the key of the hop, and made by the peer that the cell is
  -- from.
  pub record IsOnPath (now : ℕ) (id : Str) (h : CircuitHop lib) (n : RelayNode lib)
      (from_peer : Peer) : Type 0 where
    pub state : RelayCircuitState lib
    pub there : Map.get id n.circuit_states ≡ some state
    pub alive : expired lib now state ≡ false
    pub same_key : h.symmetric_key ≡ some state.hop_key
    pub from_prev : is_from lib from_peer state ≡ true

  -- Where a relay sends what it found inside.
  abbrev pub sends : ℕ → Str → Option Peer → Str → RelayAction Peer
  sends unix id none inner = exit inner id
  sends unix id (some next) inner = forward (new_cell unix id relay inner) next

  fresh_now : (unix max_age : ℕ) → unix < u64_mod → is_fresh unix max_age unix ≡ true
  unfolding is_fresh
  fresh_now unix max_age small = ground arith

  next_action-sends :
      (unix : ℕ) (nonce id content : Str) (s : RelayCircuitState lib) (p : RelayPayload Peer)
      → next_action lib unix nonce (new_cell unix id relay content) s p true
        ≡ ok (sends unix id p.next_hop p.inner)
  unfolding next_action
  next_action-sends unix nonce id content s p = elim (Option-cases p.next_hop) [
    | inl last ↦ rw last refl
    | inr (next, onward) ↦ rw onward refl
  ]

  handle_relay-sends :
      (now unix : ℕ) (id drawn content : Str) (nonce : ℕ → Str) (h : CircuitHop lib)
      (hs : List (CircuitHop lib)) (request : Str) (n : RelayNode lib) (from_peer : Peer)
      (w : Wrapped nonce h hs request content)
      → unix < u64_mod
      → length (nonce 0) ≡ nonce_size
      → IsOnPath now id h n from_peer
      → (handle_relay lib now unix drawn (new_cell unix id relay content) from_peer n).1
        ≡ ok (sends unix id (next_of lib hs) w.inner)
  unfolding handle_relay relay_cell
  handle_relay-sends now unix id drawn content nonce h hs request n from_peer w small size on =
      let (opens, parses, verifies) =
        unwrapped (next_of lib hs) h.hop_id w.inner w.key (nonce 0) w.plain content size
          w.serialized w.encrypted in
      let same : w.key ≡ on.state.hop_key = cc (on.same_key, w.has_key) in
      let decrypts : decrypt_raw lib.cipher on.state.hop_key content ≡ ok w.plain =
        subst (λ k. decrypt_raw lib.cipher k content ≡ ok w.plain) same opens in
      rw
        (
          fresh_now unix (as_secs n.config.max_cell_age) small,
          on.there,
          on.alive,
          relay_cell,
          decrypts,
          parses,
          verifies,
          on.from_prev,
        )
        (next_action-sends unix drawn id content on.state
          (new_payload lib (next_of lib hs) h.hop_id w.inner))

  abbrev pub add_peer : Peer → Option (Str × List Peer) → Option (Str × List Peer)
  add_peer p none = none
  add_peer p (some (content, ps)) = some (content, p ∷ ps)

  -- A cell on its way: each relay gets what the one before sent it. At the exit, what came out, and
  -- the peers that the relays sent it to.
  abbrev pub onward :
      Result RelayError (RelayAction Peer)
      → (RelayCell → Option (Str × List Peer))
      → Option (Str × List Peer)
  onward (ok (forward cell next)) rest = add_peer next (rest cell)
  onward (ok (exit content id)) rest = some (content, [])
  onward (ok (respond cell)) rest = none
  onward (ok drops) rest = none
  onward (err x) rest = none

  unfoldable pub travel :
      ℕ → ℕ → Str → List (RelayNode lib × Peer) → RelayCell → Option (Str × List Peer)
  travel now unix drawn [] cell = none
  travel now unix drawn ((n, from_peer) ∷ ns) cell =
      onward (handle_relay lib now unix drawn cell from_peer n).1 (λ c. travel now unix drawn ns c)

  -- The relays have the circuit with the keys of its hops.
  abbrev pub ArePath : ℕ → Str → List (CircuitHop lib) → List (RelayNode lib × Peer) → Type 0
  ArePath now id [] [] = Unit
  ArePath now id (h ∷ hs) ((n, from_peer) ∷ ns) =
      IsOnPath now id h n from_peer × ArePath now id hs ns
  ArePath now id _ _ = ⊥

  abbrev pub peers_of : List (CircuitHop lib) → List Peer
  peers_of hs = map (λ h. h.peer_id) hs

  wrap_hops_nil :
      (nonce : ℕ → Str) (request inner : Str)
      → wrap_hops lib nonce [] request ≡ ok inner
      → inner ≡ request
  unfolding wrap_hops
  wrap_hops_nil nonce request inner made = cc made

  wrap_request-wrap_hops :
      (now unix : ℕ) (id request : Str) (nonce : ℕ → Str) (client : RelayClient lib)
      (c : Circuit lib) (cell : RelayCell)
      → Map.get id client.circuits ≡ some c
      → wrap_request lib now unix nonce id request client ≡ ok cell
      → (content : Str) × (wrap_hops lib nonce c.hops request ≡ ok content)
        × (cell ≡ new_cell unix id relay content)
  unfolding wrap_request
  wrap_request-wrap_hops now unix id request nonce client c cell there made =
      elim (Result-cases (wrap_hops lib nonce c.hops request)) [
        | inl (content, wrapped) ↦ (content, wrapped, ground (arith, there, wrapped, made))
        | inr (x, failed) ↦ ground (arith, there, failed, made)
      ]

  wrapped-travel :
      (now unix : ℕ) (id drawn content request : Str) (nonce : ℕ → Str) (h : CircuitHop lib)
      (hs : List (CircuitHop lib)) (ns : List (RelayNode lib × Peer))
      → unix < u64_mod
      → ((i : ℕ) → length (nonce i) ≡ nonce_size)
      → wrap_hops lib nonce (h ∷ hs) request ≡ ok content
      → ArePath now id (h ∷ hs) ns
      → travel now unix drawn ns (new_cell unix id relay content) ≡ some (request, peers_of hs)
  unfolding travel
  wrapped-travel now unix id drawn content request nonce h [] ((n, from_peer) ∷ []) small size made
        on =
      let w = wrap_hops-Wrapped nonce h [] request content made in
      rw
        (handle_relay-sends now unix id drawn content nonce h [] request n from_peer w small
          (size 0) on.0)
        (ap (λ x. some (x, [])) (wrap_hops_nil (λ i. nonce (suc i)) request w.inner w.within))
  wrapped-travel now unix id drawn content request nonce h (g ∷ hs) ((n, from_peer) ∷ ns) small size
        made on =
      let w = wrap_hops-Wrapped nonce h (g ∷ hs) request content made in
      rw
        (handle_relay-sends now unix id drawn content nonce h (g ∷ hs) request n from_peer w small
          (size 0) on.0)
        (ap (add_peer g.peer_id) (
          wrapped-travel now unix id drawn w.inner request (λ i. nonce (suc i)) g hs ns small
            (λ i. size (suc i)) w.within on.1))
  wrapped-travel now unix id drawn content request nonce h [] [] small size made on = absurd on
  wrapped-travel now unix id drawn content request nonce h (g ∷ hs) [] small size made on =
      absurd on
  wrapped-travel now unix id drawn content request nonce h [] ((n, from_peer) ∷ m ∷ ns) small size
        made on =
      absurd on.1

  -- A request goes through: the cell that `wrap_request` makes for a circuit passes the relays of the
  -- circuit one after the other, each sends it to the next hop, and the last one takes the request out
  -- as it was. (The circuit is ready and the relays have it alive and with the keys that the client
  -- has, which no circuit built by CREATE and EXTEND cells gets to; nonces have twelve bytes.)
  pub wrap_request-travel :
      (now unix : ℕ) (id drawn request : Str) (nonce : ℕ → Str) (client : RelayClient lib)
      (c : Circuit lib) (h : CircuitHop lib) (hs : List (CircuitHop lib))
      (ns : List (RelayNode lib × Peer)) (cell : RelayCell)
      → unix < u64_mod
      → ((i : ℕ) → length (nonce i) ≡ nonce_size)
      → Map.get id client.circuits ≡ some c
      → c.hops ≡ h ∷ hs
      → wrap_request lib now unix nonce id request client ≡ ok cell
      → ArePath now id (h ∷ hs) ns
      → travel now unix drawn ns cell ≡ some (request, peers_of hs)
  wrap_request-travel now unix id drawn request nonce client c h hs ns cell small size there shape
        made on =
      let (content, wrapped, same) =
        wrap_request-wrap_hops now unix id request nonce client c cell there made in
      rw same (
        wrapped-travel now unix id drawn content request nonce h hs ns small size
          (subst (λ l. wrap_hops lib nonce l request ≡ ok content) shape wrapped) on)
