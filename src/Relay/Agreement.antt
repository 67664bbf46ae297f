-- ===== src/Relay/Agreement.antt =====
-- Client and relay agree on the key of the first hop, and on no other.
use shadowmesh.Base.{
  str_ltb, str_ltb_asym, str_ltb_total, ℕ, zero, suc, ◌≡◌, refl, ap, ◌∙◌, false, some, List, [],
  ◌∷◌, Str, length, Eq, str_beq, str_beq_refl, Bool-cases, inl, inr, leb,
}
use shadowmesh.Base.Results.{ok, err}
use shadowmesh.Relay.Types.{Libraries, CreatedHandshake, decryption_failed}
use shadowmesh.Relay.Handshake.{
  sorted_keys, context_of, derive_symmetric_key, confirmation_of, new_signed, verify_key,
  verify_identity, handshake_transcript,
}
use shadowmesh.Relay.Circuit.{
  Circuit, CircuitHop, hop_at, change_hop, keyed, complete_hop_handshake,
}
use shadowmesh.Relay.Client.{process_response, confirm, ready_if, extend_cell}
use shadowmesh.Relay.Node.{RelayCircuitState, from_handshake}

-- The order of the keys does not depend on the side.
sorted_keys_comm : (a b : Str) → sorted_keys a b ≡ sorted_keys b a
unfolding sorted_keys
sorted_keys_comm a b = elim (Bool-cases (str_ltb a b)) [
  | inl less ↦ elim (Bool-cases (str_ltb b a)) [
    | inl more ↦ absurd (str_ltb_asym a b less more)
    | inr not_more ↦ rw (less, not_more) refl
  ]
  | inr not_less ↦ elim (Bool-cases (str_ltb b a)) [
    | inl more ↦ rw (not_less, more) refl
    | inr not_more ↦ rw (str_ltb_total a b not_less not_more) refl
  ]
]

module _ {Peer : Type 0} ⦃e : Eq Peer⦄ (lib : Libraries Peer) where
  -- Each side derives the key from its own secret and the public key of the other.
  derive_symmetric_key_comm :
      (a b : lib.Secret) (context : Str)
      → derive_symmetric_key lib a (lib.public_key b) context
        ≡ derive_symmetric_key lib b (lib.public_key a) context
  unfolding derive_symmetric_key
  derive_symmetric_key_comm a b context =
      rw (lib.diffie_hellman_comm a b, sorted_keys_comm (lib.public_key a) (lib.public_key b)) refl

  -- The answer of a relay that is who the client expects passes as authentic.
  verify_identity-new_signed :
      (unix : ℕ) (relay_key client_key id key : Str) (i : lib.Identity) (peer : Peer)
      → lib.peer_of (lib.identity_key i) ≡ peer
      → verify_identity lib (new_signed lib unix relay_key client_key id key i) client_key id peer
        ≡ ok tt
  unfolding verify_identity new_signed
  verify_identity-new_signed unix relay_key client_key id key i peer known =
      rw
        (
          lib.is_identity_key_lem i,
          known,
          (e.same_iff peer peer).1 refl,
          lib.verify-sign i (handshake_transcript relay_key client_key id),
        )
        refl

  -- What an honest relay makes of the CREATE of a hop.
  abbrev pub answer :
      ℕ
      → ℕ
      → ℕ
      → Peer
      → lib.Identity
      → lib.Secret
      → Circuit lib
      → CircuitHop lib
      → RelayCircuitState lib × CreatedHandshake
  answer now unix lifetime from_peer i secret c h =
      from_handshake lib now unix secret c.id (lib.public_key h.ephemeral) from_peer lifetime i

  -- The circuit once the hop has its key.
  abbrev pub with_key : ℕ → lib.Secret → Str → Circuit lib → Circuit lib
  with_key index secret key c = record c {
    hops = change_hop lib index (keyed lib (lib.public_key secret) key) c.hops;
  }

  -- What the client does with the answer, whatever the hop: it derives its key, then checks the
  -- confirmation of the relay's.
  pub process_response-from_handshake :
      (now unix unix' lifetime index : ℕ) (pad : Str) (nonce : ℕ → Str) (from_peer : Peer)
      (i : lib.Identity) (secret : lib.Secret) (c : Circuit lib) (h : CircuitHop lib)
      → hop_at lib index c.hops ≡ some h
      → lib.peer_of (lib.identity_key i) ≡ h.peer_id
      → process_response lib unix' pad nonce
          (answer now unix lifetime from_peer i secret c h).1
          index
          c
        ≡ confirm lib unix' pad nonce
            (answer now unix lifetime from_peer i secret c h).1
            index
            (with_key index secret
              (derive_symmetric_key lib secret (lib.public_key h.ephemeral) (context_of c.id index))
              c)
            (derive_symmetric_key lib secret (lib.public_key h.ephemeral) (context_of c.id index))
  unfolding process_response from_handshake complete_hop_handshake new_signed
  process_response-from_handshake now unix unix' lifetime index pad nonce from_peer i secret c h
        there known =
      let honest =
        verify_identity-new_signed unix (lib.public_key secret) (lib.public_key h.ephemeral) c.id
          (derive_symmetric_key lib secret (lib.public_key h.ephemeral) (context_of c.id 0)) i
          h.peer_id known in
      rw
        (
          process_response,
          there,
          honest,
          complete_hop_handshake,
          there,
          derive_symmetric_key_comm h.ephemeral secret (context_of c.id index),
        )
        refl

  length-change_hop :
      (index : ℕ) (f : CircuitHop lib → CircuitHop lib) (hops : List (CircuitHop lib))
      → length (change_hop lib index f hops) ≡ length hops
  length-change_hop index f [] = refl
  length-change_hop zero f (h ∷ hs) = refl
  length-change_hop (suc index) f (h ∷ hs) = ap suc (length-change_hop index f hs)

  -- Client and relay agree on the key of the first hop: the answer that a relay makes of the client's
  -- handshake is accepted, the key that the client notes for the hop is the one in the relay's state,
  -- and the next step is the EXTEND cell for the second hop, if there is one. (The relay has the
  -- identity of the peer that the client expects, and answers for the circuit's own identifier.)
  pub process_response-first :
      (now unix unix' lifetime : ℕ) (pad : Str) (nonce : ℕ → Str) (from_peer : Peer)
      (i : lib.Identity) (secret : lib.Secret) (c : Circuit lib) (h : CircuitHop lib)
      → hop_at lib 0 c.hops ≡ some h
      → lib.peer_of (lib.identity_key i) ≡ h.peer_id
      → process_response lib unix' pad nonce (answer now unix lifetime from_peer i secret c h).1 0 c
        ≡ (
          ready_if lib
              (leb (length c.hops) 1)
              (with_key 0 secret (answer now unix lifetime from_peer i secret c h).0.hop_key c),
          extend_cell lib unix' pad nonce 0
              (with_key 0 secret (answer now unix lifetime from_peer i secret c h).0.hop_key c),
        )
  unfolding confirm verify_key from_handshake new_signed
  process_response-first now unix unix' lifetime pad nonce from_peer i secret c h there known =
      process_response-from_handshake now unix unix' lifetime 0 pad nonce from_peer i secret c h
        there known
      ∙ rw
          (
            confirm,
            str_beq_refl (
                confirmation_of lib (
                  derive_symmetric_key lib secret (lib.public_key h.ephemeral)
                    (context_of c.id 0))),
            length-change_hop 0
                (keyed lib (lib.public_key secret) (
                  derive_symmetric_key lib secret (lib.public_key h.ephemeral) (context_of c.id 0)))
                c.hops,
          )
          refl

  -- They do not agree on any later hop: the relay derives its key for the index 0, the client for the
  -- index of the hop, and the answer of an honest relay is refused, as if its key were wrong. (The
  -- confirmations of the two keys differ, as those of different keys do.)
  pub process_response-later :
      (now unix unix' lifetime index : ℕ) (pad : Str) (nonce : ℕ → Str) (from_peer : Peer)
      (i : lib.Identity) (secret : lib.Secret) (c : Circuit lib) (h : CircuitHop lib)
      → hop_at lib (suc index) c.hops ≡ some h
      → lib.peer_of (lib.identity_key i) ≡ h.peer_id
      → str_beq
          (confirmation_of lib
            (derive_symmetric_key lib secret (lib.public_key h.ephemeral) (context_of c.id 0)))
          (confirmation_of lib (
            derive_symmetric_key lib secret
              (lib.public_key h.ephemeral)
              (context_of c.id (suc index))))
        ≡ false
      → (process_response lib unix' pad nonce
          (answer now unix lifetime from_peer i secret c h).1
          (suc index)
          c).1
        ≡ err decryption_failed
  unfolding confirm verify_key from_handshake new_signed
  process_response-later now unix unix' lifetime index pad nonce from_peer i secret c h there known
        apart =
      ap (λ r. r.1)
        (process_response-from_handshake now unix unix' lifetime (suc index) pad nonce from_peer i
          secret c h there known)
      ∙ rw (confirm, apart) refl
