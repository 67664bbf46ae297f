-- ===== src/Relay/Replay.antt =====
-- What a relay that answers a CREATE cell records, and what it refuses by that.
use shadowmesh.Base.{
  ℕ, ◌-◌, ◌≤◌, ◌<◌, ◌≡◌, refl, sym, ap, ◌∙◌, Bool, false, some, arith, Str, str_eq, Eq, Bool-cases,
  Option-cases, inl, inr, leb,
}
use shadowmesh.Base.Map
use shadowmesh.Base.Map.{
  Map, Distinct, contains_key, get-insert, get-insert_self, get-retain, size, size-retain-le,
  retain-Distinct, insert-Distinct,
}
use shadowmesh.Base.Results.{Result, ok, err}
use shadowmesh.Relay.Types.{
  Libraries, CreateHandshake, RelayCell, RelayAction, RelayError, replayed_cell, stale_cell,
  invalid_payload,
}
use shadowmesh.Relay.Node.{
  RelayNode, pruned, cache_cap, check_and_record_replay, count_from, admit_circuit, create_circuit,
  handle_create, fresh, replay_digest,
}

module _ {Peer : Type 0} ⦃e : Eq Peer⦄ (lib : Libraries Peer) where
  -- A digest seen no longer ago than `max_cell_age`, in a cache that is not full.
  pub seen_again :
      (now now' : ℕ) (digest : Str) (m : RelayNode lib)
      → Distinct m.replay_cache
      → Map.get digest m.replay_cache ≡ some now
      → now' - now ≤ m.config.max_cell_age
      → size m.replay_cache < cache_cap lib m.config
      → (check_and_record_replay lib now' digest m).1 ≡ err replayed_cell
  unfolding check_and_record_replay pruned
  seen_again now now' digest m distinct there recent room =
      let keep : ℕ → Bool = λ seen. leb (now' - seen) m.config.max_cell_age in
      let stays : Map.get digest (Map.retain keep m.replay_cache) ≡ some now =
        get-retain keep digest m.replay_cache distinct ∙ rw there (ground (arith, recent)) in
      let below : leb (cache_cap lib m.config) (size (Map.retain keep m.replay_cache)) ≡ false =
        ground (arith, size-retain-le keep m.replay_cache, room) in
      rw (below, stays) refl

  pub pruned-Distinct :
      (now : ℕ) (n : RelayNode lib) → Distinct n.replay_cache → Distinct (pruned lib now n)
  unfolding pruned
  pruned-Distinct now n distinct =
      let keep : ℕ → Bool = λ seen. leb (now - seen) n.config.max_cell_age in
      elim (Bool-cases (leb (cache_cap lib n.config) (size (Map.retain keep n.replay_cache)))) [
        | inl full ↦ rw full tt
        | inr room ↦ rw room (retain-Distinct keep n.replay_cache distinct)
      ]

  no_answer :
      (r : RelayNode lib × Result RelayError (RelayAction Peer)) (x : RelayError)
      {m : RelayNode lib} {a : RelayAction Peer}
      → r.1 ≡ err x
      → r ≡ (m, ok a)
      → ⊥
  no_answer r x failed done = cc (failed, ap (λ q. q.1) done)

  -- What the relay did that answered.
  pub record Answered (now unix : ℕ) (cell : RelayCell) (n m : RelayNode lib) : Type 0 where
    pub handshake : CreateHandshake
    pub reads : lib.create_codec.deserialize cell.payload ≡ some handshake
    pub recorded :
        m.replay_cache
        ≡ Map.insert (replay_digest lib cell.circuit_id handshake) now (pruned lib now n)
    pub same_config : m.config ≡ n.config

  pub admitted_cache :
      (now unix : ℕ) (secret : lib.Secret) (id key : Str) (from_peer : Peer) (n : RelayNode lib)
      → ((admit_circuit lib now unix secret id key from_peer n).0.replay_cache ≡ n.replay_cache)
        × ((admit_circuit lib now unix secret id key from_peer n).0.config ≡ n.config)
  unfolding admit_circuit
  admitted_cache now unix secret id key from_peer n =
      let states = n.circuit_states in
      elim (Bool-cases (leb n.config.max_circuits (size states))) [
        | inl full ↦ rw full (refl, refl)
        | inr room ↦ elim (Bool-cases (contains_key id states)) [
          | inl taken ↦ rw (room, taken) (refl, refl)
          | inr free ↦
              elim (Bool-cases
                (leb n.config.max_circuits_per_peer (count_from lib from_peer states))) [
                  | inl many ↦ rw (room, free, many) (refl, refl)
                  | inr few ↦ rw (room, free, few) (refl, refl)
                ]
        ]
      ]

  pub handle_create-Answered :
      (now unix : ℕ) (secret : lib.Secret) (cell : RelayCell) (from_peer : Peer)
      (n m : RelayNode lib) (a : RelayAction Peer)
      → handle_create lib now unix secret cell from_peer n ≡ (m, ok a)
      → Answered now unix cell n m
  unfolding handle_create create_circuit check_and_record_replay
  handle_create-Answered now unix secret cell from_peer n m a done =
      elim (Bool-cases (fresh lib unix n cell.timestamp)) [
        | inr stale ↦ absurd (no_answer _ stale_cell (rw (stale) refl) done)
        | inl new ↦ elim (Option-cases (lib.create_codec.deserialize cell.payload)) [
          | inl unread ↦ absurd (no_answer _ invalid_payload (rw (new, unread) refl) done)
          | inr (h, read) ↦ elim (Bool-cases (fresh lib unix n h.timestamp)) [
            | inr stale ↦ absurd (no_answer _ stale_cell (rw (new, read, stale) refl) done)
            | inl new' ↦
                elim (Bool-cases
                  (contains_key (replay_digest lib cell.circuit_id h) (pruned lib now n))) [
                    | inl seen ↦
                        absurd (no_answer _ replayed_cell (rw (new, read, new', seen) refl) done)
                    | inr unseen ↦
                        let n' = record n {
                          replay_cache =
                              Map.insert (replay_digest lib cell.circuit_id h) now
                                (pruned lib now n);
                        } in
                        let r =
                          admit_circuit lib now unix secret cell.circuit_id h.client_public_key
                            from_peer n' in
                        let same : r ≡ (m, ok a) = sym (rw (new, read, new', unseen) refl) ∙ done in
                        let (cache, configured) =
                          admitted_cache now unix secret cell.circuit_id h.client_public_key
                            from_peer n' in
                        record {
                          handshake = h;
                          reads = read;
                          recorded = sym (ap (λ q. q.0.replay_cache) same) ∙ cache;
                          same_config = sym (ap (λ q. q.0.config) same) ∙ configured;
                        }
                  ]
          ]
        ]
      ]
