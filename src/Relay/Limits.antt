-- ===== src/Relay/Limits.antt =====
-- How many circuits and digests a relay holds, whatever reaches it.
use shadowmesh.Base.{
  ℕ, ◌-◌, ◌≤◌, ◌<◌, ◌≡◌, refl, ◌∙◌, subst, Bool, false, some, arith, Str, str_eq, Eq, ◌==◌,
  Bool-cases, inl, inr, leb,
}
use shadowmesh.Base.Map
use shadowmesh.Base.Map.{
  Map, Distinct, size, total, total-insert, total-remove, total-adjust, total-retain-le,
  insert-Distinct, remove-Distinct, adjust-Distinct, retain-Distinct, size-insert, size-remove,
  size-adjust, size-retain-le, contains_key,
}
use shadowmesh.Base.Results.{and_then-keeps}
use shadowmesh.Relay.Types.{Libraries, CreateHandshake}
use shadowmesh.Relay.Circuit.{RelayConfig}
use shadowmesh.Relay.Node.{
  RelayCircuitState, RelayNode, cache_cap, pruned, check_and_record_replay, one_if_from, count_from,
  from_handshake, admit_circuit, create_circuit, fresh, replay_digest,
}
use shadowmesh.Relay.Cells.{set_next}

module _ {Peer : Type 0} ⦃e : Eq Peer⦄ (lib : Libraries Peer) where
  -- At most `max_circuits` circuits, at most `max_circuits_per_peer` of any peer, and none twice.
  pub record Within (config : RelayConfig) (states : Map Str (RelayCircuitState lib)) : Type 0 where
    pub distinct : Distinct states
    pub all : size states ≤ config.max_circuits
    pub each : (p : Peer) → count_from lib p states ≤ config.max_circuits_per_peer

  pub remove-Within :
      (config : RelayConfig) (id : Str) (states : Map Str (RelayCircuitState lib))
      → Within config states
      → Within config (Map.remove id states)
  unfolding count_from
  remove-Within config id states w = record {
    distinct = remove-Distinct id states w.distinct;
    all = omega (arith, size-remove id states w.distinct, w.all);
    each = λ p. omega (arith, total-remove (one_if_from lib p) id states w.distinct, w.each p);
  }

  pub adjust-Within :
      (config : RelayConfig) (id : Str) (next : Peer) (states : Map Str (RelayCircuitState lib))
      → Within config states
      → Within config (Map.adjust id (set_next lib next) states)
  unfolding count_from
  adjust-Within config id next states w = record {
    distinct = adjust-Distinct id (set_next lib next) states w.distinct;
    all = omega (arith, size-adjust id (set_next lib next) states, w.all);
    each = λ p. omega (
      arith,
      total-adjust (one_if_from lib p) id (set_next lib next) states (λ s. refl),
      w.each p,
    );
  }

  pub retain-Within :
      (config : RelayConfig) (keep : RelayCircuitState lib → Bool)
      (states : Map Str (RelayCircuitState lib))
      → Within config states
      → Within config (Map.retain keep states)
  unfolding count_from
  retain-Within config keep states w = record {
    distinct = retain-Distinct keep states w.distinct;
    all = omega (arith, size-retain-le keep states, w.all);
    each = λ p. omega (arith, total-retain-le (one_if_from lib p) keep states, w.each p);
  }

  -- One more circuit of a peer, where there is room.
  insert-Within :
      (config : RelayConfig) (id : Str) (from_peer : Peer) (s : RelayCircuitState lib)
      (states : Map Str (RelayCircuitState lib))
      → s.prev_hop ≡ some from_peer
      → contains_key id states ≡ false
      → size states < config.max_circuits
      → count_from lib from_peer states < config.max_circuits_per_peer
      → Within config states
      → Within config (Map.insert id s states)
  unfolding count_from
  insert-Within config id from_peer s states made fresh room own w = record {
    distinct = insert-Distinct id s states w.distinct;
    all = ground (arith, size-insert id s states);
    each = λ p. elim (Bool-cases (from_peer == p)) [
      | inl same ↦
          let one : one_if_from lib p s ≡ 1 = rw (made, same) refl in
          let below : count_from lib p states < config.max_circuits_per_peer =
            subst (λ q. count_from lib q states < config.max_circuits_per_peer)
              ((e.same_iff from_peer p).0 same) own in
          omega (arith, total-insert (one_if_from lib p) id s states, one, below)
      | inr other ↦
          let nothing : one_if_from lib p s ≡ 0 = rw (made, other) refl in
          omega (arith, total-insert (one_if_from lib p) id s states, nothing, w.each p)
    ];
  }

  -- The limits on the circuits, and at most so many digests as the cache is cut at.
  pub record IsLimited (config : RelayConfig) (n : RelayNode lib) : Type 0 where
    pub configured : n.config ≡ config
    pub circuits : Within config n.circuit_states
    pub digests : size n.replay_cache ≤ cache_cap lib config

  -- A call that changes the circuits and the counters alone.
  pub kept :
      (config : RelayConfig) (n m : RelayNode lib)
      → m.config ≡ n.config
      → m.replay_cache ≡ n.replay_cache
      → IsLimited config n
      → Within config m.circuit_states
      → IsLimited config m
  kept config n m c r v w = record {
    configured = c ∙ v.configured;
    circuits = w;
    digests = rw r v.digests;
  }

  -- After pruning there is room for one digest more.
  pub size-pruned : (now : ℕ) (n : RelayNode lib) → size (pruned lib now n) < cache_cap lib n.config
  unfolding pruned
  size-pruned now n =
      ground (arith, size-retain-le (λ seen. leb (now - seen) n.config.max_cell_age) n.replay_cache)

  check_and_record_replay-IsLimited :
      (config : RelayConfig) (now : ℕ) (digest : Str) (n : RelayNode lib)
      → IsLimited config n
      → IsLimited config (check_and_record_replay lib now digest n).0
  unfolding check_and_record_replay
  check_and_record_replay-IsLimited config now digest n v =
      let below : size (pruned lib now n) < cache_cap lib config =
        subst (λ c. size (pruned lib now n) < cache_cap lib c) v.configured (size-pruned now n) in
      elim (Bool-cases (contains_key digest (pruned lib now n))) [
        | inl seen ↦ rw seen (record {
          configured = v.configured;
          circuits = v.circuits;
          digests = omega (arith, below);
        })
        | inr unseen ↦ rw unseen (record {
          configured = v.configured;
          circuits = v.circuits;
          digests = ground (arith, below, size-insert digest now (pruned lib now n));
        })
      ]

  admit_circuit-IsLimited :
      (config : RelayConfig) (now unix : ℕ) (secret : lib.Secret) (id key : Str) (from_peer : Peer)
      (n : RelayNode lib)
      → IsLimited config n
      → IsLimited config (admit_circuit lib now unix secret id key from_peer n).0
  unfolding admit_circuit from_handshake
  admit_circuit-IsLimited config now unix secret id key from_peer n v =
      let states = n.circuit_states in
      let limit = v.configured in
      elim (Bool-cases (leb n.config.max_circuits (size states))) [
        | inl full ↦ rw full v
        | inr room ↦ elim (Bool-cases (contains_key id states)) [
          | inl taken ↦ rw (room, taken) v
          | inr free ↦
              elim (Bool-cases
                (leb n.config.max_circuits_per_peer (count_from lib from_peer states))) [
                  | inl many ↦ rw (room, free, many) v
                  | inr few ↦
                      let s : RelayCircuitState lib =
                        (from_handshake lib now unix secret id key from_peer
                          n.config.circuit_lifetime n.identity).0 in
                      let below : size states < config.max_circuits =
                        subst (λ c. size states < c.max_circuits) limit (ground (arith, room)) in
                      let own : count_from lib from_peer states < config.max_circuits_per_peer =
                        subst (λ c. count_from lib from_peer states < c.max_circuits_per_peer) limit
                          (ground (arith, few)) in
                      rw (room, free, few)
                        (record {
                          configured = v.configured;
                          circuits =
                              insert-Within config id from_peer s states refl free below own
                                v.circuits;
                          digests = v.digests;
                        })
                ]
        ]
      ]

  pub create_circuit-IsLimited :
      (config : RelayConfig) (now unix : ℕ) (secret : lib.Secret) (id : Str) (from_peer : Peer)
      (h : CreateHandshake) (n : RelayNode lib)
      → IsLimited config n
      → IsLimited config (create_circuit lib now unix secret id from_peer h n).0
  unfolding create_circuit
  create_circuit-IsLimited config now unix secret id from_peer h n v =
      elim (Bool-cases (fresh lib unix n h.timestamp)) [
        | inl new ↦ rw new (
            and_then-keeps (IsLimited config)
              (check_and_record_replay lib now (replay_digest lib id h) n)
              (λ m u. admit_circuit lib now unix secret id h.client_public_key from_peer m)
              (check_and_record_replay-IsLimited config now (replay_digest lib id h) n v)
              (λ m u.
                admit_circuit-IsLimited config now unix secret id h.client_public_key from_peer m))
        | inr stale ↦ rw stale v
      ]
