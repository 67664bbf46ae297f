-- ===== src/Relay/Retained.antt =====
-- The digest of an answered CREATE cell stays in the relay's replay cache, whatever comes meanwhile.
use shadowmesh.Base.{
  ℕ, ◌+◌, ◌-◌, ◌≤◌, ◌<◌, ◌≡◌, refl, sym, ◌∙◌, subst, Bool, true, false, some, arith, Str, str_eq,
  Eq, ◌==◌, Bool-cases, Option-cases, inl, inr, leb,
}
use shadowmesh.Base.Map
use shadowmesh.Base.Map.{
  Map, Distinct, contains_key, get-insert, get-insert_self, get-retain, size, size-retain-le,
  retain-Distinct, insert-Distinct, size-insert,
}
use shadowmesh.Base.Results.{and_then-keeps}
use shadowmesh.Relay.Types.{Libraries, CreateHandshake, RelayCell}
use shadowmesh.Relay.Circuit.{RelayConfig}
use shadowmesh.Relay.Node.{
  RelayNode, pruned, cache_cap, check_and_record_replay, admit_circuit, create_circuit,
  handle_create, fresh, replay_digest,
}
use shadowmesh.Relay.Replay.{admitted_cache, pruned-Distinct}
use shadowmesh.Relay.Untouched.{IsUntouched}

module _ {Peer : Type 0} ⦃e : Eq Peer⦄ (lib : Libraries Peer) where
  -- The digest is in the cache since a time, the cache has no more than so many, and none twice.
  pub record Retains (since : ℕ) (digest : Str) (config : RelayConfig) (most : ℕ)
      (n : RelayNode lib) : Type 0 where
    pub there : Map.get digest n.replay_cache ≡ some since
    pub distinct : Distinct n.replay_cache
    pub configured : n.config ≡ config
    pub few : size n.replay_cache ≤ most

  pub Retains-le :
      (since : ℕ) (digest : Str) (config : RelayConfig) (most most' : ℕ) (n : RelayNode lib)
      → most ≤ most'
      → Retains since digest config most n
      → Retains since digest config most' n
  Retains-le since digest config most most' n le v = record {
    there = v.there;
    distinct = v.distinct;
    configured = v.configured;
    few = omega (arith, v.few, le);
  }

  pub untouched :
      (since : ℕ) (digest : Str) (config : RelayConfig) (most : ℕ) (n m : RelayNode lib)
      → IsUntouched lib n m
      → Retains since digest config most n
      → Retains since digest config most m
  untouched since digest config most n m (cache, same) v = record {
    there = rw cache v.there;
    distinct = subst Distinct (sym cache) v.distinct;
    configured = same ∙ v.configured;
    few = rw cache v.few;
  }

  -- What is recent enough stays when the cache is pruned, which is not cut then.
  pruned-Retains :
      (since now : ℕ) (digest : Str) (config : RelayConfig) (most : ℕ) (n : RelayNode lib)
      → now - since ≤ config.max_cell_age
      → most < cache_cap lib config
      → Retains since digest config most n
      → (Map.get digest (pruned lib now n) ≡ some since) × (size (pruned lib now n) ≤ most)
  unfolding pruned
  pruned-Retains since now digest config most n recent room v =
      let keep : ℕ → Bool = λ seen. leb (now - seen) n.config.max_cell_age in
      let new : leb (now - since) n.config.max_cell_age ≡ true =
        subst (λ c. leb (now - since) c.max_cell_age ≡ true) (sym v.configured)
          (ground (arith, recent)) in
      let few : size (Map.retain keep n.replay_cache) ≤ most =
        omega (arith, size-retain-le keep n.replay_cache, v.few) in
      let wide : most < cache_cap lib n.config =
        subst (λ c. most < cache_cap lib c) (sym v.configured) room in
      let below : leb (cache_cap lib n.config) (size (Map.retain keep n.replay_cache)) ≡ false =
        ground (arith, few, wide) in
      rw below (get-retain keep digest n.replay_cache v.distinct ∙ rw (v.there, new) refl, few)

  check_and_record_replay-Retains :
      (since now : ℕ) (digest other : Str) (config : RelayConfig) (most : ℕ) (n : RelayNode lib)
      → now - since ≤ config.max_cell_age
      → most < cache_cap lib config
      → Retains since digest config most n
      → Retains since digest config (most + 1) (check_and_record_replay lib now other n).0
  unfolding check_and_record_replay
  check_and_record_replay-Retains since now digest other config most n recent room v =
      let (stays, few) = pruned-Retains since now digest config most n recent room v in
      let once = pruned-Distinct lib now n v.distinct in
      elim (Bool-cases (contains_key other (pruned lib now n))) [
        | inl seen ↦ rw seen (record {
          there = stays;
          distinct = once;
          configured = v.configured;
          few = omega (arith, few);
        })
        | inr unseen ↦ rw unseen (record {
          there = elim (Bool-cases (other == digest)) [
            | inl same ↦ absurd (
                ground (
                  arith,
                  subst (λ k. contains_key k (pruned lib now n) ≡ false)
                      ((str_eq.same_iff other digest).0 same) unseen,
                  stays,
                ))
            | inr apart ↦ get-insert other digest now (pruned lib now n) ∙ rw apart stays
          ];
          distinct = insert-Distinct other now (pruned lib now n) once;
          configured = v.configured;
          few = ground (arith, few, size-insert other now (pruned lib now n));
        })
      ]

  create_circuit-Retains :
      (since now unix : ℕ) (secret : lib.Secret) (digest id : Str) (config : RelayConfig) (most : ℕ)
      (from_peer : Peer) (h : CreateHandshake) (n : RelayNode lib)
      → now - since ≤ config.max_cell_age
      → most < cache_cap lib config
      → Retains since digest config most n
      → Retains since digest config
          (most + 1)
          (create_circuit lib now unix secret id from_peer h n).0
  unfolding create_circuit
  create_circuit-Retains since now unix secret digest id config most from_peer h n recent room v =
      elim (Bool-cases (fresh lib unix n h.timestamp)) [
        | inr stale ↦ rw stale (Retains-le since digest config most (most + 1) n (omega arith) v)
        | inl new ↦ rw new (
            and_then-keeps (Retains since digest config (most + 1))
              (check_and_record_replay lib now (replay_digest lib id h) n)
              (λ m u. admit_circuit lib now unix secret id h.client_public_key from_peer m)
              (check_and_record_replay-Retains since now digest (replay_digest lib id h) config most
                n recent room v)
              (λ m u.
                untouched since digest config (most + 1) m
                  (admit_circuit lib now unix secret id h.client_public_key from_peer m).0
                  (admitted_cache lib now unix secret id h.client_public_key from_peer m)))
      ]

  pub handle_create-Retains :
      (since now unix : ℕ) (secret : lib.Secret) (digest : Str) (config : RelayConfig) (most : ℕ)
      (cell : RelayCell) (from_peer : Peer) (n : RelayNode lib)
      → now - since ≤ config.max_cell_age
      → most < cache_cap lib config
      → Retains since digest config most n
      → Retains since digest config
          (most + 1)
          (handle_create lib now unix secret cell from_peer n).0
  unfolding handle_create
  handle_create-Retains since now unix secret digest config most cell from_peer n recent room v =
      let same = Retains-le since digest config most (most + 1) n (omega arith) v in
      elim (Bool-cases (fresh lib unix n cell.timestamp)) [
        | inr stale ↦ rw stale same
        | inl new ↦ elim (Option-cases (lib.create_codec.deserialize cell.payload)) [
          | inl unread ↦ rw (new, unread) same
          | inr (h, read) ↦
              rw (new, read)
                (create_circuit-Retains since now unix secret digest cell.circuit_id config most
                  from_peer h n recent room v)
        ]
      ]
