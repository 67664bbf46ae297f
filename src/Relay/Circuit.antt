-- ===== src/Relay/Circuit.antt =====
-- `ZkRelayConfig`, `CircuitHop` and `Circuit` of protocol/src/zk_relay.rs. Secrets and identifiers are
-- drawn at random and are arguments; times are in nanoseconds.
use shadowmesh.Base.{
  ℕ, zero, suc, ◌-◌, Bool, true, false, Option, none, some, List, [], ◌∷◌, ◌++◌, ltb, Str, str_eq,
  length, take, map, all,
}
use shadowmesh.Base.Map.{is_some}
use shadowmesh.Base.Results.{Result, ok, err}
use shadowmesh.Relay.Types.{Libraries, CreateHandshake, RelayError, invalid_hop, to_le_bytes}
use shadowmesh.Relay.Handshake.{derive_symmetric_key, new_handshake}

pub record RelayConfig : Type 0 where
  pub default_hops : ℕ
  pub circuit_lifetime : ℕ
  pub max_circuits : ℕ
  pub max_circuits_per_peer : ℕ
  pub max_cell_age : ℕ
  pub padding_enabled : Bool
  pub padding_interval : ℕ
  pub cell_timeout : ℕ

abbrev pub default_config : RelayConfig
default_config = record {
  default_hops = 3;
  circuit_lifetime = 600_000_000_000;
  max_circuits = 10_000;
  max_circuits_per_peer = 256;
  max_cell_age = 300_000_000_000;
  padding_enabled = true;
  padding_interval = 100_000_000;
  cell_timeout = 30_000_000_000;
}

module _ {Peer : Type 0} (lib : Libraries Peer) where
  pub record CircuitHop : Type 0 where
    pub peer_id : Peer
    pub ephemeral : lib.Secret
    pub relay_public_key : Option Str
    pub symmetric_key : Option Str
    pub hop_id : Str

  pub record Circuit : Type 0 where
    pub id : Str
    pub hops : List CircuitHop
    pub created_at : ℕ
    pub lifetime : ℕ
    pub ready : Bool

  -- A hop and its index, if there is one there.
  abbrev pub hop_at : ℕ → List CircuitHop → Option CircuitHop
  hop_at i [] = none
  hop_at zero (h ∷ hs) = some h
  hop_at (suc i) (h ∷ hs) = hop_at i hs

  abbrev pub change_hop : ℕ → (CircuitHop → CircuitHop) → List CircuitHop → List CircuitHop
  change_hop i f [] = []
  change_hop zero f (h ∷ hs) = f h ∷ hs
  change_hop (suc i) f (h ∷ hs) = h ∷ change_hop i f hs

  -- `blake3` over the circuit and the index of the hop.
  unfoldable pub generate_hop_id : Str → ℕ → Str
  generate_hop_id circuit_id hop_index = take 16 (lib.blake3 (circuit_id ++ to_le_bytes hop_index))

  abbrev pub new_circuit : ℕ → Str → ℕ → Circuit
  new_circuit now id lifetime = record {
    id = id;
    hops = [];
    created_at = now;
    lifetime = lifetime;
    ready = false;
  }

  abbrev pub is_expired : ℕ → Circuit → Bool
  is_expired now c = ltb c.lifetime (now - c.created_at)

  abbrev pub fresh_hop : Str → ℕ → lib.Secret → Peer → CircuitHop
  fresh_hop id index secret peer = record {
    peer_id = peer;
    ephemeral = secret;
    relay_public_key = none;
    symmetric_key = none;
    hop_id = generate_hop_id id index;
  }

  unfoldable pub add_hop : lib.Secret → Peer → Circuit → Circuit
  add_hop secret peer c = record c {
    hops = c.hops ++ fresh_hop c.id (length c.hops) secret peer ∷ [];
  }

  -- The loop over the peers, each with a secret drawn for it.
  unfoldable pub add_hops : List (lib.Secret × Peer) → Circuit → Circuit
  add_hops [] c = c
  add_hops ((secret, peer) ∷ ps) c = add_hops ps (add_hop secret peer c)

  abbrev pub keyed : Str → Str → CircuitHop → CircuitHop
  keyed relay_public key h = record h {
    relay_public_key = some relay_public;
    symmetric_key = some key;
  }

  unfoldable pub complete_hop_handshake : ℕ → Str → Str → Circuit → Circuit × Result RelayError Str
  complete_hop_handshake hop_index relay_public context c = elim (hop_at hop_index c.hops) [
    | none ↦ (c, err invalid_hop)
    | some h ↦
        let key = derive_symmetric_key lib h.ephemeral relay_public context in
        (record c { hops = change_hop hop_index (keyed relay_public key) c.hops }, ok key)
  ]

  abbrev pub collect : List (Option Str) → Option (List Str)
  collect [] = some []
  collect (none ∷ ks) = none
  collect (some k ∷ ks) = elim (collect ks) [ none ↦ none | some rest ↦ some (k ∷ rest) ]

  abbrev pub keys : Circuit → Option (List Str)
  keys c = collect (map (λ h. h.symmetric_key) c.hops)

  abbrev pub is_handshake_complete : Circuit → Bool
  is_handshake_complete c = all (λ h. is_some h.symmetric_key) c.hops

  unfoldable pub get_create_handshake : ℕ → Str → ℕ → Circuit → Option CreateHandshake
  get_create_handshake unix pad hop_index c = elim (hop_at hop_index c.hops) [
    | none ↦ none
    | some h ↦ some (new_handshake lib unix pad (lib.public_key h.ephemeral) c.id)
  ]
