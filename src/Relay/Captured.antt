-- ===== src/Relay/Captured.antt =====
-- A CREATE cell that a relay has answered is not answered again.
use shadowmesh.Base.{
  ℕ, ◌+◌, ◌-◌, ◌≤◌, ◌<◌, ◌≡◌, refl, sym, subst, some, List, [], ◌∷◌, arith, Str, str_eq, Eq,
  Bool-cases, inl, inr, ◌⊎◌, All,
}
use shadowmesh.Base.Map
use shadowmesh.Base.Map.{
  Map, Distinct, contains_key, get-insert, get-insert_self, get-retain, size, size-retain-le,
  retain-Distinct, insert-Distinct, size-insert,
}
use shadowmesh.Base.Results.{and_then-err, ok, err}
use shadowmesh.Relay.Types.{
  Libraries, CellType, create, created, extend, extended, relay, destroy, padding, RelayCell,
  RelayAction, replayed_cell, stale_cell,
}
use shadowmesh.Relay.Circuit.{RelayConfig}
use shadowmesh.Relay.Node.{
  RelayNode, pruned, cache_cap, check_and_record_replay, create_circuit, handle_create, fresh,
  replay_digest,
}
use shadowmesh.Relay.Cells.{process_in, cleanup_expired, Event, arrives, cleans, step, run}
use shadowmesh.Relay.Replay.{seen_again, handle_create-Answered, pruned-Distinct}
use shadowmesh.Relay.Untouched.{
  IsUntouched, handle_extend-IsUntouched, handle_relay-IsUntouched, handle_destroy-IsUntouched,
}
use shadowmesh.Relay.Retained.{Retains, Retains-le, untouched, handle_create-Retains}

module _ {Peer : Type 0} ⦃e : Eq Peer⦄ (lib : Libraries Peer) where
  -- How many digests an event can add to the cache: a CREATE cell adds one at most.
  abbrev one_if_create : CellType → ℕ
  one_if_create create = 1
  one_if_create created = 0
  one_if_create extend = 0
  one_if_create extended = 0
  one_if_create relay = 0
  one_if_create destroy = 0
  one_if_create padding = 0

  abbrev pub create_cells : List (Event lib) → ℕ
  create_cells [] = 0
  create_cells (arrives now unix secret nonce cell from_peer ∷ xs) =
      one_if_create cell.cell_type + create_cells xs
  create_cells (cleans now ∷ xs) = create_cells xs

  -- The clock of an event.
  abbrev pub clock : Event lib → ℕ
  clock (arrives now unix secret nonce cell from_peer) = now
  clock (cleans now) = now

  -- The events that add no digest.
  idle :
      (since : ℕ) (digest : Str) (config : RelayConfig) (most : ℕ) (n m : RelayNode lib)
      → IsUntouched lib n m
      → Retains lib since digest config most n
      → Retains lib since digest config (most + 0) m
  idle since digest config most n m same v =
      Retains-le lib since digest config most (most + 0) m (omega arith)
        (untouched lib since digest config most n m same v)

  process_in-Retains :
      (t : CellType) (since now unix : ℕ) (secret : lib.Secret) (nonce digest : Str)
      (config : RelayConfig) (most : ℕ) (cell : RelayCell) (from_peer : Peer) (n : RelayNode lib)
      → now - since ≤ config.max_cell_age
      → most + one_if_create t ≤ cache_cap lib config
      → Retains lib since digest config most n
      → Retains lib since digest config
          (most + one_if_create t)
          (process_in lib t now unix secret nonce cell from_peer n).0
  unfolding process_in
  process_in-Retains create since now unix secret nonce digest config most cell from_peer n recent
        room v =
      handle_create-Retains lib since now unix secret digest config most cell from_peer n recent
        (omega (arith, room)) v
  process_in-Retains extend since now unix secret nonce digest config most cell from_peer n recent
        room v =
      idle since digest config most n _ (handle_extend-IsUntouched lib now unix cell from_peer n) v
  process_in-Retains relay since now unix secret nonce digest config most cell from_peer n recent
        room v =
      idle since digest config most n _
        (handle_relay-IsUntouched lib now unix nonce cell from_peer n) v
  process_in-Retains destroy since now unix secret nonce digest config most cell from_peer n recent
        room v =
      idle since digest config most n _ (handle_destroy-IsUntouched lib unix cell n) v
  process_in-Retains padding since now unix secret nonce digest config most cell from_peer n recent
        room v =
      idle since digest config most n _ (refl, refl) v
  process_in-Retains created since now unix secret nonce digest config most cell from_peer n recent
        room v =
      idle since digest config most n _ (refl, refl) v
  process_in-Retains extended since now unix secret nonce digest config most cell from_peer n recent
        room v =
      idle since digest config most n _ (refl, refl) v

  run-Retains :
      (since : ℕ) (digest : Str) (config : RelayConfig) (most : ℕ) (xs : List (Event lib))
      (n : RelayNode lib)
      → All (λ x. clock x - since ≤ config.max_cell_age) xs
      → most + create_cells xs ≤ cache_cap lib config
      → Retains lib since digest config most n
      → Retains lib since digest config (most + create_cells xs) (run lib n xs)
  unfolding run step cleanup_expired
  run-Retains since digest config most [] n recent room v =
      Retains-le lib since digest config most (most + 0) n (omega arith) v
  run-Retains since digest config most (cleans now ∷ xs) n recent room v =
      run-Retains since digest config most xs (step lib n (cleans now)) recent.1 room
        (untouched lib since digest config most n (step lib n (cleans now)) (refl, refl) v)
  run-Retains since digest config most (arrives now unix secret nonce cell from_peer ∷ xs) n recent
        room v =
      let one = one_if_create cell.cell_type in
      let m = step lib n (arrives now unix secret nonce cell from_peer) in
      let after =
        process_in-Retains cell.cell_type since now unix secret nonce digest config most cell
          from_peer n recent.0 (omega (arith, room)) v in
      let later =
        run-Retains since digest config (most + one) xs m recent.1 (omega (arith, room)) after in
      Retains-le lib since digest config (most + one + create_cells xs)
        (most + (one + create_cells xs))
        (run lib n (arrives now unix secret nonce cell from_peer ∷ xs)) (omega arith) later

  -- A captured CREATE cell is of no use: once the relay has answered it, the same cell gets no second
  -- answer, whoever sends it, whatever the relay's clock of the day shows and whatever cells and ticks
  -- came in between: it is refused as stale or as replayed. All that comes up to then is within
  -- `max_cell_age` of the answer by the relay's running clock, and the CREATE cells in between are so
  -- few that with them the replay cache stays below the size at which it is cleared; the relay had
  -- no digest twice in it.
  pub handle_create-again :
      (now unix now' unix' : ℕ) (secret secret' : lib.Secret) (cell : RelayCell)
      (from_peer from_peer' : Peer) (n m : RelayNode lib) (a : RelayAction Peer)
      (xs : List (Event lib))
      → Distinct n.replay_cache
      → handle_create lib now unix secret cell from_peer n ≡ (m, ok a)
      → All (λ x. clock x - now ≤ m.config.max_cell_age) xs
      → now' - now ≤ m.config.max_cell_age
      → size m.replay_cache + create_cells xs < cache_cap lib m.config
      → ((handle_create lib now' unix' secret' cell from_peer' (run lib m xs)).1 ≡ err stale_cell)
        ⊎ ((handle_create lib now' unix' secret' cell from_peer' (run lib m xs)).1
            ≡ err replayed_cell)
  unfolding handle_create create_circuit
  handle_create-again now unix now' unix' secret secret' cell from_peer from_peer' n m a xs distinct
        done between recent room =
      let w = handle_create-Answered lib now unix secret cell from_peer n m a done in
      let digest = replay_digest lib cell.circuit_id w.handshake in
      let q = run lib m xs in
      let v : Retains lib now digest m.config (size m.replay_cache + create_cells xs) q =
        run-Retains now digest m.config (size m.replay_cache) xs m between (omega (arith, room))
          (record {
            there =
                subst (λ c. Map.get digest c ≡ some now) (sym w.recorded)
                  (get-insert_self digest now (pruned lib now n));
            distinct = subst Distinct (sym w.recorded) (
                insert-Distinct digest now (pruned lib now n) (pruned-Distinct lib now n distinct));
            configured = refl;
            few = omega arith;
          }) in
      let seen : (check_and_record_replay lib now' digest q).1 ≡ err replayed_cell =
        seen_again lib now now' digest q v.distinct v.there
          (subst (λ c. now' - now ≤ c.max_cell_age) (sym v.configured) recent)
          (subst (λ c. size q.replay_cache < cache_cap lib c) (sym v.configured)
            (omega (arith, v.few, room))) in
      elim (Bool-cases (fresh lib unix' q cell.timestamp)) [
        | inr stale ↦ inl (rw stale refl)
        | inl new ↦ elim (Bool-cases (fresh lib unix' q w.handshake.timestamp)) [
          | inr stale ↦ inl (rw (new, w.reads, stale) refl)
          | inl new' ↦ inr (
              rw (new, w.reads, new')
                (and_then-err (check_and_record_replay lib now' digest q) _ replayed_cell seen))
        ]
      ]
