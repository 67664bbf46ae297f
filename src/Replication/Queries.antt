-- ===== src/Replication/Queries.antt =====
-- The methods of `ReplicationManager` that only read it, and the tasks that it asks for.
use shadowmesh.Base.{
  ℕ, zero, suc, ◌-◌, Bool, false, not, Option, none, some, List, [], ◌∷◌, ◌++◌, leb, ltb, Str,
  str_eq, Eq, if◌then◌else◌, length, filter, take, map,
}
use shadowmesh.Base.Map
use shadowmesh.Base.Map.{Map, size}
use shadowmesh.Base.Set
use shadowmesh.Base.Sort.{sort_by}
use shadowmesh.Replication.Types.{
  FragmentLocation, ReplicationHealth, ReplicationManager, ReplicationPriority, ReplicationStatus,
  ReplicationTask, critical, high, normal, rank,
}

abbrev pub unhealthy : Option ReplicationStatus → Bool
unhealthy none = false
unhealthy (some s) = not s.healthy

abbrev pub priority_of : ℕ → ReplicationPriority
priority_of zero = critical
priority_of (suc zero) = high
priority_of (suc (suc n)) = normal

module _ {Peer : Type 0} ⦃e : Eq Peer⦄ where
  abbrev pub get_status : Str → ReplicationManager Peer → Option ReplicationStatus
  get_status cid m = Map.get cid m.replication_status

  abbrev pub statuses : ReplicationManager Peer → List ReplicationStatus
  statuses m = map (λ x. x.1) m.replication_status

  unfoldable pub get_under_replicated : ReplicationManager Peer → List ReplicationStatus
  get_under_replicated m = filter (λ s. not s.healthy) (statuses m)

  unfoldable pub needs_replication : Str → ReplicationManager Peer → Bool
  needs_replication cid m = unhealthy (Map.get cid m.replication_status)

  abbrev pub short : ℕ → Option (List (FragmentLocation Peer)) → List (FragmentLocation Peer)
  short factor none = []
  short factor (some fragments) = filter (λ f. ltb (length f.holders) factor) fragments

  unfoldable pub get_fragments_needing_replication :
      Str → ReplicationManager Peer → List (FragmentLocation Peer)
  get_fragments_needing_replication cid m =
      short m.replication_factor (Map.get cid m.content_fragments)

  abbrev pub task_of : ℕ → Str → FragmentLocation Peer → Peer → ReplicationTask Peer
  task_of now cid f peer = record {
    cid = cid;
    fragment_hash = some f.fragment_hash;
    target_peer = peer;
    priority = priority_of (length f.holders);
    created_at = now;
    attempts = 0;
  }

  abbrev pub needed : ℕ → FragmentLocation Peer → ℕ
  needed factor f = factor - length f.holders

  unfoldable pub candidates : ℕ → List Peer → FragmentLocation Peer → List Peer
  candidates factor available_peers f =
      take (needed factor f) (filter (λ p. not (Set.contains p f.holders)) available_peers)

  unfoldable pub fragment_tasks :
      ℕ → ℕ → List Peer → Str → List (FragmentLocation Peer) → List (ReplicationTask Peer)
  fragment_tasks now factor available_peers cid [] = []
  fragment_tasks now factor available_peers cid (f ∷ fs) =
      let rest = fragment_tasks now factor available_peers cid fs in
      if leb (needed factor f) 0
      then rest
      else map (task_of now cid f) (candidates factor available_peers f) ++ rest

  unfoldable pub content_tasks :
      ℕ → ℕ → List Peer → Map Str (List (FragmentLocation Peer)) → List (ReplicationTask Peer)
  content_tasks now factor available_peers [] = []
  content_tasks now factor available_peers ((cid, fragments) ∷ contents) =
      fragment_tasks now factor available_peers cid fragments
      ++ content_tasks now factor available_peers contents

  abbrev pub urgency : ReplicationTask Peer → ℕ
  urgency t = 3 - rank t.priority

  unfoldable pub create_replication_tasks :
      ℕ → List Peer → ReplicationManager Peer → List (ReplicationTask Peer)
  create_replication_tasks now available_peers m =
      sort_by urgency (content_tasks now m.replication_factor available_peers m.content_fragments)

  abbrev pub is_pinned : Str → ReplicationManager Peer → Bool
  is_pinned cid m = Set.contains cid m.pinned_content

  unfoldable pub get_health_summary : ReplicationManager Peer → ReplicationHealth
  get_health_summary m =
      let total = size m.replication_status in
      let healthy = length (filter (λ s. s.healthy) (statuses m)) in
      record {
        total_content = total;
        healthy_content = healthy;
        under_replicated_content = total - healthy;
        critical_content = length (filter (λ s. leb s.replica_count 0) (statuses m));
        replication_factor = m.replication_factor;
        pinned_content = length m.pinned_content;
      }
