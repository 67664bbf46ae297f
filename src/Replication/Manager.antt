-- ===== src/Replication/Manager.antt =====
-- The methods of `ReplicationManager` that change it.
use shadowmesh.Base.{
  ℕ, false, Option, none, some, List, [], ◌∷◌, leb, Str, str_eq, Eq, ◌==◌, if◌then◌else◌, length,
  map, min_ℕ,
}
use shadowmesh.Base.Map
use shadowmesh.Base.Map.{Map, size}
use shadowmesh.Base.Set
use shadowmesh.Fragments.{ContentManifest}
use shadowmesh.Replication.Types.{
  Call, FragmentLocation, ReplicationManager, ReplicationStatus, adds, clamp_factor,
  default_replication_factor, pins, registers, removes, sets, unpins,
}

module _ {Peer : Type 0} ⦃e : Eq Peer⦄ where
  abbrev pub with_factor : ℕ → ReplicationManager Peer
  with_factor factor = record {
    replication_factor = clamp_factor factor;
    content_fragments = [];
    replication_status = [];
    pending_tasks = [];
    pinned_content = [];
  }

  abbrev pub new : ReplicationManager Peer
  new = with_factor default_replication_factor

  abbrev pub set_replication_factor : ℕ → ReplicationManager Peer → ReplicationManager Peer
  set_replication_factor factor m = record m { replication_factor = clamp_factor factor }

  abbrev pub fresh_location : ℕ → Str → FragmentLocation Peer
  fresh_location now hash = record { fragment_hash = hash; holders = []; last_verified = now }

  unfoldable pub register_content :
      ℕ → ℕ → Str → ContentManifest → ReplicationManager Peer → ReplicationManager Peer
  register_content now unix cid manifest m = record m {
    content_fragments =
        Map.insert cid (map (fresh_location now) manifest.fragments) m.content_fragments;
    replication_status =
        Map.insert cid
          (record {
            cid = cid;
            replica_count = 0;
            target_replicas = m.replication_factor;
            replica_holders = [];
            healthy = false;
            last_checked = unix;
          })
          m.replication_status;
  }

  -- The loop that stops at the first fragment of that hash.
  unfoldable pub change_first :
      (FragmentLocation Peer → FragmentLocation Peer)
      → Str
      → List (FragmentLocation Peer)
      → List (FragmentLocation Peer)
  change_first change hash [] = []
  change_first change hash (f ∷ fs) =
      let rest = change_first change hash fs in
      if f.fragment_hash == hash then change f ∷ fs else f ∷ rest

  abbrev pub add_holder : ℕ → Peer → FragmentLocation Peer → FragmentLocation Peer
  add_holder now peer f = record f { holders = Set.insert peer f.holders; last_verified = now }

  abbrev pub remove_holder : Peer → FragmentLocation Peer → FragmentLocation Peer
  remove_holder peer f = record f { holders = Set.remove peer f.holders }

  -- `iter().map(|f| f.holders.len()).min().unwrap_or(0)`
  abbrev pub min_replicas : List (FragmentLocation Peer) → ℕ
  min_replicas [] = 0
  min_replicas (f ∷ []) = length f.holders
  min_replicas (f ∷ g ∷ fs) = min_ℕ (length f.holders) (min_replicas (g ∷ fs))

  unfoldable pub extend : List Peer → List Peer → List Peer
  extend all [] = all
  extend all (p ∷ ps) = Set.insert p (extend all ps)

  unfoldable pub all_holders : List (FragmentLocation Peer) → List Peer
  all_holders [] = []
  all_holders (f ∷ fs) = extend (all_holders fs) f.holders

  unfoldable pub pin : Str → ReplicationManager Peer → ReplicationManager Peer
  pin cid m = record m { pinned_content = Set.insert cid m.pinned_content }

  unfoldable pub unpin : Str → ReplicationManager Peer → ReplicationManager Peer
  unpin cid m = record m { pinned_content = Set.remove cid m.pinned_content }

module _ {Peer : Type 0} ⦃e : Eq Peer⦄ (peer_text : Peer → Str) where
  abbrev pub checked : ℕ → ℕ → List (FragmentLocation Peer) → ReplicationStatus → ReplicationStatus
  checked unix factor fragments s = record s {
    replica_count = min_replicas fragments;
    replica_holders = map peer_text (all_holders fragments);
    healthy = leb factor (min_replicas fragments);
    last_checked = unix;
  }

  update_with :
      ℕ
      → Str
      → ReplicationManager Peer
      → Option (List (FragmentLocation Peer))
      → ReplicationManager Peer
  update_with unix cid m none = m
  update_with unix cid m (some fragments) = record m {
    replication_status =
        Map.adjust cid (checked unix m.replication_factor fragments) m.replication_status;
  }

  unfoldable pub update_replication_status :
      ℕ → Str → ReplicationManager Peer → ReplicationManager Peer
  unfolding update_with
  update_replication_status unix cid m = update_with unix cid m (Map.get cid m.content_fragments)

  unfoldable pub change_holders :
      ℕ
      → Str
      → Str
      → (FragmentLocation Peer → FragmentLocation Peer)
      → ReplicationManager Peer
      → ReplicationManager Peer
  change_holders unix cid fragment_hash change m =
      if Map.contains_key cid m.content_fragments
      then update_replication_status unix cid (record m {
        content_fragments = Map.adjust cid (change_first change fragment_hash) m.content_fragments;
      })
      else m

  unfoldable pub add_fragment_holder :
      ℕ → ℕ → Str → Str → Peer → ReplicationManager Peer → ReplicationManager Peer
  add_fragment_holder now unix cid fragment_hash peer m =
      change_holders unix cid fragment_hash (add_holder now peer) m

  unfoldable pub remove_fragment_holder :
      ℕ → Str → Str → Peer → ReplicationManager Peer → ReplicationManager Peer
  remove_fragment_holder unix cid fragment_hash peer m =
      change_holders unix cid fragment_hash (remove_holder peer) m

  unfoldable pub step : ReplicationManager Peer → ℕ × ℕ × Call Peer → ReplicationManager Peer
  step m (now, unix, registers cid manifest) = register_content now unix cid manifest m
  step m (now, unix, adds cid hash peer) = add_fragment_holder now unix cid hash peer m
  step m (now, unix, removes cid hash peer) = remove_fragment_holder unix cid hash peer m
  step m (now, unix, sets factor) = set_replication_factor factor m
  step m (now, unix, pins cid) = pin cid m
  step m (now, unix, unpins cid) = unpin cid m

  unfoldable pub run : ReplicationManager Peer → List (ℕ × ℕ × Call Peer) → ReplicationManager Peer
  unfolding step
  run m [] = m
  run m (x ∷ xs) = run (step m x) xs
