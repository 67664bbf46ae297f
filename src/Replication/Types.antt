-- ===== src/Replication/Types.antt =====
-- The data of protocol/src/replication.rs.
use shadowmesh.Base.{ℕ, Bool, Option, List, Str, str_eq, min_ℕ, max_ℕ}
use shadowmesh.Base.Map.{Map}
use shadowmesh.Fragments.{ContentManifest}

abbrev pub default_replication_factor : ℕ
default_replication_factor = 3

abbrev pub min_replication_factor : ℕ
min_replication_factor = 1

abbrev pub max_replication_factor : ℕ
max_replication_factor = 10

pub record ReplicationStatus : Type 0 where
  pub cid : Str
  pub replica_count : ℕ
  pub target_replicas : ℕ
  pub replica_holders : List Str
  pub healthy : Bool
  pub last_checked : ℕ

pub data ReplicationPriority : Type 0 where
  low normal high critical : ReplicationPriority

abbrev pub rank : ReplicationPriority → ℕ
rank low = 0
rank normal = 1
rank high = 2
rank critical = 3

pub record ReplicationHealth : Type 0 where
  pub total_content : ℕ
  pub healthy_content : ℕ
  pub under_replicated_content : ℕ
  pub critical_content : ℕ
  pub replication_factor : ℕ
  pub pinned_content : ℕ

-- `factor.clamp(MIN_REPLICATION_FACTOR, MAX_REPLICATION_FACTOR)`
abbrev pub clamp_factor : ℕ → ℕ
clamp_factor factor = min_ℕ (max_ℕ factor min_replication_factor) max_replication_factor

module _ (Peer : Type 0) where
  pub record FragmentLocation : Type 0 where
    pub fragment_hash : Str
    pub holders : List Peer
    pub last_verified : ℕ

  pub record ReplicationTask : Type 0 where
    pub cid : Str
    pub fragment_hash : Option Str
    pub target_peer : Peer
    pub priority : ReplicationPriority
    pub created_at : ℕ
    pub attempts : ℕ

  pub record ReplicationManager : Type 0 where
    pub replication_factor : ℕ
    pub content_fragments : Map Str (List FragmentLocation)
    pub replication_status : Map Str ReplicationStatus
    pub pending_tasks : List ReplicationTask
    pub pinned_content : List Str

  pub data Call : Type 0 where
    registers : Str → ContentManifest → Call
    adds removes : Str → Str → Peer → Call
    sets : ℕ → Call
    pins unpins : Str → Call
