-- ===== src/Storage/Collect.antt =====
-- `garbage_collect`: the least recently used unpinned contents go first.
use shadowmesh.Base.{
  ℕ, ◌+◌, ◌-◌, ◌%◌, not, Option, none, some, List, [], ◌∷◌, leb, Str, if◌then◌else◌, length, filter,
  min_ℕ, str_eq,
}
use shadowmesh.Base.Map
use shadowmesh.Base.Map.{Map}
use shadowmesh.Base.Sort.{sort_by}
use shadowmesh.Storage.Types.{
  u64_mod, StoredFragment, StoredContent, StorageManager, Outcome, ok, err, panics, Disk,
}
use shadowmesh.Storage.Ops.{delete, list_content}

pub record GcResult : Type 0 where
  pub freed_bytes : ℕ
  pub removed_fragments : ℕ
  pub removed_content : ℕ

abbrev pub smaller : Option ℕ → Option ℕ → Option ℕ
smaller none b = b
smaller (some a) none = some a
smaller (some a) (some b) = some (min_ℕ a b)

abbrev accessed : Option StoredFragment → Option ℕ
accessed none = none
accessed (some f) = some f.last_accessed

-- The least access time among the fragments that are there.
unfoldable pub min_accessed : Map Str StoredFragment → List Str → Option ℕ
min_accessed frags [] = none
min_accessed frags (h ∷ hs) = smaller (accessed (Map.get h frags)) (min_accessed frags hs)

abbrev or_zero : Option ℕ → ℕ
or_zero none = 0
or_zero (some t) = t

unfoldable pub last_access : Map Str StoredFragment → StoredContent → ℕ
last_access frags c = or_zero (min_accessed frags c.fragments)

-- `content.values().filter(|c| !c.pinned)`, sorted.
unfoldable pub candidates : StorageManager → List StoredContent
unfolding list_content sort_by
candidates m = sort_by (last_access m.fragments) (filter (λ c. not c.pinned) (list_content m))

abbrev pub nothing_freed : GcResult
nothing_freed = record { freed_bytes = 0; removed_fragments = 0; removed_content = 0 }

abbrev pub credit : StoredContent → GcResult → GcResult
credit c r = record {
  freed_bytes = (r.freed_bytes + c.total_size) % u64_mod;
  removed_fragments = (r.removed_fragments + length c.fragments) % u64_mod;
  removed_content = (r.removed_content + 1) % u64_mod;
}

-- One round of the loop: a failed `delete` is passed over, and a panic ends the call.
unfoldable pub collect_next :
    (StorageManager → GcResult → StorageManager × Outcome GcResult)
    → StoredContent
    → GcResult
    → StorageManager × Outcome (Unit {0})
    → StorageManager × Outcome GcResult
collect_next rest c r (m, ok u) = rest m (credit c r)
collect_next rest c r (m, err e) = rest m r
collect_next rest c r (m, panics) = (m, panics)

unfoldable pub collect :
    Disk → ℕ → List StoredContent → StorageManager → GcResult → StorageManager × Outcome GcResult
unfolding collect_next
collect disk bytes_to_free [] m r = (m, ok r)
collect disk bytes_to_free (c ∷ cs) m r =
    let rest = collect_next (collect disk bytes_to_free cs) c r (delete disk m c.cid) in
    if leb bytes_to_free r.freed_bytes then (m, ok r) else rest

unfoldable pub stamp_gc : ℕ → StorageManager × Outcome GcResult → StorageManager × Outcome GcResult
stamp_gc now (m, ok r) =
    let s = m.stats in (record m { stats = record s { last_gc = some now } }, ok r)
stamp_gc now (m, err e) = (m, err e)
stamp_gc now (m, panics) = (m, panics)

unfoldable pub garbage_collect : Disk → ℕ → StorageManager → ℕ → StorageManager × Outcome GcResult
unfolding stamp_gc
garbage_collect disk now m target_free_bytes =
    let available = m.max_capacity - m.current_usage in
    let collected =
      stamp_gc now (collect disk (target_free_bytes - available) (candidates m) m nothing_freed) in
    if leb target_free_bytes available then (m, ok nothing_freed) else collected
