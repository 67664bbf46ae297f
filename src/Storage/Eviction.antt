-- ===== src/Storage/Eviction.antt =====
-- The contents that garbage collection may remove, in its order.
use mathlib.Core.List.{Perm}
use shadowmesh.Base.{not, str_eq, filter}
use shadowmesh.Base.Sort.{IsSorted, sort_by-IsSorted, sort_by-perm}
use shadowmesh.Storage.Types.{StorageManager}
use shadowmesh.Storage.Ops.{list_content}
use shadowmesh.Storage.Collect.{last_access, candidates}

-- The loop goes through exactly the unpinned contents, the longest unused first: each has its last
-- access at or before that of every later one.
pub candidates_order :
    (m : StorageManager)
    → Perm (candidates m) (filter (λ c. not c.pinned) (list_content m))
      × IsSorted (last_access m.fragments) (candidates m)
unfolding candidates
candidates_order m =
    let unpinned = filter (λ c. not c.pinned) (list_content m) in
    (
      sort_by-perm (last_access m.fragments) unpinned,
      sort_by-IsSorted (last_access m.fragments) unpinned,
    )
