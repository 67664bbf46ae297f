-- ===== src/Storage/Exact.antt =====
-- When the counter is exact, and by how much storing a hash again makes it wrong.
use shadowmesh.Base.{ℕ, ◌+◌, ◌≤◌, ◌<◌, ◌≡◌, some, arith, Str, length, str_eq}
use shadowmesh.Base.Map
use shadowmesh.Base.Map.{
  Map, Distinct, total, get-insert_self, total-insert, total-remove, measure, size, size-insert,
  size-remove,
}
use shadowmesh.Storage.Types.{u64_mod, StorageManager, Disk, ok, Outcome}
use shadowmesh.Storage.Ops.{
  fragment_size, add_fragment, fresh_fragment, store_fragment, drop_fragment, delete_fragment,
}

-- How far the counter is above the bytes that are stored.
abbrev pub Surplus : ℕ → StorageManager → Type 0
Surplus n m = m.current_usage ≡ total fragment_size m.fragments + n

module _ (disk : Disk) (now : ℕ) (m : StorageManager) (hash cid : Str) (index : ℕ)
    (content : Str) where
  abbrev stored : StorageManager × Outcome (Unit {0})
  stored = store_fragment disk now m hash cid index content

  stored_ok :
      m.current_usage + length content < u64_mod
      → stored.1 ≡ ok tt
      → (stored.0 ≡ add_fragment m (fresh_fragment now hash cid index (length content)))
        × (m.current_usage + length content ≤ m.max_capacity)
  unfolding store_fragment
  stored_ok small h = ground arith

  -- A fragment that is stored is found under its hash, and the counter drifts by the size of what
  -- was stored under that hash before: by nothing when the hash is new.
  pub store_fragment-Surplus :
      (n : ℕ)
      → m.current_usage + length content < u64_mod
      → Surplus n m
      → stored.1 ≡ ok tt
      → (Map.get hash stored.0.fragments
          ≡ some (fresh_fragment now hash cid index (length content)))
        × Surplus (n + measure fragment_size (Map.get hash m.fragments)) stored.0
  unfolding add_fragment
  store_fragment-Surplus n small v h =
      let (e, fits) = stored_ok small h in
      let f = fresh_fragment now hash cid index (length content) in
      rw e (
        get-insert_self hash f m.fragments,
        omega (arith, total-insert fragment_size hash f m.fragments),
      )

-- Deleting a fragment never works a drift off: the counter stays as far above the stored bytes.
pub delete_fragment-Surplus :
    (disk : Disk) (m : StorageManager) (hash : Str) (n : ℕ)
    → Distinct m.fragments
    → Surplus n m
    → Surplus n (delete_fragment disk m hash).0
unfolding delete_fragment drop_fragment
delete_fragment-Surplus disk m hash n d v =
    ground (arith, total-remove fragment_size hash m.fragments d)
