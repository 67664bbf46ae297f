-- ===== src/Storage/Accounting.antt =====
-- The counter of used bytes against the fragments that are stored, over every method.
use shadowmesh.Base.{
  ℕ, ◌+◌, ◌-◌, ◌≤◌, ◌<◌, ◌≡◌, refl, Bool, true, false, List, [], ◌∷◌, arith, Str, length, str_eq,
  Option-cases, inl, inr, ◌∙◌,
}
use shadowmesh.Base.Map
use shadowmesh.Base.Map.{
  Map, Distinct, total, total-insert, total-remove, total-adjust, insert-Distinct, remove-Distinct,
  adjust-Distinct, measure,
}
use shadowmesh.Storage.Types.{u64_mod, StoredFragment, StoredContent, StorageManager, Disk}
use shadowmesh.Storage.Ops.{
  fragment_size, add_fragment, store_fragment, get_fragment, get_fragment_path, store_content, pin,
  unpin, pin_fragments, set_pinned, set_pin, touch, touched, drop_fragment, fresh_fragment,
  delete_fragment, delete_fragments, drop_content, delete,
}
use shadowmesh.Storage.Collect.{
  collect, garbage_collect, candidates, nothing_freed, credit, GcResult,
}

-- The counter covers what is stored and stays within the capacity, the statistics repeat it, and no
-- hash has two fragments.
pub record IsCovered (cap : ℕ) (m : StorageManager) : Type 0 where
  pub distinct : Distinct m.fragments
  pub covers : total fragment_size m.fragments ≤ m.current_usage
  pub capacity : m.max_capacity ≡ cap
  pub bounded : m.current_usage ≤ cap
  pub counted : m.stats.total_bytes ≡ m.current_usage

module _ (cap : ℕ) where
  pub add_fragment-IsCovered :
      (m : StorageManager) (f : StoredFragment)
      → m.current_usage + f.size < u64_mod
      → m.current_usage + f.size ≤ cap
      → IsCovered cap m
      → IsCovered cap (add_fragment m f)
  unfolding add_fragment
  add_fragment-IsCovered m f small fits v = record {
    capacity = v.capacity;
    distinct = insert-Distinct f.hash f m.fragments v.distinct;
    covers = omega (arith, total-insert fragment_size f.hash f m.fragments, v.covers);
    bounded = omega arith;
    counted = omega (arith, v.counted);
  }

  pub drop_fragment-IsCovered :
      (m : StorageManager) (hash : Str) → IsCovered cap m → IsCovered cap (drop_fragment m hash)
  unfolding drop_fragment
  drop_fragment-IsCovered m hash v = record {
    capacity = v.capacity;
    distinct = remove-Distinct hash m.fragments v.distinct;
    covers = omega (arith, total-remove fragment_size hash m.fragments v.distinct, v.covers);
    bounded = omega (arith, v.bounded);
    counted = omega (arith, v.counted);
  }

  pub store_fragment-IsCovered :
      (disk : Disk) (now : ℕ) (m : StorageManager) (hash cid : Str) (index : ℕ) (content : Str)
      → cap + length content < u64_mod
      → IsCovered cap m
      → IsCovered cap (store_fragment disk now m hash cid index content).0
  unfolding store_fragment
  store_fragment-IsCovered disk now m hash cid index content small v =
      ground (arith, add_fragment-IsCovered m (fresh_fragment now hash cid index (length content)))

  -- Only the pins, the access times and the contents change.
  module _ (m m' : StorageManager) (same : m'.current_usage ≡ m.current_usage)
      (cap_same : m'.max_capacity ≡ m.max_capacity)
      (bytes_same : m'.stats.total_bytes ≡ m.stats.total_bytes) where
    IsCovered-of_total :
        Distinct m'.fragments
        → total fragment_size m'.fragments ≡ total fragment_size m.fragments
        → IsCovered cap m
        → IsCovered cap m'
    IsCovered-of_total d t v = record {
      capacity = cap_same ∙ v.capacity;
      distinct = d;
      covers = omega (arith, v.covers);
      bounded = omega (arith, v.bounded);
      counted = omega (arith, v.counted);
    }

  touched-IsCovered :
      (now : ℕ) (hash : Str) (m : StorageManager)
      → IsCovered cap m
      → IsCovered cap (touched now hash m)
  touched-IsCovered now hash m v =
      IsCovered-of_total m (touched now hash m) refl refl refl
        (adjust-Distinct hash (touch now) m.fragments v.distinct)
        (total-adjust fragment_size hash (touch now) m.fragments (λ f. refl)) v

  pub get_fragment-IsCovered :
      (disk : Disk) (now : ℕ) (m : StorageManager) (hash : Str)
      → IsCovered cap m
      → IsCovered cap (get_fragment disk now m hash).0
  unfolding get_fragment
  get_fragment-IsCovered disk now m hash v = ground (arith, touched-IsCovered now hash m v)

  pub get_fragment_path-IsCovered :
      (now : ℕ) (m : StorageManager) (hash : Str)
      → IsCovered cap m
      → IsCovered cap (get_fragment_path now m hash).0
  unfolding get_fragment_path
  get_fragment_path-IsCovered now m hash v = ground (arith, touched-IsCovered now hash m v)

  pub store_content-IsCovered :
      (disk : Disk) (m : StorageManager) (c : StoredContent)
      → IsCovered cap m
      → IsCovered cap (store_content disk m c).0
  unfolding store_content
  store_content-IsCovered disk m c v = record {
    capacity = v.capacity;
    distinct = v.distinct;
    covers = v.covers;
    bounded = v.bounded;
    counted = v.counted;
  }

  pin_fragments-Distinct :
      (b : Bool) (hs : List Str) (frags : Map Str StoredFragment)
      → Distinct frags
      → Distinct (pin_fragments b hs frags)
  unfolding pin_fragments
  pin_fragments-Distinct b [] frags d = d
  pin_fragments-Distinct b (h ∷ hs) frags d =
      pin_fragments-Distinct b hs _ (adjust-Distinct h (set_pinned b) frags d)

  total-pin_fragments :
      (b : Bool) (hs : List Str) (frags : Map Str StoredFragment)
      → total fragment_size (pin_fragments b hs frags) ≡ total fragment_size frags
  unfolding pin_fragments
  total-pin_fragments b [] frags = refl
  total-pin_fragments b (h ∷ hs) frags =
      total-pin_fragments b hs _ ∙ total-adjust fragment_size h (set_pinned b) frags (λ f. refl)

  set_pin-IsCovered :
      (b : Bool) (m : StorageManager) (cid : Str) (c : StoredContent)
      → IsCovered cap m
      → IsCovered cap (set_pin b m cid c)
  unfolding set_pin
  set_pin-IsCovered b m cid c v =
      IsCovered-of_total m _ refl refl refl
        (pin_fragments-Distinct b c.fragments m.fragments v.distinct)
        (total-pin_fragments b c.fragments m.fragments) v

  pub pin-IsCovered :
      (disk : Disk) (m : StorageManager) (cid : Str)
      → IsCovered cap m
      → IsCovered cap (pin disk m cid).0
  unfolding pin
  pin-IsCovered disk m cid v = elim (Option-cases (Map.get cid m.content)) [
    | inl e ↦ rw (e, pin) v
    | inr (c, e) ↦ rw (e, pin) (set_pin-IsCovered true m cid c v)
  ]

  pub unpin-IsCovered :
      (disk : Disk) (m : StorageManager) (cid : Str)
      → IsCovered cap m
      → IsCovered cap (unpin disk m cid).0
  unfolding unpin
  unpin-IsCovered disk m cid v = elim (Option-cases (Map.get cid m.content)) [
    | inl e ↦ rw (e, unpin) v
    | inr (c, e) ↦ rw (e, unpin) (set_pin-IsCovered false m cid c v)
  ]

  pub delete_fragment-IsCovered :
      (disk : Disk) (m : StorageManager) (hash : Str)
      → IsCovered cap m
      → IsCovered cap (delete_fragment disk m hash).0
  unfolding delete_fragment
  delete_fragment-IsCovered disk m hash v = ground (arith, drop_fragment-IsCovered m hash v)

  pub delete_fragments-IsCovered :
      (disk : Disk) (hs : List Str) (m : StorageManager)
      → IsCovered cap m
      → IsCovered cap (delete_fragments disk hs m).0
  unfolding delete_fragments
  delete_fragments-IsCovered disk [] m v = v
  delete_fragments-IsCovered disk (h ∷ hs) m v = ground (
    arith,
    delete_fragment-IsCovered disk m h v,
    delete_fragments-IsCovered disk hs (delete_fragment disk m h).0,
  )

  drop_content-IsCovered :
      (m : StorageManager) (cid : Str) → IsCovered cap m → IsCovered cap (drop_content m cid)
  unfolding drop_content
  drop_content-IsCovered m cid v = record {
    capacity = v.capacity;
    distinct = v.distinct;
    covers = v.covers;
    bounded = v.bounded;
    counted = v.counted;
  }

  pub delete-IsCovered :
      (disk : Disk) (m : StorageManager) (cid : Str)
      → IsCovered cap m
      → IsCovered cap (delete disk m cid).0
  unfolding delete
  delete-IsCovered disk m cid v = elim (Option-cases (Map.get cid m.content)) [
    | inl e ↦ rw (e, delete) v
    | inr (c, e) ↦
        rw (e, delete)
          (ground (
            arith,
            delete_fragments-IsCovered disk c.fragments m v,
            drop_content-IsCovered (delete_fragments disk c.fragments m).0 cid,
          ))
  ]

  collect-IsCovered :
      (disk : Disk) (n : ℕ) (cs : List StoredContent) (m : StorageManager) (r : GcResult)
      → IsCovered cap m
      → IsCovered cap (collect disk n cs m r).0
  unfolding collect
  collect-IsCovered disk n [] m r v = v
  collect-IsCovered disk n (c ∷ cs) m r v =
      let m' = (delete disk m c.cid).0 in
      ground (
        arith,
        delete-IsCovered disk m c.cid v,
        collect-IsCovered disk n cs m' r,
        collect-IsCovered disk n cs m' (credit c r),
      )

  pub garbage_collect-IsCovered :
      (disk : Disk) (now : ℕ) (m : StorageManager) (target : ℕ)
      → IsCovered cap m
      → IsCovered cap (garbage_collect disk now m target).0
  unfolding garbage_collect
  garbage_collect-IsCovered disk now m target v = ground (
    arith,
    collect-IsCovered disk (target - (m.max_capacity - m.current_usage)) (candidates m) m
        nothing_freed v,
  )
