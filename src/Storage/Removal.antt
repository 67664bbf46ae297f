-- ===== src/Storage/Removal.antt =====
-- What `delete` removes, and what it cannot.
use shadowmesh.Base.{
  ◌≡◌, refl, sym, subst, true, false, inl, inr, none, some, List, [], ◌∷◌, arith, Str, All,
  Option-cases, str_eq, ◌==◌, if◌then◌else◌, str_beq_iff, key_refl,
}
use shadowmesh.Base.Map
use shadowmesh.Base.Map.{Map, get-remove}
use shadowmesh.Storage.Types.{
  StoredContent, StorageManager, Disk, ok, err, fragment_path, path_of, valid_hash, io,
}
use shadowmesh.Storage.Ops.{
  delete, delete_fragment, delete_fragments, drop_fragment, drop_content, unlinked, saved,
}

-- Neither the contents nor the directory change while fragments are deleted.
delete_fragment-content :
    (disk : Disk) (m : StorageManager) (h : Str)
    → ((delete_fragment disk m h).0.content ≡ m.content)
      × ((delete_fragment disk m h).0.data_dir ≡ m.data_dir)
unfolding delete_fragment drop_fragment
delete_fragment-content disk m h = ground arith

pub content-delete_fragments :
    (disk : Disk) (hs : List Str) (m : StorageManager)
    → (delete_fragments disk hs m).0.content ≡ m.content
unfolding delete_fragments
content-delete_fragments disk [] m = refl
content-delete_fragments disk (h ∷ hs) m = ground (
  arith,
  delete_fragment-content disk m h,
  content-delete_fragments disk hs (delete_fragment disk m h).0,
)

-- The file of a fragment can be removed: its hash has a path, and the file system agrees.
abbrev pub IsRemovable : Disk → Str → Str → Type 0
IsRemovable disk data_dir h = (valid_hash h ≡ true) × (unlinked disk (path_of data_dir h) ≡ true)

delete_fragment_ok :
    (disk : Disk) (m : StorageManager) (h : Str)
    → IsRemovable disk m.data_dir h
    → delete_fragment disk m h ≡ (drop_fragment m h, ok tt)
unfolding delete_fragment fragment_path
delete_fragment_ok disk m h (v, u) = rw (v, u)

data_dir-drop_fragment : (m : StorageManager) (h : Str) → (drop_fragment m h).data_dir ≡ m.data_dir
unfolding drop_fragment
data_dir-drop_fragment m h = refl

-- A fragment that is gone stays gone.
gone-delete_fragments :
    (disk : Disk) (hs : List Str) (m : StorageManager) (k : Str)
    → Map.get k m.fragments ≡ none
    → Map.get k (delete_fragments disk hs m).0.fragments ≡ none
unfolding delete_fragments
gone-delete_fragments disk [] m k g = g
gone-delete_fragments disk (h ∷ hs) m k g =
    ground (arith, step, gone-delete_fragments disk hs (delete_fragment disk m h).0 k)
  where
    step : Map.get k (delete_fragment disk m h).0.fragments ≡ none
    step = unfold delete_fragment drop_fragment in ground (arith, get-remove h k m.fragments)

delete_fragments_cons :
    (disk : Disk) (h : Str) (hs : List Str) (m : StorageManager)
    → IsRemovable disk m.data_dir h
    → delete_fragments disk (h ∷ hs) m ≡ delete_fragments disk hs (drop_fragment m h)
unfolding delete_fragments
delete_fragments_cons disk h hs m r = rw (delete_fragment_ok disk m h r) refl

drops-delete_fragments :
    (disk : Disk) (hs : List Str) (m : StorageManager)
    → All (IsRemovable disk m.data_dir) hs
    → ((delete_fragments disk hs m).1 ≡ ok tt)
      × All (λ h. Map.get h (delete_fragments disk hs m).0.fragments ≡ none) hs
drops-delete_fragments disk [] m r = (unfold delete_fragments in refl, tt)
drops-delete_fragments disk (h ∷ hs) m r =
    let (done, gone) = drops-delete_fragments disk hs (drop_fragment m h) later in
    subst (λ o. (o.1 ≡ ok tt) × All (λ k. Map.get k o.0.fragments ≡ none) (h ∷ hs))
      (sym (delete_fragments_cons disk h hs m r.0)) (done, (gone_first, gone))
  where
    later : All (IsRemovable disk (drop_fragment m h).data_dir) hs
    later = rw data_dir-drop_fragment r.1

    gone_first : Map.get h (delete_fragments disk hs (drop_fragment m h)).0.fragments ≡ none
    gone_first =
        gone-delete_fragments disk hs (drop_fragment m h) h
          (unfold drop_fragment in rw get-remove (rw (key_refl h)))

delete_ok :
    (disk : Disk) (m : StorageManager) (cid : Str) (c : StoredContent)
    → Map.get cid m.content ≡ some c
    → c.pinned ≡ false
    → (delete_fragments disk c.fragments m).1 ≡ ok tt
    → delete disk m cid ≡ saved disk (drop_content (delete_fragments disk c.fragments m).0 cid)
unfolding delete
delete_ok disk m cid c e p d = ground arith

-- Deleting an unpinned content, when its fragments have valid hashes and the file system agrees:
-- the content is gone and the other contents are as before, and every fragment that it lists is
-- gone, also one that another content lists too, pinned or not. The call fails only if the metadata
-- cannot be saved.
pub delete-drops :
    (disk : Disk) (m : StorageManager) (cid : Str) (c : StoredContent)
    → Map.get cid m.content ≡ some c
    → c.pinned ≡ false
    → All (IsRemovable disk m.data_dir) c.fragments
    → let (m', r) = delete disk m cid in
      ((j : Str) → Map.get j m'.content ≡ (if cid == j then none else Map.get j m.content))
      × All (λ h. Map.get h m'.fragments ≡ none) c.fragments
      × (r ≡ (if disk.save_metadata then ok tt else err io))
unfolding drop_content
delete-drops disk m cid c e p r =
    let (done, gone) = drops-delete_fragments disk c.fragments m r in
    let same = content-delete_fragments disk c.fragments m in
    subst
      (λ o.
        ((j : Str) → Map.get j o.0.content ≡ (if cid == j then none else Map.get j m.content))
        × All (λ h. Map.get h o.0.fragments ≡ none) c.fragments
        × (o.1 ≡ (if disk.save_metadata then ok tt else err io)))
      (sym (delete_ok disk m cid c e p done)) (λ j. rw get-remove (rw same), gone, refl)

-- No call of `delete` touches the metadata of a pinned content, whichever content it is called on.
pub delete_keeps_pinned :
    (disk : Disk) (m : StorageManager) (cid j : Str) (c : StoredContent)
    → Map.get j m.content ≡ some c
    → c.pinned ≡ true
    → Map.get j (delete disk m cid).0.content ≡ some c
unfolding delete drop_content
delete_keeps_pinned disk m cid j c e p = elim (Option-cases (Map.get cid m.content)) [
  | inl n ↦ rw (n, delete) e
  | inr (d, s) ↦
      rw (s, delete)
        (ground (
          arith,
          str_beq_iff cid j,
          content-delete_fragments disk d.fragments m,
          get-remove cid j m.content,
          get-remove cid j (delete_fragments disk d.fragments m).0.content,
        ))
]
