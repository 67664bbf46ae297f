-- ===== src/Storage/Spared.antt =====
-- What a row of calls of `delete` leaves as it is.
use shadowmesh.Base.{
  ◌≡◌, refl, true, false, some, List, [], ◌∷◌, arith, Str, str_eq, Bool-cases, Option-cases, ◌==◌,
  ◌∙◌, inl, inr, ◌⊎◌,
}
use shadowmesh.Base.Map
use shadowmesh.Base.Map.{get-remove}
use shadowmesh.Storage.Types.{StoredContent, StorageManager, Disk}
use shadowmesh.Storage.Ops.{delete, delete_fragment, delete_fragments, drop_fragment, drop_content}
use shadowmesh.Storage.Removal.{content-delete_fragments, delete_keeps_pinned}
use shadowmesh.Storage.Stops.{delete_all}

-- An unpinned content of the index lists the fragment.
abbrev IsOneOf : Str → List Str → Type 0
IsOneOf k [] = ⊥
IsOneOf k (h ∷ hs) = (h ≡ k) ⊎ IsOneOf k hs

abbrev pub HasUnpinned : Str → StorageManager → Type 0
HasUnpinned k m =
    (j : Str) × (d : StoredContent) × (Map.get j m.content ≡ some d)
    × (d.pinned ≡ false)
    × IsOneOf k d.fragments

delete_fragment-spares :
    (disk : Disk) (m : StorageManager) (h k : Str)
    → (Map.get k (delete_fragment disk m h).0.fragments ≡ Map.get k m.fragments) ⊎ (h ≡ k)
unfolding delete_fragment drop_fragment
delete_fragment-spares disk m h k = elim (Bool-cases (h == k)) [
  | inl same ↦ inr ((str_eq.same_iff h k).0 same)
  | inr apart ↦ inl (ground (arith, apart, get-remove h k m.fragments))
]

delete_fragments-spares :
    (disk : Disk) (hs : List Str) (m : StorageManager) (k : Str)
    → (Map.get k (delete_fragments disk hs m).0.fragments ≡ Map.get k m.fragments) ⊎ IsOneOf k hs
unfolding delete_fragments
delete_fragments-spares disk [] m k = inl refl
delete_fragments-spares disk (h ∷ hs) m k = ground (
  arith,
  delete_fragment-spares disk m h k,
  delete_fragments-spares disk hs (delete_fragment disk m h).0 k,
)

delete-spares :
    (disk : Disk) (m : StorageManager) (cid k : Str)
    → (Map.get k (delete disk m cid).0.fragments ≡ Map.get k m.fragments) ⊎ HasUnpinned k m
unfolding delete drop_content
delete-spares disk m cid k = elim (Option-cases (Map.get cid m.content)) [
  | inl n ↦ inl (rw (n, delete) refl)
  | inr (d, s) ↦ elim (Bool-cases d.pinned) [
    | inl pinned ↦ inl (rw (s, delete, pinned) refl)
    | inr free ↦ elim (delete_fragments-spares disk d.fragments m k) [
      | inl same ↦ inl (ground (arith, s, free, same))
      | inr listed ↦ inr (cid, d, s, free, listed)
    ]
  ]
]

-- A call of `delete` adds no content and changes none.
delete-content :
    (disk : Disk) (m : StorageManager) (cid j : Str) (d : StoredContent)
    → Map.get j (delete disk m cid).0.content ≡ some d
    → Map.get j m.content ≡ some d
unfolding delete drop_content
delete-content disk m cid j d h = elim (Option-cases (Map.get cid m.content)) [
  | inl n ↦ ground (arith, n, h)
  | inr (c, s) ↦ ground (
    arith,
    s,
    h,
    content-delete_fragments disk c.fragments m,
    get-remove cid j (delete_fragments disk c.fragments m).0.content,
  )
]

pub delete_all-spares :
    (disk : Disk) (cs : List StoredContent) (m : StorageManager) (k : Str)
    → (Map.get k (delete_all disk cs m).fragments ≡ Map.get k m.fragments) ⊎ HasUnpinned k m
delete_all-spares disk [] m k = inl refl
delete_all-spares disk (c ∷ cs) m k =
    let m1 = (delete disk m c.cid).0 in
    elim (delete_all-spares disk cs m1 k) [
      | inr (j, d, there, free, listed) ↦
          inr (j, d, delete-content disk m c.cid j d there, free, listed)
      | inl same ↦ elim (delete-spares disk m c.cid k) [
        | inl same' ↦ inl (same ∙ same')
        | inr out ↦ inr out
      ]
    ]

delete_all-content :
    (disk : Disk) (cs : List StoredContent) (m : StorageManager) (j : Str) (d : StoredContent)
    → Map.get j (delete_all disk cs m).content ≡ some d
    → Map.get j m.content ≡ some d
delete_all-content disk [] m j d h = h
delete_all-content disk (c ∷ cs) m j d h =
    delete-content disk m c.cid j d (delete_all-content disk cs (delete disk m c.cid).0 j d h)

delete_all_keeps_pinned :
    (disk : Disk) (cs : List StoredContent) (m : StorageManager) (j : Str) (c : StoredContent)
    → Map.get j m.content ≡ some c
    → c.pinned ≡ true
    → Map.get j (delete_all disk cs m).content ≡ some c
delete_all_keeps_pinned disk [] m j c e p = e
delete_all_keeps_pinned disk (d ∷ cs) m j c e p =
    delete_all_keeps_pinned disk cs (delete disk m d.cid).0 j c
      (delete_keeps_pinned disk m d.cid j c e p) p

-- The content is there and is not pinned.
abbrev pub IsUnpinned : Str → StorageManager → Type 0
IsUnpinned j m = (d : StoredContent) × (Map.get j m.content ≡ some d) × (d.pinned ≡ false)

-- Only what is there unpinned changes.
pub content-delete_all :
    (disk : Disk) (cs : List StoredContent) (m : StorageManager) (j : Str)
    → (Map.get j (delete_all disk cs m).content ≡ Map.get j m.content) ⊎ IsUnpinned j m
content-delete_all disk cs m j = elim (Option-cases (Map.get j m.content)) [
  | inl n ↦ elim (Option-cases (Map.get j (delete_all disk cs m).content)) [
    | inl n' ↦ inl (cc (n, n'))
    | inr (d, s) ↦ absurd (cc (n, delete_all-content disk cs m j d s))
  ]
  | inr (c, s) ↦ elim (Bool-cases c.pinned) [
    | inl pinned ↦ inl (cc (s, delete_all_keeps_pinned disk cs m j c s pinned))
    | inr free ↦ inr (c, s, free)
  ]
]
