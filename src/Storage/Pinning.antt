-- ===== src/Storage/Pinning.antt =====
-- `pin` and `unpin` over a content and its fragments.
use shadowmesh.Base.{
  Option-cases, inl, inr, subst, sym, ◌≡◌, refl, Bool, true, false, Option, none, some, List, [],
  ◌∷◌, arith, Str, str_eq, ◌==◌, if◌then◌else◌, str_beq_iff, str_beq, any,
}
use shadowmesh.Base.Map
use shadowmesh.Base.Map.{Map, get-adjust}
use shadowmesh.Storage.Types.{
  StoredFragment, StoredContent, StorageManager, Disk, ok, err, io, not_found,
}
use shadowmesh.Storage.Ops.{
  pin, unpin, pin_fragments, set_pinned, mark_pinned, set_pin, count_pinned, saved,
}

abbrev with_pin : Bool → Option StoredFragment → Option StoredFragment
with_pin b none = none
with_pin b (some f) = some (set_pinned b f)

-- The loop sets the flag of the listed fragments and leaves the others alone.
get-pin_fragments :
    (b : Bool) (hs : List Str) (frags : Map Str StoredFragment) (k : Str)
    → Map.get k (pin_fragments b hs frags)
      ≡ (if any (λ h. str_beq h k) hs then with_pin b (Map.get k frags) else Map.get k frags)
unfolding pin_fragments
get-pin_fragments b [] frags k = refl
get-pin_fragments b (h ∷ hs) frags k = ground (
  arith,
  get-pin_fragments b hs (Map.adjust h (set_pinned b) frags) k,
  get-adjust h k (set_pinned b) frags,
)

-- What a call that sets the flag to `b` leaves behind, for a content `c` under `cid`.
pub record IsPinnedAs (b : Bool) (m m' : StorageManager) (cid : Str) (c : StoredContent)
    : Type 0 where
  pub content_flag :
      (j : Str)
      → Map.get j m'.content ≡ (if cid == j then some (mark_pinned b c) else Map.get j m.content)
  pub fragment_flag :
      (k : Str)
      → Map.get k m'.fragments ≡ (
          if any (λ h. str_beq h k) c.fragments
          then with_pin b (Map.get k m.fragments)
          else Map.get k m.fragments)
  pub counted : m'.stats.pinned_count ≡ count_pinned m'.content

set_pin-IsPinnedAs :
    (b : Bool) (m : StorageManager) (cid : Str) (c : StoredContent)
    → Map.get cid m.content ≡ some c
    → IsPinnedAs b m (set_pin b m cid c) cid c
unfolding set_pin
set_pin-IsPinnedAs b m cid c e = record {
  content_flag = λ j. ground (arith, str_beq_iff cid j, get-adjust cid j (mark_pinned b) m.content);
  fragment_flag = get-pin_fragments b c.fragments m.fragments;
  counted = refl;
}

pin_found :
    (disk : Disk) (m : StorageManager) (cid : Str) (c : StoredContent)
    → Map.get cid m.content ≡ some c
    → (pin disk m cid ≡ saved disk (set_pin true m cid c))
      × (unpin disk m cid ≡ saved disk (set_pin false m cid c))
unfolding pin unpin
pin_found disk m cid c e = (rw (e, pin) refl, rw (e, unpin) refl)

pin_missing :
    (disk : Disk) (m : StorageManager) (cid : Str)
    → Map.get cid m.content ≡ none
    → (pin disk m cid ≡ (m, err (not_found cid))) × (unpin disk m cid ≡ (m, err (not_found cid)))
unfolding pin unpin
pin_missing disk m cid e = (rw (e, pin) refl, rw (e, unpin) refl)

-- What `pin` and `unpin` do when the content is found, and when it is not.
abbrev pub PinOutcome : Disk → StorageManager → Str → Option StoredContent → Type 0
PinOutcome disk m cid none =
    (pin disk m cid ≡ (m, err (not_found cid))) × (unpin disk m cid ≡ (m, err (not_found cid)))
PinOutcome disk m cid (some c) =
    IsPinnedAs true m (pin disk m cid).0 cid c
    × IsPinnedAs false m (unpin disk m cid).0 cid c
    × ((pin disk m cid).1 ≡ (if disk.save_metadata then ok tt else err io))
    × ((unpin disk m cid).1 ≡ (if disk.save_metadata then ok tt else err io))

pin_found-PinOutcome :
    (disk : Disk) (m : StorageManager) (cid : Str) (c : StoredContent)
    → Map.get cid m.content ≡ some c
    → PinOutcome disk m cid (some c)
pin_found-PinOutcome disk m cid c e =
    let (p, u) = pin_found disk m cid c e in
    rw (p, u) (set_pin-IsPinnedAs true m cid c e, set_pin-IsPinnedAs false m cid c e, refl, refl)

-- `pin` and `unpin` on a content that is there: its flag and the flags of exactly the fragments that
-- it lists are set, the count of pinned contents is made anew, and the call fails only if the
-- metadata cannot be saved. On a missing content both fail and change nothing.
pub pin_lem :
    (disk : Disk) (m : StorageManager) (cid : Str) → PinOutcome disk m cid (Map.get cid m.content)
pin_lem disk m cid = elim (Option-cases (Map.get cid m.content)) [
  | inl e ↦ subst (λ o. PinOutcome disk m cid o) (sym e) (pin_missing disk m cid e)
  | inr (c, e) ↦ subst (λ o. PinOutcome disk m cid o) (sym e) (pin_found-PinOutcome disk m cid c e)
]
