-- ===== src/Cid/Split.antt =====
-- Cutting a path at its slashes, and putting it together again.
use shadowmesh.Base.{
  ◌≡◌, refl, true, Option, none, some, List, [], ◌∷◌, ◌++◌, arith, nat_beq, Str, if◌then◌else◌, all,
  not, All, Bool-cases, inl, inr,
}
use shadowmesh.Cid.{slash, find_slash, split_slash, split_at_slash}

-- Glueing back what `split_at_slash` cut.
unfoldable pub join : Str × Option Str → Str
join (cid, none) = cid
join (cid, some sub) = cid ++ slash ∷ sub

abbrev pub NoSlash : Str → Type 0
NoSlash s = all (λ c. not (nat_beq c slash)) s ≡ true

-- `split('/')` undone: the segments with a slash between them.
unfoldable pub intercalate : List Str → Str
intercalate [] = []
intercalate (s ∷ []) = s
intercalate (s ∷ t ∷ ss) = s ++ slash ∷ intercalate (t ∷ ss)

-- An identifier without a slash is cut off exactly.
pub split_at_slash-join :
    (cid : Str) (sub : Option Str) → NoSlash cid → split_at_slash (join (cid, sub)) ≡ (cid, sub)
unfolding split_at_slash join find_slash
split_at_slash-join [] none h = refl
split_at_slash-join [] (some sub) h = refl
split_at_slash-join (c ∷ cid) none h = ground (arith, split_at_slash-join cid none)
split_at_slash-join (c ∷ cid) (some sub) h = ground (arith, split_at_slash-join cid (some sub))

pub join-split_at_slash : (path : Str) → join (split_at_slash path) ≡ path
unfolding split_at_slash join find_slash
join-split_at_slash [] = refl
join-split_at_slash (c ∷ s) = ground (arith, join-split_at_slash s)

pub split_at_slash-NoSlash : (path : Str) → NoSlash (split_at_slash path).0
unfolding split_at_slash find_slash
split_at_slash-NoSlash [] = refl
split_at_slash-NoSlash (c ∷ s) = ground (arith, split_at_slash-NoSlash s)

pub split_slash-cons : (s : Str) → (seg : Str) × (rest : List Str) × (split_slash s ≡ seg ∷ rest)
unfolding split_slash
split_slash-cons [] = ([], [], refl)
split_slash-cons (c ∷ s) =
    let (seg, rest, e) = split_slash-cons s in rw (e, split_slash) (go seg rest)
  where
    go :
        (seg : Str) (rest : List Str)
        → (a : Str) × (b : List Str) × ((if nat_beq c slash
              then [] ∷ seg ∷ rest
              else (c ∷ seg) ∷ rest)
            ≡ a ∷ b)
    go seg rest = elim (Bool-cases (nat_beq c slash)) [
      | inl e ↦ ([], seg ∷ rest, rw e)
      | inr e ↦ (c ∷ seg, rest, rw e)
    ]

-- The segments are the pieces between the slashes.
pub intercalate-split_slash : (s : Str) → intercalate (split_slash s) ≡ s
unfolding intercalate split_slash
intercalate-split_slash [] = refl
intercalate-split_slash (c ∷ s) =
    let (seg, rest, e) = split_slash-cons s in ground (arith, e, intercalate-split_slash s)

pub split_slash-NoSlash : (s : Str) → All NoSlash (split_slash s)
unfolding split_slash
split_slash-NoSlash [] = (refl, tt)
split_slash-NoSlash (c ∷ s) =
    let (seg, rest, e) = split_slash-cons s in ground (arith, e, split_slash-NoSlash s)
