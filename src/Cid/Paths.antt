-- ===== src/Cid/Paths.antt =====
-- What the two path validators accept, what they reject and with which error.
use shadowmesh.Base.{
  ℕ, ◌≤◌, ◌≡◌, ◌≢◌, refl, ap, sym, ◌∙◌, ◌↔◌, ◌⊎◌, inl, inr, Bool, true, false, Option, none, some,
  List, [], ◌∷◌, arith, ltb, Str, bytes, length, if◌then◌else◌, all, any, All, All→all, All-imp,
  str_beq, str_beq→eq, Bool-cases,
}
use shadowmesh.Cid.{
  validate_cid, validate_cid_path, validate_content_path, ok, is_empty, is_control, is_dots,
  has_dots, split_at_slash, split_slash, max_cid_path_len, is_ascii_alphanumeric,
}
use shadowmesh.Cid.Split.{
  join, NoSlash, split_at_slash-join, join-split_at_slash, split_at_slash-NoSlash,
}
use shadowmesh.Cid.Format.{Cid, v0, v1, validate_cid_iff, Base58, Base32}

any→none {ℓ} :
    {A : Type ℓ} (p : A → Bool) (xs : List A) → any p xs ≡ false → All (λ a. p a ≡ false) xs
any→none p [] h = tt
any→none p (x ∷ xs) h = ground (arith, any→none p xs)

none→any {ℓ} :
    {A : Type ℓ} (p : A → Bool) (xs : List A) → All (λ a. p a ≡ false) xs → any p xs ≡ false
none→any p [] h = refl
none→any p (x ∷ xs) h = ground (arith, none→any p xs)

-- How a file system walks a subpath below a root: `.` stays, `..` goes up, and `none` is an escape.
unfoldable pub walk : List Str → List Str → Option (List Str)
walk stack [] = some stack
walk stack (seg ∷ segs) =
    let stay = walk stack segs in
    let down = walk (seg ∷ stack) segs in
    let up : Option (List Str) = elim stack [ [] ↦ none | top ∷ below ↦ walk below segs ] in
    if str_beq seg (bytes ".") then stay else if str_beq seg (bytes "..") then up else down

unfoldable pub push_all : List Str → List Str → List Str
push_all stack [] = stack
push_all stack (seg ∷ segs) = push_all (seg ∷ stack) segs

-- Segments that are not dots are walked literally.
walk-plain :
    (stack segs : List Str)
    → All (λ seg. is_dots seg ≡ false) segs
    → walk stack segs ≡ some (push_all stack segs)
unfolding walk push_all
walk-plain stack [] h = refl
walk-plain stack (seg ∷ segs) h = ground (arith, walk-plain (seg ∷ stack) segs h.1)

abbrev pub segments : Option Str → List Str
segments none = []
segments (some sub) = split_slash sub

-- What both validators check beside the identifier.
pub record IsSafe (cid : Str) (sub : Option Str) : Type 0 where
  pub cut : NoSlash cid
  pub fits : length (join (cid, sub)) ≤ max_cid_path_len
  pub printable : All (λ b. 0x20 ≤ b) (join (cid, sub))
  pub plain : All (λ seg. (seg ≢ bytes ".") × (seg ≢ bytes "..")) (segments sub)
  pub nonempty : join (cid, sub) ≢ []

is_dots-false : (seg : Str) → is_dots seg ≡ false → (seg ≢ bytes ".") × (seg ≢ bytes "..")
is_dots-false seg h = (λ e. cc (rw e at h), λ e. cc (rw e at h))

dots_false : (seg : Str) → (seg ≢ bytes ".") × (seg ≢ bytes "..") → is_dots seg ≡ false
dots_false seg (n, m) = elim (Bool-cases (str_beq seg (bytes "."))) [
  | inl e ↦ absurd (n (str_beq→eq _ _ e))
  | inr e ↦ elim (Bool-cases (str_beq seg (bytes ".."))) [
    | inl e' ↦ absurd (m (str_beq→eq _ _ e'))
    | inr e' ↦ rw (e, e')
  ]
]

segments_plain :
    (sub : Option Str) → has_dots sub ≡ false → All (λ seg. is_dots seg ≡ false) (segments sub)
unfolding has_dots
segments_plain none h = tt
segments_plain (some sub) h = any→none is_dots (split_slash sub) h

plain_segments :
    (sub : Option Str) → All (λ seg. is_dots seg ≡ false) (segments sub) → has_dots sub ≡ false
unfolding has_dots
plain_segments none h = refl
plain_segments (some sub) h = none→any is_dots (split_slash sub) h

control_false : (b : ℕ) → is_control b ≡ false → 0x20 ≤ b
control_false b h = ground arith

false_control : (b : ℕ) → 0x20 ≤ b → is_control b ≡ false
false_control b h = ground arith

nonempty : (s : Str) → is_empty s ≡ false → s ≢ []
nonempty [] h e = cc
nonempty (c ∷ s) h e = cc

is_empty-false : (s : Str) → s ≢ [] → is_empty s ≡ false
is_empty-false [] h = absurd (h refl)
is_empty-false (c ∷ s) h = refl

-- The tests on the whole path, which the two validators share.
record Checked (path : Str) : Type 0 where
  full : is_empty path ≡ false
  short : ltb max_cid_path_len (length path) ≡ false
  clean : any is_control path ≡ false
  level : has_dots (split_at_slash path).1 ≡ false

Checked-IsSafe :
    (path : Str) → Checked path → IsSafe (split_at_slash path).0 (split_at_slash path).1
Checked-IsSafe path c = record {
  cut = split_at_slash-NoSlash path;
  fits = rw (join-split_at_slash path) (ground (arith, c.short));
  printable =
      rw (join-split_at_slash path) (All-imp control_false path (any→none is_control path c.clean));
  plain = All-imp is_dots-false _ (segments_plain _ c.level);
  nonempty = rw (join-split_at_slash path) (nonempty path c.full);
}

IsSafe-Checked : (cid : Str) (sub : Option Str) → IsSafe cid sub → Checked (join (cid, sub))
IsSafe-Checked cid sub s = record {
  full = is_empty-false _ s.nonempty;
  short = ground (arith, s.fits);
  clean = none→any is_control _ (All-imp false_control _ s.printable);
  level =
      rw (split_at_slash-join cid sub s.cut) (plain_segments sub (All-imp dots_false _ s.plain));
}

module _ (path : Str) (r : Str × Option Str) where
  cid_path_ok :
      validate_cid_path path ≡ ok r
      → Checked path × (split_at_slash path ≡ r) × (validate_cid (split_at_slash path).0 ≡ true)
  unfolding validate_cid_path
  cid_path_ok h = ground arith

  content_path_ok :
      validate_content_path path ≡ ok r
      → Checked path
        × (split_at_slash path ≡ r)
        × (is_empty (split_at_slash path).0 ≡ false)
        × (length (split_at_slash path).0 ≤ 128)
        × (all is_ascii_alphanumeric (split_at_slash path).0 ≡ true)
  unfolding validate_content_path
  content_path_ok h = ground arith

module _ (path : Str) (c : Checked path) where
  ok_cid_path :
      validate_cid (split_at_slash path).0 ≡ true
      → validate_cid_path path ≡ ok (split_at_slash path)
  unfolding validate_cid_path
  ok_cid_path h = ground (arith, c.full, c.short, c.clean, c.level)

  ok_content_path :
      is_empty (split_at_slash path).0 ≡ false
      → length (split_at_slash path).0 ≤ 128
      → all is_ascii_alphanumeric (split_at_slash path).0 ≡ true
      → validate_content_path path ≡ ok (split_at_slash path)
  unfolding validate_content_path
  ok_content_path e n a = ground (arith, c.full, c.short, c.clean, c.level)

-- `validate_cid_path` returns `(cid, subpath)` exactly when the path is the identifier, with a slash
-- and the subpath if there is one, the identifier is a CID of one of the two formats, the path has
-- at most 512 bytes and none below 0x20, and no segment of the subpath is `.` or `..`.
pub validate_cid_path_iff :
    (path cid : Str) (sub : Option Str)
    → (validate_cid_path path ≡ ok (cid, sub))
      ↔ ((path ≡ join (cid, sub)) × Cid cid × IsSafe cid sub)
validate_cid_path_iff path cid sub = (sound, complete)
  where
    sound :
        validate_cid_path path ≡ ok (cid, sub) → (path ≡ join (cid, sub)) × Cid cid × IsSafe cid sub
    sound h =
        let (c, e, v) = cid_path_ok path (cid, sub) h in
        (
          sym (join-split_at_slash path) ∙ ap join e,
          (validate_cid_iff cid).0 (rw e at v),
          rw e at (Checked-IsSafe path c),
        )

    complete :
        (path ≡ join (cid, sub)) × Cid cid × IsSafe cid sub → validate_cid_path path ≡ ok (cid, sub)
    complete (e, v, s) =
        let cut = split_at_slash-join cid sub s.cut in
        rw e (
          ok_cid_path _ (IsSafe-Checked cid sub s) (rw cut ((validate_cid_iff cid).1 v))
          ∙ ap ok cut)

-- Whatever subpath either validator lets through, a walk below a root follows its segments one by
-- one: it never goes up, so it cannot leave the root.
pub validated_walk :
    (path id : Str) (sub : Option Str) (stack : List Str)
    → (validate_cid_path path ≡ ok (id, sub)) ⊎ (validate_content_path path ≡ ok (id, sub))
    → walk stack (segments sub) ≡ some (push_all stack (segments sub))
validated_walk path id sub stack (inl h) =
    let (c, e, v) = cid_path_ok path (id, sub) h in
    rw e at (walk-plain stack _ (segments_plain _ c.level))
validated_walk path id sub stack (inr h) =
    let (c, e, _, _, _) = content_path_ok path (id, sub) h in
    rw e at (walk-plain stack _ (segments_plain _ c.level))

Base58-alphanumeric : (c : ℕ) → Base58 c → is_ascii_alphanumeric c ≡ true
Base58-alphanumeric c h = ground arith

Base32-alphanumeric : (c : ℕ) → Base32 c → is_ascii_alphanumeric c ≡ true
Base32-alphanumeric c h = ground arith

Cid-identifier :
    (s : Str)
    → Cid s
    → (is_empty s ≡ false) × (length s ≤ 128) × (all is_ascii_alphanumeric s ≡ true)
Cid-identifier s (v0 r e n a) =
    (rw e refl, omega arith, All→all _ s (All-imp Base58-alphanumeric s a))
Cid-identifier s (v1 r e n a) =
    (rw e refl, omega arith, All→all _ s (All-imp Base32-alphanumeric s a))

-- The content endpoint is the more permissive one: what `validate_cid_path` accepts,
-- `validate_content_path` accepts with the same result.
pub validate_content_path-of_cid :
    (path : Str) (r : Str × Option Str)
    → validate_cid_path path ≡ ok r
    → validate_content_path path ≡ ok r
validate_content_path-of_cid path r h =
    let (c, e, v) = cid_path_ok path r h in
    let (full, short, plain) = Cid-identifier _ ((validate_cid_iff _).0 v) in
    ok_content_path path c full short plain ∙ ap ok e
