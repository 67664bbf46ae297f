-- ===== src/Naming/Conflict.antt =====
-- `resolve_conflict` of protocol/src/naming.rs orders the records.
use shadowmesh.Base.{
  ◌≡◌, true, false, arith, Str, str_ltb, str_ltb_asym, str_ltb_total, str_ltb_trans, Bool-cases,
  inl, inr,
}
use shadowmesh.Naming.Types.{NameRecord, first_wins}

-- What decides between two records is the same of both.
abbrev pub SameRank : NameRecord → NameRecord → Type 0
SameRank a b =
    (a.sequence ≡ b.sequence) × (a.created_at ≡ b.created_at) × (a.owner_pubkey ≡ b.owner_pubkey)

str_ltb_irrefl : (a : Str) → str_ltb a a ≡ false
str_ltb_irrefl a = elim (Bool-cases (str_ltb a a)) [
  | inl less ↦ absurd (str_ltb_asym a a less less)
  | inr not_less ↦ not_less
]

pub first_wins_refl : (a : NameRecord) → first_wins a a ≡ true
unfolding first_wins
first_wins_refl a = ground (arith, str_ltb_irrefl a.owner_pubkey)

str_ltb_connex : (a b : Str) → str_ltb b a ≡ true → str_ltb a b ≡ false
str_ltb_connex a b h = elim (Bool-cases (str_ltb a b)) [
  | inl less ↦ absurd (str_ltb_asym a b less h)
  | inr not_less ↦ not_less
]

pub first_wins_total : (a b : NameRecord) → first_wins a b ≡ false → first_wins b a ≡ true
unfolding first_wins
first_wins_total a b h = ground (arith, str_ltb_connex a.owner_pubkey b.owner_pubkey)

pub first_wins_trans :
    (a b c : NameRecord) → first_wins a b ≡ true → first_wins b c ≡ true → first_wins a c ≡ true
unfolding first_wins
first_wins_trans a b c h k =
    ground (arith, str_ltb_trans a.owner_pubkey b.owner_pubkey c.owner_pubkey)

pub first_wins_antisym :
    (a b : NameRecord) → first_wins a b ≡ true → first_wins b a ≡ true → SameRank a b
unfolding first_wins
first_wins_antisym a b h k = ground (arith, str_ltb_total a.owner_pubkey b.owner_pubkey)
