-- ===== src/Naming/Winner.antt =====
-- What `keep_winner` makes of one record that comes to the local cache of names.
use shadowmesh.Base.{
  ◌+◌, ◌≤◌, ◌<◌, ◌≡◌, refl, subst, ◌∙◌, true, some, arith, Str, str_eq, ◌==◌, Bool-cases,
  Option-cases, inl, inr, ◌⊎◌,
}
use shadowmesh.Base.Map
use shadowmesh.Base.Map.{Map, size, size-insert, get-insert, get-insert_self, get-insert_at}
use shadowmesh.Naming.Types.{NameRecord, first_wins, max_cache_entries}
use shadowmesh.Naming.Manager.{keep_winner, evict_oldest}
use shadowmesh.Naming.Conflict.{first_wins_refl, first_wins_total, first_wins_trans}

-- Below the limit nothing is evicted.
evict_oldest_below : (m : Map Str NameRecord) → size m ≤ max_cache_entries → evict_oldest m ≡ m
unfolding evict_oldest
evict_oldest_below m h = ground (arith, h)

-- The record of a hash is at least as good as this one.
pub record HasBest (r : NameRecord) (m : Map Str NameRecord) : Type 0 where
  pub best : NameRecord
  pub there : Map.get r.name_hash m ≡ some best
  pub wins : first_wins best r ≡ true

pub keep_winner_cases :
    (r : NameRecord) (m : Map Str NameRecord)
    → size m < max_cache_entries
    → ((existing : NameRecord) × (Map.get r.name_hash m ≡ some existing)
        × (first_wins existing r ≡ true)
        × (keep_winner r m ≡ m))
      ⊎ (((w : NameRecord) → Map.get r.name_hash m ≡ some w → first_wins r w ≡ true)
          × (keep_winner r m ≡ Map.insert r.name_hash r m))
unfolding keep_winner
keep_winner_cases r m room =
    let fits : evict_oldest (Map.insert r.name_hash r m) ≡ Map.insert r.name_hash r m =
      evict_oldest_below (Map.insert r.name_hash r m)
        (ground (arith, size-insert r.name_hash r m, room)) in
    elim (Option-cases (Map.get r.name_hash m)) [
      | inl free ↦ inr (λ w there. cc (free, there), rw (keep_winner, free) fits)
      | inr (existing, taken) ↦ elim (Bool-cases (first_wins existing r)) [
        | inl stays ↦ inl (existing, taken, stays, rw (keep_winner, taken, stays) refl)
        | inr goes ↦ inr (
          λ w there.
              subst (λ x. first_wins r x ≡ true) (cc (taken, there))
                (first_wins_total existing r goes),
          rw (keep_winner, taken, goes) fits,
        )
      ]
    ]

pub size-keep_winner :
    (r : NameRecord) (m : Map Str NameRecord)
    → size m < max_cache_entries
    → size (keep_winner r m) ≤ size m + 1
size-keep_winner r m room = elim (keep_winner_cases r m room) [
  | inl (existing, taken, stays, same) ↦ rw same (omega arith)
  | inr (beats, inserted) ↦ rw inserted (ground (arith, size-insert r.name_hash r m))
]

pub keep_winner-HasBest :
    (r : NameRecord) (m : Map Str NameRecord)
    → size m < max_cache_entries
    → HasBest r (keep_winner r m)
keep_winner-HasBest r m room = elim (keep_winner_cases r m room) [
  | inl (existing, taken, stays, same) ↦
      rw same (record { best = existing; there = taken; wins = stays })
  | inr (beats, inserted) ↦
      rw inserted
        (record { best = r; there = get-insert_self r.name_hash r m; wins = first_wins_refl r })
]

-- What has a best record still has one.
pub keep_winner_keeps :
    (q r : NameRecord) (m : Map Str NameRecord)
    → size m < max_cache_entries
    → HasBest q m
    → HasBest q (keep_winner r m)
keep_winner_keeps q r m room b = elim (keep_winner_cases r m room) [
  | inl (existing, taken, stays, same) ↦ rw same b
  | inr (beats, inserted) ↦ elim (Bool-cases (r.name_hash == q.name_hash)) [
    | inl alike ↦
        let one : r.name_hash ≡ q.name_hash = (str_eq.same_iff r.name_hash q.name_hash).0 alike in
        let at_r : Map.get r.name_hash m ≡ some b.best = rw one b.there in
        rw inserted (record {
          best = r;
          there = get-insert r.name_hash q.name_hash r m ∙ rw alike refl;
          wins = first_wins_trans r b.best q (beats b.best at_r) b.wins;
        })
    | inr apart ↦ rw inserted (record {
      best = b.best;
      there = get-insert r.name_hash q.name_hash r m ∙ rw apart b.there;
      wins = b.wins;
    })
  ]
]
