-- ===== src/Storage/Stops.antt =====
-- How the loop of the garbage collection ends.
use mathlib.Core.List.{◌++◌}
use shadowmesh.Base.{
  ℕ, ◌+◌, ◌%◌, ◌≤◌, ◌<◌, ◌≡◌, refl, ap, List, [], ◌∷◌, arith, str_eq, Bool-cases, inl, inr, ◌⊎◌,
  leb,
}
use shadowmesh.Storage.Types.{
  u64_mod, StoredContent, StorageManager, StorageError, Disk, Outcome, ok, err, panics,
}
use shadowmesh.Storage.Ops.{delete}
use shadowmesh.Storage.Collect.{collect, collect_next, credit, GcResult}

-- The bytes freed, after a call of `delete` on a content: a call that fails frees nothing.
abbrev gained : StoredContent → Outcome (Unit {0}) → ℕ → ℕ
gained c (ok u) freed = (freed + c.total_size) % u64_mod
gained c (err e) freed = freed
gained c panics freed = freed

-- The calls of `delete`, one after the other.
abbrev pub delete_all : Disk → List StoredContent → StorageManager → StorageManager
delete_all disk [] m = m
delete_all disk (c ∷ cs) m = delete_all disk cs (delete disk m c.cid).0

-- Before each of the calls, what was freed was not enough.
abbrev pub IsNeeded : Disk → ℕ → List StoredContent → StorageManager → ℕ → Type 0
IsNeeded disk need [] m freed = Unit
IsNeeded disk need (c ∷ cs) m freed =
    (freed < need)
    × IsNeeded disk need cs (delete disk m c.cid).0 (gained c (delete disk m c.cid).1 freed)

-- When the call returns, enough was freed or there is nothing left to try.
abbrev pub IsDone : ℕ → List StoredContent → Outcome GcResult → Type 0
IsDone need rest (ok r) = (need ≤ r.freed_bytes) ⊎ (rest ≡ [])
IsDone need rest (err e) = ⊥
IsDone need rest panics = Unit

pub record Stops (disk : Disk) (need : ℕ) (cs : List StoredContent) (m : StorageManager) (freed : ℕ)
    (m' : StorageManager) (o : Outcome GcResult) : Type 0 where
  pub tried : List StoredContent
  pub rest : List StoredContent
  pub split : cs ≡ tried ++ rest
  pub needed : IsNeeded disk need tried m freed
  pub after : m' ≡ delete_all disk tried m
  pub done : IsDone need rest o

Outcome-cases :
    (o : Outcome (Unit {0})) → (o ≡ ok tt) ⊎ (((e : StorageError) × (o ≡ err e)) ⊎ (o ≡ panics))
Outcome-cases (ok u) = inl refl
Outcome-cases (err e) = inr (inl (e, refl))
Outcome-cases panics = inr (inr refl)

-- One call of `delete`, and then the others.
tries :
    (disk : Disk) (need : ℕ) (c : StoredContent) (cs : List StoredContent) (m m' : StorageManager)
    (freed : ℕ) (o : Outcome GcResult)
    → freed < need
    → Stops disk need cs (delete disk m c.cid).0 (gained c (delete disk m c.cid).1 freed) m' o
    → Stops disk need (c ∷ cs) m freed m' o
tries disk need c cs m m' freed o short s = record {
  tried = c ∷ s.tried;
  rest = s.rest;
  split = ap (λ xs. c ∷ xs) s.split;
  needed = (short, s.needed);
  after = s.after;
  done = s.done;
}

pub collect-Stops :
    (disk : Disk) (need : ℕ) (cs : List StoredContent) (m : StorageManager) (r : GcResult)
    → Stops disk need cs m r.freed_bytes (collect disk need cs m r).0 (collect disk need cs m r).1
unfolding collect collect_next
collect-Stops disk need [] m r = record {
  tried = [];
  rest = [];
  split = refl;
  needed = tt;
  after = refl;
  done = inr refl;
}
collect-Stops disk need (c ∷ cs) m r =
    let m1 = (delete disk m c.cid).0 in
    elim (Bool-cases (leb need r.freed_bytes)) [
      | inl enough ↦ rw enough (record {
        tried = [];
        rest = c ∷ cs;
        split = refl;
        needed = tt;
        after = refl;
        done = inl (ground (arith, enough));
      })
      | inr short ↦ rw short (
          tries disk need c cs m _ r.freed_bytes _ (ground (arith, short))
            (elim (Outcome-cases (delete disk m c.cid).1) [
              | inl done ↦ rw done (collect-Stops disk need cs m1 (credit c r))
              | inr (inl (e, failed)) ↦ rw failed (collect-Stops disk need cs m1 r)
              | inr (inr died) ↦ rw died (record {
                tried = [];
                rest = cs;
                split = refl;
                needed = tt;
                after = refl;
                done = tt;
              })
            ]))
    ]
