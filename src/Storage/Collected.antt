-- ===== src/Storage/Collected.antt =====
-- What garbage collection deletes: the contents that are not pinned, the longest unused first, until
-- enough is freed.
use mathlib.Core.List.{Perm, ◌++◌}
use shadowmesh.Base.{
  ℕ, ◌-◌, ◌≡◌, refl, ap, sym, subst, not, List, [], arith, Str, str_eq, filter, Bool-cases, ◌∙◌,
  inl, inr, ◌⊎◌, leb,
}
use shadowmesh.Base.Map
use shadowmesh.Base.Map.{get-remove}
use shadowmesh.Base.Sort.{IsSorted}
use shadowmesh.Storage.Types.{StoredContent, StorageManager, Disk, Outcome, ok, err, panics}
use shadowmesh.Storage.Ops.{list_content}
use shadowmesh.Storage.Collect.{
  last_access, candidates, collect, garbage_collect, stamp_gc, nothing_freed, GcResult,
}
use shadowmesh.Storage.Eviction.{candidates_order}
use shadowmesh.Storage.Stops.{delete_all, IsNeeded, IsDone, collect-Stops}
use shadowmesh.Storage.Spared.{HasUnpinned, delete_all-spares, IsUnpinned, content-delete_all}

-- What a garbage collection has done: the contents it tried to delete and those it did not get to.
pub record IsCollection (disk : Disk) (m : StorageManager) (target : ℕ) (m' : StorageManager)
    (o : Outcome GcResult) : Type 0 where
  tried : List StoredContent
  rest : List StoredContent
  unpinned : Perm (tried ++ rest) (filter (λ c. not c.pinned) (list_content m))
  oldest_first : IsSorted (last_access m.fragments) (tried ++ rest)
  needed : IsNeeded disk (target - (m.max_capacity - m.current_usage)) tried m 0
  content : m'.content ≡ (delete_all disk tried m).content
  fragments : m'.fragments ≡ (delete_all disk tried m).fragments
  done : IsDone (target - (m.max_capacity - m.current_usage)) rest o
  spares_contents : (j : Str) → (Map.get j m'.content ≡ Map.get j m.content) ⊎ IsUnpinned j m
  spares_fragments : (k : Str) → (Map.get k m'.fragments ≡ Map.get k m.fragments) ⊎ HasUnpinned k m

-- The time of the collection is all that is noted at the end.
stamp_gc_lem :
    (now need : ℕ) (rest : List StoredContent) (q : StorageManager × Outcome GcResult)
    → ((stamp_gc now q).0.content ≡ q.0.content)
      × ((stamp_gc now q).0.fragments ≡ q.0.fragments)
      × (IsDone need rest q.1 → IsDone need rest (stamp_gc now q).1)
unfolding stamp_gc
stamp_gc_lem now need rest (m, ok r) = (refl, refl, λ d. d)
stamp_gc_lem now need rest (m, err e) = (refl, refl, λ d. d)
stamp_gc_lem now need rest (m, panics) = (refl, refl, λ d. d)

-- Garbage collection calls `delete` on unpinned contents alone, the longest unused first, and on one
-- more only as long as the space found free at the start and the bytes counted as freed since are
-- together below what is asked for. Unless a `delete` panics it succeeds, once they no longer are or
-- no unpinned content is left to try. The contents and fragments are those that these calls leave.
-- Every content that is not there unpinned is as it was, and so is every fragment that no unpinned
-- content lists.
pub garbage_collect-IsCollection :
    (disk : Disk) (now : ℕ) (m : StorageManager) (target : ℕ)
    → IsCollection disk m target
        (garbage_collect disk now m target).0
        (garbage_collect disk now m target).1
unfolding garbage_collect
garbage_collect-IsCollection disk now m target =
    let available = m.max_capacity - m.current_usage in
    let need = target - available in
    let (perm, sorted) = candidates_order m in
    let unpinned = filter (λ c. not c.pinned) (list_content m) in
    elim (Bool-cases (leb target available)) [
      | inl enough ↦ rw enough (record {
        tried = [];
        rest = candidates m;
        unpinned = perm;
        oldest_first = sorted;
        needed = tt;
        content = refl;
        fragments = refl;
        done = inl (ground (arith, enough));
        spares_contents = λ j. inl refl;
        spares_fragments = λ k. inl refl;
      })
      | inr short ↦
          let q = collect disk need (candidates m) m nothing_freed in
          let s = collect-Stops disk need (candidates m) m nothing_freed in
          let (content, fragments, done) = stamp_gc_lem now need s.rest q in
          rw short (record {
            tried = s.tried;
            rest = s.rest;
            unpinned = subst (λ l. Perm l unpinned) s.split perm;
            oldest_first = subst (IsSorted (last_access m.fragments)) s.split sorted;
            needed = s.needed;
            content = content ∙ ap (λ x. x.content) s.after;
            fragments = fragments ∙ ap (λ x. x.fragments) s.after;
            done = done s.done;
            spares_contents = λ j.
                subst (λ f. (Map.get j f ≡ Map.get j m.content) ⊎ IsUnpinned j m)
                  (sym (content ∙ ap (λ x. x.content) s.after))
                  (content-delete_all disk s.tried m j);
            spares_fragments = λ k.
                subst (λ f. (Map.get k f ≡ Map.get k m.fragments) ⊎ HasUnpinned k m)
                  (sym (fragments ∙ ap (λ x. x.fragments) s.after))
                  (delete_all-spares disk s.tried m k);
          })
    ]
