-- ===== src/Replication/Examples.antt =====
-- Replication among a few peers, which are numbers here.
use shadowmesh.Base.{ℕ, ◌≡◌, refl, none, some, List, [], ◌∷◌, Str, bytes, nat_eq, str_eq, All}
use shadowmesh.Base.Map
use shadowmesh.Base.Set
use shadowmesh.Base.Sort.{IsSorted, sort_by}
use shadowmesh.Fragments.{ContentManifest}
use shadowmesh.Replication.Types.{high, FragmentLocation, Call, registers, adds}
use shadowmesh.Replication.Manager.{
  with_factor, run, step, register_content, add_fragment_holder, change_holders, change_first,
  update_replication_status,
}
use shadowmesh.Replication.Queries.{
  needs_replication, candidates, urgency, create_replication_tasks, content_tasks, fragment_tasks,
}
use shadowmesh.Replication.Status.{IsAccurate, run-with_factor, needs, needs_replication_lem}
use shadowmesh.Replication.Tasks.{IsSound, create_replication_tasks-IsSound}

abbrev text : ℕ → Str
text n = n ∷ []

abbrev manifest : ContentManifest
manifest = record {
  content_hash = bytes "h";
  fragments = bytes "f" ∷ bytes "g" ∷ [];
  metadata = record { name = bytes "n"; size = 2; mime_type = bytes "t" };
}

abbrev history : List (ℕ × ℕ × Call ℕ)
history =
    (1, 1, registers (bytes "c") manifest)
    ∷ (2, 2, adds (bytes "c") (bytes "f") 7)
    ∷ (3, 3, adds (bytes "c") (bytes "f") 8)
    ∷ (4, 4, adds (bytes "c") (bytes "g") 8)
    ∷ []

-- `g` has one holder and needs a second, `f` has enough.
tasks_made :
    create_replication_tasks 5 (7 ∷ 8 ∷ 9 ∷ []) (run text (with_factor 2) history)
    ≡ record {
      cid = bytes "c";
      fragment_hash = some (bytes "g");
      target_peer = 7;
      priority = high;
      created_at = 5;
      attempts = 0;
    }
      ∷ []
unfolding sort_by create_replication_tasks content_tasks fragment_tasks candidates run step
    register_content add_fragment_holder change_holders change_first update_replication_status
    Map.get Map.insert Map.adjust Set.insert Set.contains
tasks_made = refl

run-with_factor_example : IsAccurate text none (run text (with_factor 2) history)
run-with_factor_example = run-with_factor text 2 history

needs_replication_lem_example :
    needs_replication (bytes "c") (run text (with_factor 2) history)
    ≡ needs text 2 (Map.get (bytes "c") (run text (with_factor 2) history).content_fragments)
needs_replication_lem_example =
    needs_replication_lem text 2 history (bytes "c") (tt, (tt, (tt, (tt, tt))))

abbrev location : FragmentLocation ℕ
location = record { fragment_hash = bytes "f"; holders = 7 ∷ []; last_verified = 0 }

create_replication_tasks-IsSound_example :
    let m = run text (with_factor 2) history in
    All
      (IsSound m.replication_factor (7 ∷ 9 ∷ []) m.content_fragments)
      (create_replication_tasks 5 (7 ∷ 9 ∷ []) m)
    × IsSorted urgency (create_replication_tasks 5 (7 ∷ 9 ∷ []) m)
create_replication_tasks-IsSound_example =
    create_replication_tasks-IsSound text 2 5 history (7 ∷ 9 ∷ [])
