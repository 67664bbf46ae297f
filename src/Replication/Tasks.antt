-- ===== src/Replication/Tasks.antt =====
-- The tasks that `create_replication_tasks` makes.
use shadowmesh.Base.{
  ℕ, zero, suc, ◌+◌, ◌<◌, ◌≡◌, refl, subst, ◌∙◌, Bool, true, false, not, ◌||◌, some, List, [], ◌∷◌,
  arith, leb, Str, str_eq, Eq, ◌==◌, key_refl, All, All-imp, All-append, All-filter, All-filter_of,
  All-take, Any, filter, take, length, length-take, map, min_ℕ, max_ℕ, Bool-cases, inl, inr,
  str_beq_iff,
}
use shadowmesh.Base.Map
use shadowmesh.Base.Map.{Map, Distinct, insert-Distinct, adjust-Distinct, contains_key}
use shadowmesh.Base.Set
use shadowmesh.Base.Set.{Nodup, contains-insert}
use shadowmesh.Base.Sort.{IsSorted, sort_by-All, sort_by-IsSorted}
use shadowmesh.Replication.Types.{
  FragmentLocation, ReplicationManager, ReplicationTask, Call, registers, adds, removes, sets, pins,
  unpins,
}
use shadowmesh.Replication.Manager.{
  with_factor, register_content, change_holders, update_replication_status, add_fragment_holder,
  remove_fragment_holder, pin, unpin, step, run, change_first, extend,
}
use shadowmesh.Replication.Queries.{
  needed, candidates, task_of, priority_of, fragment_tasks, content_tasks, urgency,
  create_replication_tasks,
}

module _ {Peer : Type 0} ⦃e : Eq Peer⦄ where
  contains-extend :
      (p : Peer) (all ps : List Peer)
      → Set.contains p (extend all ps) ≡ (Set.contains p all || Set.contains p ps)
  unfolding extend Set.contains
  contains-extend p all [] = ground arith
  contains-extend p all (q ∷ ps) =
      ground (arith, contains-insert q p (extend all ps), contains-extend p all ps, e.same_iff q p)

  abbrev Missing : List Peer → Peer → Type 0
  Missing all p = not (Set.contains p all) ≡ true

  length-extend :
      (all ps : List Peer)
      → Nodup ps
      → All (Missing all) ps
      → length (extend all ps) ≡ length all + length ps
  unfolding extend Set.insert
  length-extend all [] d a = omega arith
  length-extend all (q ∷ ps) d a =
      ground (arith, length-extend all ps d.1 a.1, contains-extend q all ps)

  contains-filter :
      (p : Peer → Bool) (q : Peer) (xs : List Peer)
      → Set.contains q xs ≡ false
      → Set.contains q (filter p xs) ≡ false
  unfolding Set.contains
  contains-filter p q [] h = refl
  contains-filter p q (x ∷ xs) h = ground (arith, contains-filter p q xs)

  filter-Nodup : (p : Peer → Bool) (xs : List Peer) → Nodup xs → Nodup (filter p xs)
  filter-Nodup p [] d = tt
  filter-Nodup p (x ∷ xs) d = elim (Bool-cases (p x)) [
    | inl keep ↦ rw keep (contains-filter p x xs d.0, filter-Nodup p xs d.1)
    | inr drop ↦ rw drop (filter-Nodup p xs d.1)
  ]

  contains-take :
      (n : ℕ) (q : Peer) (xs : List Peer)
      → Set.contains q xs ≡ false
      → Set.contains q (take n xs) ≡ false
  unfolding Set.contains
  contains-take zero q xs h = refl
  contains-take (suc n) q [] h = refl
  contains-take (suc n) q (x ∷ xs) h = ground (arith, contains-take n q xs)

  take-Nodup : (n : ℕ) (xs : List Peer) → Nodup xs → Nodup (take n xs)
  take-Nodup zero xs d = tt
  take-Nodup (suc n) [] d = tt
  take-Nodup (suc n) (x ∷ xs) d = (contains-take n x xs d.0, take-Nodup n xs d.1)

  -- Once the peers chosen for a fragment hold it too, it has as many holders as the factor asks for,
  -- or, if not so many peers are there, all of them; and never more than it had or needs.
  pub candidates-enough :
      (factor : ℕ) (available_peers : List Peer) (f : FragmentLocation Peer)
      → Nodup available_peers
      → length (extend f.holders (candidates factor available_peers f))
        ≡ max_ℕ (length f.holders) (
            min_ℕ factor (
              length f.holders
              + length (filter (λ p. not (Set.contains p f.holders)) available_peers)))
  unfolding candidates
  candidates-enough factor available_peers f d =
      let free = filter (λ p. not (Set.contains p f.holders)) available_peers in
      length-extend f.holders _
        (take-Nodup (needed factor f) free (filter-Nodup _ available_peers d))
        (All-take (Missing f.holders) (needed factor f) free (All-filter _ available_peers))
      ∙ ground (arith, length-take (needed factor f) free)

  -- The task copies a fragment that has too few holders to a peer at hand that does not hold it, and
  -- is the more urgent the fewer hold it.
  pub record IsNeeded (factor : ℕ) (available_peers : List Peer) (t : ReplicationTask Peer)
      (f : FragmentLocation Peer) : Type 0 where
    pub hash : t.fragment_hash ≡ some f.fragment_hash
    pub few : length f.holders < factor
    pub new_holder : Set.contains t.target_peer f.holders ≡ false
    pub at_hand : Set.contains t.target_peer available_peers ≡ true
    pub urgent : t.priority ≡ priority_of (length f.holders)

  abbrev pub IsSound :
      ℕ → List Peer → Map Str (List (FragmentLocation Peer)) → ReplicationTask Peer → Type 0
  IsSound factor available_peers contents t =
      (fs : List (FragmentLocation Peer)) × (Map.get t.cid contents ≡ some fs)
      × Any (IsNeeded factor available_peers t) fs

  contains_self : (ps : List Peer) → All (λ p. Set.contains p ps ≡ true) ps
  unfolding Set.contains
  contains_self [] = tt
  contains_self (p ∷ ps) =
      (rw (key_refl p) refl, All-imp (λ q h. ground (arith, h)) ps (contains_self ps))

  map-task_of :
      (now factor : ℕ) (available_peers ps : List Peer) (cid : Str) (f : FragmentLocation Peer)
      → length f.holders < factor
      → All (Missing f.holders) ps
      → All (λ p. Set.contains p available_peers ≡ true) ps
      → All (λ t. (t.cid ≡ cid) × IsNeeded factor available_peers t f) (map (task_of now cid f) ps)
  map-task_of now factor available_peers [] cid f h missing there = tt
  map-task_of now factor available_peers (p ∷ ps) cid f h missing there = (
    (
      refl,
      record {
        hash = refl;
        few = h;
        new_holder = ground (arith, missing.0);
        at_hand = there.0;
        urgent = refl;
      },
    ),
    map-task_of now factor available_peers ps cid f h missing.1 there.1,
  )

  -- The tasks of one fragment.
  location_tasks :
      (now factor : ℕ) (available_peers : List Peer) (cid : Str) (f : FragmentLocation Peer)
      → length f.holders < factor
      → All
          (λ t. (t.cid ≡ cid) × IsNeeded factor available_peers t f)
          (map (task_of now cid f) (candidates factor available_peers f))
  unfolding candidates
  location_tasks now factor available_peers cid f h =
      let free = filter (λ p. not (Set.contains p f.holders)) available_peers in
      map-task_of now factor available_peers _ cid f h
        (All-take (Missing f.holders) (needed factor f) free (All-filter _ available_peers))
        (All-take (λ p. Set.contains p available_peers ≡ true) (needed factor f) free
          (All-filter_of _ _ available_peers (contains_self available_peers)))

  -- The tasks of one content.
  fragment_tasks-Any :
      (now factor : ℕ) (available_peers : List Peer) (cid : Str) (fs : List (FragmentLocation Peer))
      → All
          (λ t. (t.cid ≡ cid) × Any (IsNeeded factor available_peers t) fs)
          (fragment_tasks now factor available_peers cid fs)
  unfolding fragment_tasks
  fragment_tasks-Any now factor available_peers cid [] = tt
  fragment_tasks-Any now factor available_peers cid (f ∷ fs) =
      let P : ReplicationTask Peer → Type 0 =
        λ t. (t.cid ≡ cid) × Any (IsNeeded factor available_peers t) (f ∷ fs) in
      let rest : All P (fragment_tasks now factor available_peers cid fs) =
        All-imp (λ t h. (h.0, inr h.1)) _ (fragment_tasks-Any now factor available_peers cid fs) in
      elim (Bool-cases (leb (needed factor f) 0)) [
        | inl enough ↦ rw enough rest
        | inr few ↦
            let short : length f.holders < factor = ground (arith, few) in
            rw few (
              All-append P _ _
                (All-imp (λ t h. (h.0, inl h.1)) _
                  (location_tasks now factor available_peers cid f short))
                rest)
      ]

  get_later :
      (cid : Str) (fs : List (FragmentLocation Peer))
      (contents : Map Str (List (FragmentLocation Peer))) (j : Str)
      → contains_key cid contents ≡ false
      → contains_key j contents ≡ true
      → Map.get j ((cid, fs) ∷ contents) ≡ Map.get j contents
  unfolding Map.get
  get_later cid fs contents j fresh there = elim (Bool-cases (cid == j)) [
    | inl same ↦ absurd (
        cc (subst (λ i. contains_key i contents ≡ false) ((str_beq_iff cid j).0 same) fresh, there))
    | inr other ↦ rw other refl
  ]

  content_tasks-IsSound :
      (now factor : ℕ) (available_peers : List Peer)
      (contents : Map Str (List (FragmentLocation Peer)))
      → Distinct contents
      → All
          (IsSound factor available_peers contents)
          (content_tasks now factor available_peers contents)
  unfolding content_tasks Map.get
  content_tasks-IsSound now factor available_peers [] d = tt
  content_tasks-IsSound now factor available_peers ((cid, fs) ∷ contents) d =
      All-append (IsSound factor available_peers ((cid, fs) ∷ contents)) _ _
        (All-imp (λ t h. (fs, rw (h.0, key_refl cid) refl, h.1)) _
          (fragment_tasks-Any now factor available_peers cid fs))
        (All-imp (λ t h. (h.0, get_later cid fs contents t.cid d.0 (rw h.1 refl) ∙ h.1, h.2)) _
          (content_tasks-IsSound now factor available_peers contents d.1))

  change_holders-Distinct :
      (peer_text : Peer → Str) (unix : ℕ) (cid hash : Str)
      (change : FragmentLocation Peer → FragmentLocation Peer) (m : ReplicationManager Peer)
      → Distinct m.content_fragments
      → Distinct (change_holders peer_text unix cid hash change m).content_fragments
  unfolding change_holders update_replication_status
  change_holders-Distinct peer_text unix cid hash change m d =
      ground (arith, adjust-Distinct cid (change_first change hash) m.content_fragments d)

  step-Distinct :
      (peer_text : Peer → Str) (m : ReplicationManager Peer) (now unix : ℕ) (c : Call Peer)
      → Distinct m.content_fragments
      → Distinct (step peer_text m (now, unix, c)).content_fragments
  unfolding step add_fragment_holder remove_fragment_holder register_content pin unpin
  step-Distinct peer_text m now unix (registers cid manifest) d =
      insert-Distinct cid _ m.content_fragments d
  step-Distinct peer_text m now unix (adds cid hash peer) d =
      change_holders-Distinct peer_text unix cid hash _ m d
  step-Distinct peer_text m now unix (removes cid hash peer) d =
      change_holders-Distinct peer_text unix cid hash _ m d
  step-Distinct peer_text m now unix (sets factor) d = d
  step-Distinct peer_text m now unix (pins cid) d = d
  step-Distinct peer_text m now unix (unpins cid) d = d

  run-Distinct :
      (peer_text : Peer → Str) (m : ReplicationManager Peer) (xs : List (ℕ × ℕ × Call Peer))
      → Distinct m.content_fragments
      → Distinct (run peer_text m xs).content_fragments
  unfolding run
  run-Distinct peer_text m [] d = d
  run-Distinct peer_text m ((now, unix, c) ∷ xs) d =
      run-Distinct peer_text (step peer_text m (now, unix, c)) xs
        (step-Distinct peer_text m now unix c d)

  -- After any calls on a new manager every task is for a fragment of a registered content that has
  -- fewer holders than the factor, and for a peer at hand that does not hold it; its priority is
  -- that of the number of holders. The tasks come in the order of their priority, highest first.
  pub create_replication_tasks-IsSound :
      (peer_text : Peer → Str) (factor now : ℕ) (xs : List (ℕ × ℕ × Call Peer))
      (available_peers : List Peer)
      → let m = run peer_text (with_factor factor) xs in
        All
          (IsSound m.replication_factor available_peers m.content_fragments)
          (create_replication_tasks now available_peers m)
        × IsSorted urgency (create_replication_tasks now available_peers m)
  unfolding create_replication_tasks
  create_replication_tasks-IsSound peer_text factor now xs available_peers =
      let m = run peer_text (with_factor factor) xs in
      (
        sort_by-All urgency (IsSound m.replication_factor available_peers m.content_fragments) _ (
            content_tasks-IsSound now m.replication_factor available_peers m.content_fragments
              (run-Distinct peer_text (with_factor factor) xs tt)),
        sort_by-IsSorted urgency _,
      )
