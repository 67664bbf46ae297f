-- ===== src/Replication/Status.antt =====
-- The replication status against the fragments it sums up.
use shadowmesh.Base.{
  ℕ, ◌≤◌, ◌≡◌, refl, ap, sym, subst, ◌∙◌, Bool, true, false, not, Option, none, some, List, [], ◌∷◌,
  arith, leb, Str, str_eq, Eq, ◌==◌, key_refl, All, map, Option-cases, Bool-cases, inl, inr,
  str_beq_iff, is_nil,
}
use shadowmesh.Base.Map
use shadowmesh.Base.Map.{Map, get-insert, get-insert_at, get-adjust}
use shadowmesh.Fragments.{ContentManifest}
use shadowmesh.Replication.Types.{
  ReplicationStatus, FragmentLocation, ReplicationManager, Call, registers, adds, removes, sets,
  pins, unpins, clamp_factor,
}
use shadowmesh.Replication.Manager.{
  with_factor, register_content, fresh_location, change_first, add_holder, remove_holder,
  min_replicas, all_holders, extend, checked, update_replication_status, change_holders,
  add_fragment_holder, remove_fragment_holder, pin, unpin, step, run,
}
use shadowmesh.Replication.Queries.{needs_replication, short, unhealthy}

module _ {Peer : Type 0} ⦃e : Eq Peer⦄ (peer_text : Peer → Str) where
  -- `known` is the replication factor when it has not changed.
  abbrev pub Judged : Option ℕ → ReplicationStatus → Type 0
  Judged none s = Unit
  Judged (some factor) s = (s.healthy ≡ leb factor s.replica_count) × (s.target_replicas ≡ factor)

  -- Every content has a status, and every status a content: the least number of holders that one of
  -- its fragments has, and the holders of all of them.
  abbrev pub Matches :
      Option ℕ → Option (List (FragmentLocation Peer)) → Option ReplicationStatus → Type 0
  Matches known none none = Unit
  Matches known none (some s) = ⊥
  Matches known (some fragments) none = ⊥
  Matches known (some fragments) (some s) =
      (s.replica_count ≡ min_replicas fragments)
      × (s.replica_holders ≡ map peer_text (all_holders fragments))
      × Judged known s

  abbrev pub IsAccurate : Option ℕ → ReplicationManager Peer → Type 0
  IsAccurate known m =
      (cid : Str)
      → Matches known (Map.get cid m.content_fragments) (Map.get cid m.replication_status)

  abbrev Knows : Option ℕ → ReplicationManager Peer → Type 0
  Knows none m = Unit
  Knows (some factor) m = (m.replication_factor ≡ factor) × (1 ≤ factor)

  abbrev Keeps : Option ℕ → Call Peer → Type 0
  Keeps none c = Unit
  Keeps (some factor) (sets n) = clamp_factor n ≡ factor
  Keeps (some factor) c = Unit

  min_replicas-fresh :
      (now : ℕ) (hashes : List Str)
      → min_replicas {Peer = Peer} (map (fresh_location now) hashes) ≡ 0
  min_replicas-fresh now [] = refl
  min_replicas-fresh now (h ∷ []) = refl
  min_replicas-fresh now (h ∷ j ∷ hs) = ground (arith, min_replicas-fresh now (j ∷ hs))

  all_holders-fresh :
      (now : ℕ) (hashes : List Str)
      → all_holders {Peer = Peer} (map (fresh_location now) hashes) ≡ []
  unfolding all_holders extend
  all_holders-fresh now [] = refl
  all_holders-fresh now (h ∷ hs) = rw (all_holders-fresh now hs) refl

  fresh-Judged :
      (known : Option ℕ) (cid : Str) (unix : ℕ) (m : ReplicationManager Peer)
      → Knows known m
      → Judged known (record {
        cid = cid;
        replica_count = 0;
        target_replicas = m.replication_factor;
        replica_holders = [];
        healthy = false;
        last_checked = unix;
      })
  fresh-Judged none cid unix m k = tt
  fresh-Judged (some factor) cid unix m k = ground arith

  Matches-subst :
      (known : Option ℕ) {f f' : Option (List (FragmentLocation Peer))}
      {s s' : Option ReplicationStatus}
      → f' ≡ f
      → s' ≡ s
      → Matches known f s
      → Matches known f' s'
  Matches-subst known {f} {f'} {s} {s'} p q h =
      subst (λ o. Matches known o s') (sym p) (subst (λ o. Matches known f o) (sym q) h)

  Knows-subst :
      (known : Option ℕ) (m n : ReplicationManager Peer)
      → n.replication_factor ≡ m.replication_factor
      → Knows known m
      → Knows known n
  Knows-subst none m n p k = tt
  Knows-subst (some factor) m n p k = (p ∙ k.0, k.1)

  replication_factor-change_holders :
      (unix : ℕ) (cid hash : Str) (change : FragmentLocation Peer → FragmentLocation Peer)
      (m : ReplicationManager Peer)
      → (change_holders peer_text unix cid hash change m).replication_factor ≡ m.replication_factor
  unfolding change_holders update_replication_status
  replication_factor-change_holders unix cid hash change m = ground arith

  register_content-IsAccurate :
      (known : Option ℕ) (now unix : ℕ) (cid : Str) (manifest : ContentManifest)
      (m : ReplicationManager Peer)
      → Knows known m
      → IsAccurate known m
      → IsAccurate known (register_content now unix cid manifest m)
  unfolding register_content
  register_content-IsAccurate known now unix cid manifest m k a j = elim (Bool-cases (cid == j)) [
    | inl same ↦ Matches-subst known (get-insert_at cid j _ _ same) (get-insert_at cid j _ _ same) (
      sym (min_replicas-fresh now manifest.fragments),
      sym (ap (map peer_text) (all_holders-fresh now manifest.fragments)),
      fresh-Judged known cid unix m k,
    )
    | inr other ↦
        Matches-subst known (rw (get-insert, other) refl) (rw (get-insert, other) refl) (a j)
  ]

  checked-Judged :
      (known : Option ℕ) (unix : ℕ) (m : ReplicationManager Peer)
      (fragments : List (FragmentLocation Peer)) (s : ReplicationStatus)
      → Knows known m
      → Judged known s
      → Judged known (checked peer_text unix m.replication_factor fragments s)
  checked-Judged none unix m fragments s k h = tt
  checked-Judged (some factor) unix m fragments s k h = rw k.0 (refl, h.1)

  checked-Matches :
      (known : Option ℕ) (unix : ℕ) (m : ReplicationManager Peer)
      (old fragments : List (FragmentLocation Peer)) (s : Option ReplicationStatus)
      → Knows known m
      → Matches known (some old) s
      → Matches known (some fragments) (elim s [
        | none ↦ none
        | some v ↦ some (checked peer_text unix m.replication_factor fragments v)
      ])
  checked-Matches known unix m old fragments none k h = h
  checked-Matches known unix m old fragments (some s) k h =
      (refl, refl, checked-Judged known unix m fragments s k h.2)

  -- The two tables, changed at one content.
  adjusted-Matches :
      (known : Option ℕ) (unix : ℕ) (m : ReplicationManager Peer) (cid j : Str)
      (change : List (FragmentLocation Peer) → List (FragmentLocation Peer))
      (fs : List (FragmentLocation Peer))
      → Knows known m
      → Map.get cid m.content_fragments ≡ some fs
      → IsAccurate known m
      → Matches known (Map.get j (Map.adjust cid change m.content_fragments)) (
          Map.get j (
            Map.adjust cid
              (checked peer_text unix m.replication_factor (change fs))
              m.replication_status))
  adjusted-Matches known unix m cid j change fs k there a = elim (Bool-cases (cid == j)) [
    | inl same ↦
        let here : Map.get j m.content_fragments ≡ some fs =
          subst (λ i. Map.get i m.content_fragments ≡ some fs) ((str_beq_iff cid j).0 same) there in
        Matches-subst known {f = some (change fs)}
          {s = elim (Map.get j m.replication_status) [
            | none ↦ none
            | some v ↦ some (checked peer_text unix m.replication_factor (change fs) v)
          ]}
          (rw (get-adjust, same, here) refl) (rw (get-adjust, same) refl)
          (checked-Matches known unix m fs (change fs) (Map.get j m.replication_status) k
            (Matches-subst known (sym here) refl (a j)))
    | inr other ↦
        Matches-subst known (rw (get-adjust, other) refl) (rw (get-adjust, other) refl) (a j)
  ]

  change_holders-IsAccurate :
      (known : Option ℕ) (unix : ℕ) (cid hash : Str)
      (change : FragmentLocation Peer → FragmentLocation Peer) (m : ReplicationManager Peer)
      → Knows known m
      → IsAccurate known m
      → IsAccurate known (change_holders peer_text unix cid hash change m)
  unfolding change_holders update_replication_status
  change_holders-IsAccurate known unix cid hash change m k a j =
      elim (Option-cases (Map.get cid m.content_fragments)) [
        | inl absent ↦ rw absent (a j)
        | inr (fs, there) ↦
            rw (there, get-adjust, key_refl cid, there)
              (adjusted-Matches known unix m cid j (change_first change hash) fs k there a)
      ]

  step-IsAccurate :
      (known : Option ℕ) (m : ReplicationManager Peer) (now unix : ℕ) (c : Call Peer)
      → Knows known m
      → Keeps known c
      → IsAccurate known m
      → IsAccurate known (step peer_text m (now, unix, c))
        × Knows known (step peer_text m (now, unix, c))
  unfolding step add_fragment_holder remove_fragment_holder register_content pin unpin
  step-IsAccurate known m now unix (registers cid manifest) k h a =
      (register_content-IsAccurate known now unix cid manifest m k a, Knows-subst known m _ refl k)
  step-IsAccurate known m now unix (adds cid hash peer) k h a = (
    change_holders-IsAccurate known unix cid hash (add_holder now peer) m k a,
    Knows-subst known m _ (replication_factor-change_holders unix cid hash (add_holder now peer) m)
        k,
  )
  step-IsAccurate known m now unix (removes cid hash peer) k h a = (
    change_holders-IsAccurate known unix cid hash (remove_holder peer) m k a,
    Knows-subst known m _ (replication_factor-change_holders unix cid hash (remove_holder peer) m)
        k,
  )
  step-IsAccurate none m now unix (sets factor) k h a = (a, tt)
  step-IsAccurate (some n) m now unix (sets factor) k h a = (a, (h, k.1))
  step-IsAccurate known m now unix (pins cid) k h a = (a, Knows-subst known m _ refl k)
  step-IsAccurate known m now unix (unpins cid) k h a = (a, Knows-subst known m _ refl k)

  abbrev KeepsAll : Option ℕ → List (ℕ × ℕ × Call Peer) → Type 0
  KeepsAll known xs = All (λ x. Keeps known x.2) xs

  run-Accurate :
      (known : Option ℕ) (m : ReplicationManager Peer) (xs : List (ℕ × ℕ × Call Peer))
      → Knows known m
      → KeepsAll known xs
      → IsAccurate known m
      → IsAccurate known (run peer_text m xs)
  unfolding run
  run-Accurate known m [] k h a = a
  run-Accurate known m ((now, unix, c) ∷ xs) k h a =
      let (a', k') = step-IsAccurate known m now unix c k h.0 a in
      run-Accurate known (step peer_text m (now, unix, c)) xs k' h.1 a'

  no_factor : (xs : List (ℕ × ℕ × Call Peer)) → KeepsAll none xs
  no_factor [] = tt
  no_factor (x ∷ xs) = (tt, no_factor xs)

  -- After any calls on a new manager the contents that have fragments are those that have a status,
  -- which counts the least number of holders that one of the fragments has, and names the holders of
  -- all of them.
  pub run-with_factor :
      (factor : ℕ) (xs : List (ℕ × ℕ × Call Peer))
      → IsAccurate none (run peer_text (with_factor factor) xs)
  unfolding Map.get
  run-with_factor factor xs =
      run-Accurate none (with_factor factor) xs tt (no_factor xs) (λ cid. tt)

  -- No call changes the replication factor to another one.
  abbrev pub IsSteady : ℕ → List (ℕ × ℕ × Call Peer) → Type 0
  IsSteady factor xs = KeepsAll (some (clamp_factor factor)) xs

  -- The least is enough exactly when none is too few.
  min_replicas-enough :
      (factor : ℕ) (f : FragmentLocation Peer) (fs : List (FragmentLocation Peer))
      → leb factor (min_replicas (f ∷ fs)) ≡ is_nil (short factor (some (f ∷ fs)))
  min_replicas-enough factor f [] = ground arith
  min_replicas-enough factor f (g ∷ fs) = ground (arith, min_replicas-enough factor g fs)

  abbrev pub needs : ℕ → Option (List (FragmentLocation Peer)) → Bool
  needs factor none = false
  needs factor (some []) = true
  needs factor (some (f ∷ fs)) = not (is_nil (short factor (some (f ∷ fs))))

  needs_at :
      (factor : ℕ) (f : Option (List (FragmentLocation Peer))) (s : Option ReplicationStatus)
      → 1 ≤ factor
      → Matches (some factor) f s
      → unhealthy s ≡ needs factor f
  needs_at factor none none k h = refl
  needs_at factor none (some s) k h = absurd h
  needs_at factor (some fs) none k h = absurd h
  needs_at factor (some []) (some s) k h = ground (arith, h.0, h.2.0)
  needs_at factor (some (f ∷ fs)) (some s) k h =
      ap not (h.2.0 ∙ ap (leb factor) h.0 ∙ min_replicas-enough factor f fs)

  -- While the replication factor stays as it is, a content needs replication exactly when it is
  -- registered and has a fragment with fewer holders than the factor, or has no fragment at all.
  pub needs_replication_lem :
      (factor : ℕ) (xs : List (ℕ × ℕ × Call Peer)) (cid : Str)
      → IsSteady factor xs
      → let m = run peer_text (with_factor factor) xs in
        needs_replication cid m ≡ needs (clamp_factor factor) (Map.get cid m.content_fragments)
  unfolding needs_replication Map.get
  needs_replication_lem factor xs cid steady = needs_at _ _ _ (ground arith) (
      run-Accurate (some (clamp_factor factor)) (with_factor factor) xs (refl, ground arith) steady
        (λ j. tt) cid)
