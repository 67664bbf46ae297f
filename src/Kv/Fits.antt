-- ===== src/Kv/Fits.antt =====
-- One namespace within the limits of the store's configuration.
use shadowmesh.Base.{
  ℕ, ◌≤◌, ◌≡◌, refl, sym, subst, ◌∙◌, Bool, not, none, some, [], arith, Str, str_eq, ◌==◌, length,
  Bool-cases, Option-cases, inl, inr,
}
use shadowmesh.Base.Map
use shadowmesh.Base.Map.{
  Map, Distinct, size, contains_key, get-insert, get-remove, get-retain, get-change_values,
  insert-Distinct, remove-Distinct, retain-Distinct, change_values-Distinct, size-insert,
  size-remove, size-retain-le, size-change_values,
}
use shadowmesh.Kv.{KvConfig, KvEntry, is_expired, live}

-- A namespace within the limits: no key twice, not too many, and no value too large.
pub record Fits (config : KvConfig) (ns : Map Str KvEntry) : Type 0 where
  pub distinct : Distinct ns
  pub few : size ns ≤ config.max_keys_per_namespace
  pub small :
      (k : Str) (e : KvEntry) → Map.get k ns ≡ some e → length e.value ≤ config.max_value_size_bytes

pub empty-Fits : (config : KvConfig) → Fits config []
unfolding Map.get
empty-Fits config = record { distinct = tt; few = omega arith; small = λ k e h. cc h }

pub remove-Fits :
    (config : KvConfig) (k : Str) (ns : Map Str KvEntry)
    → Fits config ns
    → Fits config (Map.remove k ns)
remove-Fits config k ns f = record {
  distinct = remove-Distinct k ns f.distinct;
  few = omega (arith, size-remove k ns f.distinct, f.few);
  small = λ j e h. elim (Bool-cases (k == j)) [
    | inl same ↦
        let lost : Map.get j (Map.remove k ns) ≡ none = get-remove k j ns ∙ rw same refl in
        absurd (cc (lost, h))
    | inr other ↦
        let kept : Map.get j (Map.remove k ns) ≡ Map.get j ns = get-remove k j ns ∙ rw other refl in
        f.small j e (sym kept ∙ h)
  ];
}

pub insert-Fits :
    (config : KvConfig) (k : Str) (e : KvEntry) (ns : Map Str KvEntry)
    → size (Map.insert k e ns) ≤ config.max_keys_per_namespace
    → length e.value ≤ config.max_value_size_bytes
    → Fits config ns
    → Fits config (Map.insert k e ns)
insert-Fits config k e ns room short f = record {
  distinct = insert-Distinct k e ns f.distinct;
  few = room;
  small = λ j d h. elim (Bool-cases (k == j)) [
    | inl same ↦
        let new_one : Map.get j (Map.insert k e ns) ≡ some e = get-insert k j e ns ∙ rw same refl in
        let it : e ≡ d = cc (new_one, h) in
        subst (λ x. length x.value ≤ config.max_value_size_bytes) it short
    | inr other ↦
        let kept : Map.get j (Map.insert k e ns) ≡ Map.get j ns =
          get-insert k j e ns ∙ rw other refl in
        f.small j d (sym kept ∙ h)
  ];
}

pub live-Fits :
    (config : KvConfig) (now : ℕ) (ns : Map Str KvEntry)
    → Fits config ns
    → Fits config (live now ns)
live-Fits config now ns f =
    let keep : KvEntry → Bool = λ e. not (is_expired now e) in
    record {
      distinct = retain-Distinct keep ns f.distinct;
      few = omega (arith, size-retain-le keep ns, f.few);
      small = λ k e h. elim (Option-cases (Map.get k ns)) [
        | inl free ↦
            let lost : Map.get k (Map.retain keep ns) ≡ none =
              get-retain keep k ns f.distinct ∙ rw free refl in
            absurd (cc (lost, h))
        | inr (d, there) ↦ elim (Bool-cases (is_expired now d)) [
          | inl old ↦
              let lost : Map.get k (Map.retain keep ns) ≡ none =
                get-retain keep k ns f.distinct ∙ rw (there, old) refl in
              absurd (cc (lost, h))
          | inr young ↦
              let kept : Map.get k (Map.retain keep ns) ≡ some d =
                get-retain keep k ns f.distinct ∙ rw (there, young) refl in
              let it : d ≡ e = cc (kept, h) in
              subst (λ x. length x.value ≤ config.max_value_size_bytes) it (f.small k d there)
        ]
      ];
    }
