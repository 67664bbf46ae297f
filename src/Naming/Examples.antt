-- ===== src/Naming/Examples.antt =====
-- A name, registered and looked up.
use shadowmesh.Base.{
  ◌≡◌, refl, Option, none, some, List, [], ◌∷◌, arith, Str, bytes, str_eq, inl, inr,
}
use shadowmesh.Base.Map
use shadowmesh.Base.Map.{size}
use shadowmesh.Base.Results.{Result, ok, err}
use shadowmesh.Naming.Types.{
  NameRecord, content, validate_name, strip_suffix, sign_record, canonical_bytes, verify_record,
  validate_record, first_wins,
}
use shadowmesh.Naming.Manager
use shadowmesh.Naming.Manager.{
  NamingManager, create_name_record, update_name_record, revoke_name_record, admissible,
  cache_record, keep_winner, evict_oldest,
}
use shadowmesh.Naming.Resolver.{
  NameResolver, with_capacity, resolve, process_dht_result, process_record, settle, remember,
  evict_if_needed, evict_on, found, not_found,
}
use shadowmesh.Naming.Latest.{IsBest, cache_all, cache_all-IsBest}
use shadowmesh.Naming.AnyOrder.{AreAlike, cache_all_any_order}
use shadowmesh.Naming.Lookup.{size-evict_if_needed, resolve-process_dht_result, resolve-revoked}
use shadowmesh.Naming.Signing.{create_name_record-admissible}
use shadowmesh.Naming.Sample.{lib}

abbrev app : Str
app = bytes "app.shadow"

abbrev blank : NameRecord
blank = record {
  name = [];
  name_hash = [];
  owner_pubkey = [];
  records = [];
  sequence = 0;
  created_at = 0;
  updated_at = 0;
  ttl_seconds = 0;
  signature = [];
}

abbrev record_of : {E : Type 0} → Result E NameRecord → NameRecord
record_of (ok r) = r
record_of (err e) = blank

abbrev first_record : NameRecord
first_record =
    record_of (create_name_record lib 100 app (content (bytes "cid1") ∷ []) (bytes "key") 3_600)

abbrev second_record : NameRecord
second_record =
    record_of (update_name_record lib 200 first_record (content (bytes "cid2") ∷ []) (bytes "key"))

create_name_record-admissible_example : admissible lib first_record ≡ ok tt
unfolding create_name_record validate_name strip_suffix sign_record canonical_bytes
create_name_record-admissible_example =
    create_name_record-admissible lib 100 app (content (bytes "cid1") ∷ []) (bytes "key") 3_600
      first_record refl (omega arith) refl

abbrev given : List NameRecord
given = first_record ∷ second_record ∷ []

abbrev turned : List NameRecord
turned = second_record ∷ first_record ∷ second_record ∷ []

cache_all-IsBest_example :
    IsBest lib first_record.name_hash turned
      (Map.get first_record.name_hash (cache_all lib turned Manager.new).local_cache)
cache_all-IsBest_example = cache_all-IsBest lib turned first_record.name_hash (omega arith)

cache_all_any_order_example :
    AreAlike
      (Map.get first_record.name_hash (cache_all lib given Manager.new).local_cache)
      (Map.get first_record.name_hash (cache_all lib turned Manager.new).local_cache)
cache_all_any_order_example =
    cache_all_any_order lib given turned first_record.name_hash (omega arith) (omega arith)
      (λ r h. elim h [ inl a ↦ inr (inl a) | inr k ↦ elim k [ inl b ↦ inl b | inr n ↦ absurd n ] ])
      (λ r h. elim h [
        | inl a ↦ inr (inl a)
        | inr k ↦ elim k [
          | inl b ↦ inl b
          | inr n ↦ elim n [ inl c ↦ inr (inl c) | inr m ↦ absurd m ]
        ]
      ])

-- Both nodes keep the second record.
both_second :
    Map.get first_record.name_hash (cache_all lib given Manager.new).local_cache
    ≡ some second_record
unfolding create_name_record update_name_record validate_name strip_suffix sign_record
    canonical_bytes admissible validate_record verify_record cache_all cache_record keep_winner
    evict_oldest first_wins Map.get Map.insert
both_second = refl

abbrev resolver : NameResolver
resolver = with_capacity 2

abbrev text_of : Option Str → Str
text_of none = []
text_of (some s) = s

abbrev answer : Str
answer = text_of (lib.to_json first_record)

resolve-process_dht_result_example :
    ((process_dht_result lib 5 app (some answer) resolver).1 ≡ found first_record)
    × (resolve lib 6 app (process_dht_result lib 5 app (some answer) resolver).0
        ≡ found first_record)
unfolding create_name_record validate_name strip_suffix sign_record canonical_bytes validate_record
    verify_record Map.get
resolve-process_dht_result_example =
    resolve-process_dht_result lib 5 6 app answer first_record resolver
      (record { reads = refl; valid = refl; verified = refl }) refl refl (omega arith) (omega arith)

abbrev gone : NameRecord
gone = record_of (revoke_name_record lib 300 first_record (bytes "key"))

abbrev known : NameResolver
known = (process_dht_result lib 5 app (some answer) resolver).0

resolve-revoked_example :
    ((process_dht_result lib 7 app (lib.to_json gone) known).1 ≡ not_found)
    × (resolve lib 8 app (process_dht_result lib 7 app (lib.to_json gone) known).0
        ≡ found first_record)
unfolding create_name_record revoke_name_record validate_name strip_suffix sign_record
    canonical_bytes validate_record verify_record process_dht_result process_record settle remember
    evict_if_needed evict_on Map.get Map.insert
resolve-revoked_example =
    resolve-revoked lib 7 8 app (text_of (lib.to_json gone)) gone
      (record { name_record = first_record; cached_at = 5; ttl = 3_600_000_000_000 }) known
      (record { reads = refl; valid = refl; verified = refl }) refl refl refl

abbrev full : NameResolver
full = record (with_capacity 1) {
  positive_cache =
      (bytes "a", record { name_record = first_record; cached_at = 5; ttl = 9 })
      ∷ (bytes "b", record { name_record = second_record; cached_at = 6; ttl = 9 })
      ∷ [];
}

size-evict_if_needed_example : size (evict_if_needed full).positive_cache ≡ 1
unfolding Map.get
size-evict_if_needed_example = size-evict_if_needed full (refl, (refl, tt))
