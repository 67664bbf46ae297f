-- ===== src/Naming/Types.antt =====
-- The records of protocol/src/naming.rs, the validation of names and records, and which of two
-- records wins. Names are bytes, the texts of the errors are left out, and `unix` is the clock.
use shadowmesh.Base.{
  ◌≡◌, ℕ, ◌-◌, ◌^◌, Bool, true, false, not, ◌&&◌, ◌||◌, Option, none, some, List, [], ◌∷◌, Str,
  bytes, str_beq, str_ltb, ltb, leb, nat_beq, if◌then◌else◌, length, all, any, str_eq,
}
use shadowmesh.Base.Results.{Result, ok, guard, ok_or, ◌>>=◌, ◌>>◌}

abbrev pub min_name_ttl : ℕ
min_name_ttl = 60

abbrev pub max_name_ttl : ℕ
max_name_ttl = 86_400

abbrev pub negative_cache_ttl : ℕ
negative_cache_ttl = 300_000_000_000

abbrev pub max_cache_entries : ℕ
max_cache_entries = 10_000

abbrev pub service_heartbeat_timeout : ℕ
service_heartbeat_timeout = 3_600

abbrev pub max_name_length : ℕ
max_name_length = 63

abbrev pub well_known_names : List Str
well_known_names =
    bytes "_gateway.shadow"
    ∷ bytes "_signaling.shadow"
    ∷ bytes "_bootstrap.shadow"
    ∷ bytes "_turn.shadow"
    ∷ bytes "_stun.shadow"
    ∷ []

unfoldable pub is_well_known : Str → Bool
is_well_known name = any (str_beq name) well_known_names

pub data NamingError : Type 0 where
  invalid_name invalid_signature validation_failed signing_failed name_taken not_owner : NamingError
  revoked serialization_error stale_sequence resolution_failed : NamingError
  invalid_ttl : ℕ → NamingError

pub data ServiceType : Type 0 where
  signaling turn stun bootstrap relay : ServiceType
  custom : Str → ServiceType

pub data NameRecordType : Type 0 where
  content : Str → NameRecordType
  gateway : Str → List Str → ℕ → NameRecordType
  service : ServiceType → Str → List Str → NameRecordType
  peer : Str → List Str → NameRecordType
  alias : Str → NameRecordType

pub record NameRecord : Type 0 where
  pub name : Str
  pub name_hash : Str
  pub owner_pubkey : Str
  pub records : List NameRecordType
  pub sequence : ℕ
  pub created_at : ℕ
  pub updated_at : ℕ
  pub ttl_seconds : ℕ
  pub signature : Str

-- `strip_suffix`
unfoldable pub strip_suffix : Str → Str → Option Str
strip_suffix suffix [] = if str_beq [] suffix then some [] else none
strip_suffix suffix (c ∷ s) =
    let rest = strip_suffix suffix s in
    if str_beq (c ∷ s) suffix
    then some []
    else elim rest [ none ↦ none | some label ↦ some (c ∷ label) ]

abbrev pub is_ascii_lowercase : ℕ → Bool
is_ascii_lowercase c = leb 97 c && leb c 122

abbrev pub is_ascii_digit : ℕ → Bool
is_ascii_digit c = leb 48 c && leb c 57

abbrev pub is_ascii_alphanumeric : ℕ → Bool
is_ascii_alphanumeric c = is_ascii_digit c || (is_ascii_lowercase c || (leb 65 c && leb c 90))

abbrev pub starts_alphanumeric : Str → Bool
starts_alphanumeric [] = false
starts_alphanumeric (c ∷ s) = is_ascii_alphanumeric c

abbrev pub ends_alphanumeric : Str → Bool
ends_alphanumeric [] = false
ends_alphanumeric (c ∷ []) = is_ascii_alphanumeric c
ends_alphanumeric (c ∷ d ∷ s) = ends_alphanumeric (d ∷ s)

abbrev pub is_label_char : ℕ → Bool
is_label_char c = is_ascii_lowercase c || (is_ascii_digit c || nat_beq c 45)

-- The checks past the underscore.
abbrev pub check_label : Str → Result NamingError (Unit {0})
check_label label = do
  guard (starts_alphanumeric label) invalid_name
  guard (ends_alphanumeric label) invalid_name
  guard (all is_label_char label) invalid_name

-- `strip_prefix('_')`, which must leave a label.
abbrev pub check_prefixed : Str → Result NamingError (Unit {0})
check_prefixed [] = check_label []
check_prefixed (c ∷ rest) =
    if nat_beq c 95
    then (guard (ltb 0 (length rest)) invalid_name >> check_label rest)
    else check_label (c ∷ rest)

unfoldable pub validate_name : Str → Result NamingError (Unit {0})
validate_name name = do
  label ← ok_or invalid_name (strip_suffix (bytes ".shadow") name)
  guard (ltb 0 (length label) && leb (length label) max_name_length) invalid_name
  check_prefixed label

-- BLAKE3 in hexadecimal, JSON, and libp2p's keys and signatures: what is signed verifies under the
-- public key of the pair, which is read back from its encoding, and hexadecimal digits are read back.
pub record Libraries : Type 1 where
  pub name_to_hash : Str → Str
  pub to_json : NameRecord → Option Str
  pub from_json : Str → Option NameRecord
  pub from_json-to_json : (r : NameRecord) (s : Str) → to_json r ≡ some s → from_json s ≡ some r
  pub to_hex : Str → Str
  pub from_hex : Str → Option Str
  pub from_hex-to_hex : (s : Str) → from_hex (to_hex s) ≡ some s
  pub Keypair : Type 0
  pub PublicKey : Type 0
  pub public : Keypair → PublicKey
  pub encode_protobuf : PublicKey → Str
  pub try_decode_protobuf : Str → Option PublicKey
  pub try_decode-encode : (k : PublicKey) → try_decode_protobuf (encode_protobuf k) ≡ some k
  pub sign : Keypair → Str → Option Str
  pub verify : PublicKey → Str → Str → Bool
  pub verify-sign : (k : Keypair) (m s : Str) → sign k m ≡ some s → verify (public k) m s ≡ true

abbrev pub valid_ttl : ℕ → Bool
valid_ttl ttl = leb min_name_ttl ttl && leb ttl max_name_ttl

abbrev pub validate_aliases : List NameRecordType → Result NamingError (Unit {0})
validate_aliases [] = ok tt
validate_aliases (alias target ∷ rs) = validate_name target >> validate_aliases rs
validate_aliases (r ∷ rs) = validate_aliases rs

module _ (lib : Libraries) where
  -- The record with its signature emptied, as JSON.
  unfoldable pub canonical_bytes : NameRecord → Result NamingError Str
  canonical_bytes r = ok_or serialization_error (lib.to_json (record r { signature = [] }))

  unfoldable pub sign_record : NameRecord → lib.Keypair → Result NamingError NameRecord
  sign_record r keypair = do
    text ← canonical_bytes r
    sig ← ok_or signing_failed (lib.sign keypair text)
    ok (record r { signature = lib.to_hex sig })

  unfoldable pub verify_record : NameRecord → Result NamingError Bool
  verify_record r = do
    pubkey ← ok_or validation_failed (lib.from_hex r.owner_pubkey)
    public_key ← ok_or validation_failed (lib.try_decode_protobuf pubkey)
    text ← canonical_bytes r
    sig ← ok_or validation_failed (lib.from_hex r.signature)
    ok (lib.verify public_key text sig)

  unfoldable pub validate_record : NameRecord → Result NamingError (Unit {0})
  validate_record r = do
    validate_name r.name
    guard (valid_ttl r.ttl_seconds) (invalid_ttl r.ttl_seconds)
    guard (str_beq r.name_hash (lib.name_to_hash r.name)) validation_failed
    guard (ltb 0 (length r.owner_pubkey)) validation_failed
    validate_aliases r.records

-- Whether `resolve_conflict` gives the first of its arguments.
unfoldable pub first_wins : NameRecord → NameRecord → Bool
first_wins a b =
    if not (nat_beq a.sequence b.sequence)
    then ltb b.sequence a.sequence
    else if not (nat_beq a.created_at b.created_at)
    then ltb a.created_at b.created_at
    else not (str_ltb b.owner_pubkey a.owner_pubkey)

unfoldable pub resolve_conflict : NameRecord → NameRecord → NameRecord
resolve_conflict a b = if first_wins a b then a else b

abbrev pub has_records : List NameRecordType → Bool
has_records [] = false
has_records (r ∷ rs) = true

abbrev pub is_revoked : NameRecord → Bool
is_revoked r = not (has_records r.records) && nat_beq r.sequence (2 ^ 64 - 1)
