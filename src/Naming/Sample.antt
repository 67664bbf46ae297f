-- ===== src/Naming/Sample.antt =====
-- Small libraries, by which the examples of naming run. Their JSON knows records of one content at
-- most.
use shadowmesh.Base.{
  ◌≡◌, refl, ap, subst, ◌∙◌, Option, none, some, List, [], ◌∷◌, ◌++◌, Str, str_beq, str_beq_refl,
  Option-cases, inl, inr, true,
}
use shadowmesh.Base.Sample.{encode, decode, decode-encode, checksum}
use shadowmesh.Naming.Types.{
  Libraries, NameRecord, NameRecordType, content, gateway, service, peer, alias,
}

pub verifies : (t s : Str) → some t ≡ some s → str_beq s t ≡ true
verifies t s made = let it : t ≡ s = cc made in subst (λ x. str_beq x t ≡ true) it (str_beq_refl t)

abbrev shape : List NameRecordType → Option Str
shape [] = some []
shape (content cid ∷ []) = some (1 ∷ cid)
shape _ = none

abbrev unshape : Str → List NameRecordType
unshape [] = []
unshape (x ∷ cid) = content cid ∷ []

pub unshape-shape : (rs : List NameRecordType) (k : Str) → shape rs ≡ some k → unshape k ≡ rs
unshape-shape [] k h = let it : [] ≡ k = cc h in subst (λ x. unshape x ≡ []) it refl
unshape-shape (content cid ∷ []) k h =
    let it : 1 ∷ cid ≡ k = cc h in subst (λ x. unshape x ≡ content cid ∷ []) it refl
unshape-shape (content cid ∷ r ∷ rs) k h = cc h
unshape-shape (gateway p m w ∷ rs) k h = cc h
unshape-shape (service t p m ∷ rs) k h = cc h
unshape-shape (peer p m ∷ rs) k h = cc h
unshape-shape (alias target ∷ rs) k h = cc h

abbrev fields : NameRecord → Str → List Str
fields r k =
    r.name
    ∷ r.name_hash
    ∷ r.owner_pubkey
    ∷ k
    ∷ (r.sequence ∷ r.created_at ∷ r.updated_at ∷ r.ttl_seconds ∷ [])
    ∷ r.signature
    ∷ []

abbrev read_record : List Str → Option NameRecord
read_record (n ∷ h ∷ o ∷ k ∷ (a ∷ b ∷ c ∷ d ∷ []) ∷ g ∷ []) = some (record {
  name = n;
  name_hash = h;
  owner_pubkey = o;
  records = unshape k;
  sequence = a;
  created_at = b;
  updated_at = c;
  ttl_seconds = d;
  signature = g;
})
read_record _ = none

abbrev to_json : NameRecord → Option Str
to_json r = elim (shape r.records) [ none ↦ none | some k ↦ some (encode (fields r k)) ]

pub from_json-to_json :
    (r : NameRecord) (s : Str) → to_json r ≡ some s → read_record (decode 6 s) ≡ some r
from_json-to_json r s h = elim (Option-cases (shape r.records)) [
  | inl unknown ↦ let no : to_json r ≡ none = rw (to_json, unknown) refl in absurd (cc (no, h))
  | inr (k, known) ↦
      let yes : to_json r ≡ some (encode (fields r k)) = rw (to_json, known) refl in
      let text : encode (fields r k) ≡ s = cc (yes, h) in
      subst (λ t. read_record (decode 6 t) ≡ some r) text
        (ap read_record (decode-encode (fields r k)) ∙ rw (unshape-shape r.records k known) refl)
]

abbrev pub lib : Libraries
lib = record {
  name_to_hash = λ name. checksum name ∷ [];
  to_json = to_json;
  from_json = λ s. read_record (decode 6 s);
  from_json-to_json = from_json-to_json;
  to_hex = λ s. s;
  from_hex = λ s. some s;
  from_hex-to_hex = λ s. refl;
  Keypair = Str;
  PublicKey = Str;
  public = λ k. k;
  encode_protobuf = λ k. k;
  try_decode_protobuf = λ s. some s;
  try_decode-encode = λ k. refl;
  sign = λ k m. some (checksum (k ++ m) ∷ []);
  verify = λ k m s. str_beq s (checksum (k ++ m) ∷ []);
  verify-sign = λ k m s made. verifies (checksum (k ++ m) ∷ []) s made;
}
