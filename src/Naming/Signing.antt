-- ===== src/Naming/Signing.antt =====
-- The records that a node makes of a name pass the checks of every other node.
use shadowmesh.Base.{
  ℕ, ◌<◌, ◌≡◌, refl, sym, subst, ◌∙◌, true, some, List, [], arith, Str, str_eq, str_beq,
  str_beq_refl, length, ltb, Bool-cases, Option-cases, inl, inr,
}
use shadowmesh.Base.Results.{ok, err, Result-cases}
use shadowmesh.Naming.Types.{
  Libraries, NameRecord, NameRecordType, validate_name, valid_ttl, invalid_ttl, canonical_bytes,
  sign_record, verify_record, validate_record, validate_aliases, serialization_error,
  signing_failed,
}
use shadowmesh.Naming.Manager.{pubkey_hex, create_name_record, admissible}

module _ (lib : Libraries) where
  -- Signing changes the signature alone, and what is signed with the key that the record names
  -- verifies.
  pub record IsSigned (r s : NameRecord) : Type 0 where
    pub same : s ≡ record r { signature = s.signature }
    pub verifies : verify_record lib s ≡ ok true

  sign_record-IsSigned :
      (r s : NameRecord) (keypair : lib.Keypair)
      → r.owner_pubkey ≡ pubkey_hex lib keypair
      → sign_record lib r keypair ≡ ok s
      → IsSigned r s
  unfolding sign_record canonical_bytes verify_record
  sign_record-IsSigned r s keypair owner made =
      elim (Option-cases (lib.to_json (record r { signature = [] }))) [
        | inl unread ↦
            let no_text : sign_record lib r keypair ≡ err serialization_error = rw unread refl in
            absurd (cc (no_text, made))
        | inr (text, json) ↦ elim (Option-cases (lib.sign keypair text)) [
          | inl failed ↦
              let no_signature : sign_record lib r keypair ≡ err signing_failed =
                rw (json, failed) refl in
              absurd (cc (no_signature, made))
          | inr (sig, signed) ↦
              let signature : sign_record lib r keypair
                  ≡ ok (record r { signature = lib.to_hex sig }) =
                rw (json, signed) refl in
              let it : record r { signature = lib.to_hex sig } ≡ s = cc (signature, made) in
              let key : lib.from_hex r.owner_pubkey
                  ≡ some (lib.encode_protobuf (lib.public keypair)) =
                rw owner (lib.from_hex-to_hex (lib.encode_protobuf (lib.public keypair))) in
              subst (IsSigned r) it (record {
                same = refl;
                verifies =
                    rw
                      (
                        key,
                        lib.try_decode-encode (lib.public keypair),
                        json,
                        lib.from_hex-to_hex sig,
                        lib.verify-sign keypair text sig signed,
                      )
                      refl;
              })
        ]
      ]

  -- The guards of `validate_record`, one by one.
  validate_record_lem :
      (r : NameRecord)
      → validate_name r.name ≡ ok tt
      → valid_ttl r.ttl_seconds ≡ true
      → r.name_hash ≡ lib.name_to_hash r.name
      → ltb 0 (length r.owner_pubkey) ≡ true
      → validate_aliases r.records ≡ ok tt
      → validate_record lib r ≡ ok tt
  unfolding validate_record
  validate_record_lem r named ttl hash owned aliases =
      let hashed : str_beq r.name_hash (lib.name_to_hash r.name) ≡ true =
        subst (λ h. str_beq h (lib.name_to_hash r.name) ≡ true) (sym hash)
          (str_beq_refl (lib.name_to_hash r.name)) in
      rw (named, ttl, hashed, owned, aliases) refl

  -- A record that `create_name_record` makes is accepted wherever it arrives: it passes the validation,
  -- and its signature verifies. (The aliases among its targets are valid names, and keys have a text.)
  pub create_name_record-admissible :
      (unix : ℕ) (name : Str) (records : List NameRecordType) (keypair : lib.Keypair)
      (ttl_seconds : ℕ) (r : NameRecord)
      → validate_aliases records ≡ ok tt
      → 0 < length (pubkey_hex lib keypair)
      → create_name_record lib unix name records keypair ttl_seconds ≡ ok r
      → admissible lib r ≡ ok tt
  unfolding create_name_record admissible
  create_name_record-admissible unix name records keypair ttl_seconds r aliases owned made =
      let unsigned : NameRecord = record {
        name = name;
        name_hash = lib.name_to_hash name;
        owner_pubkey = pubkey_hex lib keypair;
        records = records;
        sequence = 1;
        created_at = unix;
        updated_at = unix;
        ttl_seconds = ttl_seconds;
        signature = [];
      } in
      elim (Result-cases (validate_name name)) [
        | inr (x, refused) ↦
            let no : create_name_record lib unix name records keypair ttl_seconds ≡ err x =
              rw refused refl in
            absurd (cc (no, made))
        | inl (u, named) ↦ elim (Bool-cases (valid_ttl ttl_seconds)) [
          | inr outside ↦
              let no : create_name_record lib unix name records keypair ttl_seconds
                  ≡ err (invalid_ttl ttl_seconds) =
                rw (named, outside) refl in
              absurd (cc (no, made))
          | inl within ↦
              let yes : create_name_record lib unix name records keypair ttl_seconds
                  ≡ sign_record lib unsigned keypair =
                rw (named, within) refl in
              let s = sign_record-IsSigned unsigned r keypair refl (sym yes ∙ made) in
              let valid : validate_record lib (record unsigned { signature = r.signature })
                  ≡ ok tt =
                validate_record_lem (record unsigned { signature = r.signature }) named within refl
                  (ground (arith, owned)) aliases in
              rw (subst (λ x. validate_record lib x ≡ ok tt) (sym s.same) valid, s.verifies) refl
        ]
      ]
