-- ===== src/Crypto/Layers.antt =====
-- Layers of encryption come off again.
use shadowmesh.Base.{
  take-append, drop-append, ℕ, suc, ◌≡◌, refl, ◌∙◌, subst, List, [], ◌∷◌, ◌++◌, arith, Str, length,
  length-append, Option-cases, inl, inr,
}
use shadowmesh.Base.Results.{ok, bind-eq_ok}
use shadowmesh.Crypto.{
  Cipher, nonce_size, encrypt, decrypt, encrypt_raw, decrypt_raw, wrap, unwrap_all, opened,
}

module _ (cipher : Cipher) where
  decrypt_raw-append :
      (key nonce ciphertext : Str)
      → length nonce ≡ nonce_size
      → decrypt_raw cipher key (nonce ++ ciphertext)
        ≡ opened cipher (cipher.unseal key nonce ciphertext)
  unfolding decrypt_raw decrypt
  decrypt_raw-append key nonce ciphertext h = ground (
    arith,
    take-append nonce_size nonce ciphertext h,
    drop-append nonce_size nonce ciphertext h,
    length-append nonce ciphertext,
  )

  -- What `encrypt_raw` makes with a nonce of twelve bytes, `decrypt_raw` opens with the same key.
  pub decrypt_raw-encrypt_raw :
      (key nonce plaintext content : Str)
      → length nonce ≡ nonce_size
      → encrypt_raw cipher key nonce plaintext ≡ ok content
      → decrypt_raw cipher key content ≡ ok plaintext
  unfolding encrypt_raw encrypt
  decrypt_raw-encrypt_raw key nonce plaintext content h e =
      elim (Option-cases (cipher.seal key nonce plaintext)) [
        | inl failed ↦ ground (arith, failed, e)
        | inr (c, made) ↦
            let same : nonce ++ c ≡ content = ground (arith, made, e) in
            subst (λ x. decrypt_raw cipher key x ≡ ok plaintext) same
              (decrypt_raw-append key nonce c h
                ∙ rw (cipher.unseal-seal key nonce plaintext c made) refl)
      ]

  -- However many layers `wrap` puts around a text: `unwrap_all` with the same keys, in the same order,
  -- gives the text. (Nonces have twelve bytes.)
  pub unwrap_all-wrap :
      (nonce : ℕ → Str) (keys : List Str) (plaintext content : Str)
      → ((i : ℕ) → length (nonce i) ≡ nonce_size)
      → wrap cipher nonce keys plaintext ≡ ok content
      → unwrap_all cipher keys content ≡ ok plaintext
  unfolding wrap unwrap_all
  unwrap_all-wrap nonce [] plaintext content h e = ground (arith, e)
  unwrap_all-wrap nonce (key ∷ keys) plaintext content h e =
      let (inner, wrapped, outer) =
        bind-eq_ok (wrap cipher (λ i. nonce (suc i)) keys plaintext)
          (λ inner. encrypt_raw cipher key (nonce 0) inner) e in
      rw (decrypt_raw-encrypt_raw key (nonce 0) inner content (h 0) outer)
        (unwrap_all-wrap (λ i. nonce (suc i)) keys plaintext inner (λ i. h (suc i)) wrapped)
