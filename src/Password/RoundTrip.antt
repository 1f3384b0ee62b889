-- ===== src/Password/RoundTrip.antt =====
-- HashPassword, then VerifyPassword.
use Prim.Native.String.{◌∷◌}
use mathlib.Core.Path.{subst}
use wireguard_babeld_igp.Base.{
  ◌≡◌, ◌↔◌, ◌∙◌, ap, refl, sym, String, true, false, some, [], ◌∷◌, nat_key, arith, String_discrete,
}
use wireguard_babeld_igp.Base.Int.{pos, ℤ_discrete}
use wireguard_babeld_igp.Data.Map.Range.{length}
use wireguard_babeld_igp.Data.Text.{contains_char, show_ℕ}
use wireguard_babeld_igp.Data.Text.Scan.{split, split_first, split_last, scan_after}
use wireguard_babeld_igp.Errors.{ok}
use wireguard_babeld_igp.Password.{
  Bytes, Crypto, returns, same_bytes, encoded_hash, hash_password, hashed, compared, with_fields,
  fields, verify_password, version_text, params_text, to_unsigned, time, memory, threads, key_len,
}

same_bytes_lem : (a b : Bytes) → (same_bytes a b ≡ true) ↔ (a ≡ b)
unfolding same_bytes
same_bytes_lem [] [] = (λ h. refl, λ e. refl)
same_bytes_lem [] (y ∷ b) = (λ h. cc, λ e. cc)
same_bytes_lem (x ∷ a) [] = (λ h. cc, λ e. cc)
same_bytes_lem (x ∷ a) (y ∷ b) =
    (λ h. ground (arith, (same_bytes_lem a b).0), λ e. ground (arith, (same_bytes_lem a b).1))

returned : {A : Type 0} (a b : A) → returns (ok a) ≡ returns (ok b) → a ≡ b
returned a b e = cc

module _ (crypto : Crypto) where
  pub hash_password_lem :
      (salt key : Bytes) (password : String)
      → crypto.id_key password salt time memory threads key_len ≡ some key
      → hash_password crypto (ok salt) password ≡ returns (ok (encoded_hash crypto salt key))
  unfolding hash_password hashed
  hash_password_lem salt key password k = ap (hashed crypto salt) k

module _ (crypto : Crypto) (decodes : (x : Bytes) → crypto.decode (crypto.encode x) ≡ ok x)
    (no_dollar : (x : Bytes) → contains_char 36 (crypto.encode x) ≡ false) where
  split_encoded :
      (salt hash : Bytes)
      → split 36 (encoded_hash crypto salt hash)
        ≡ ""
          ∷ "argon2id"
          ∷ version_text
          ∷ params_text
          ∷ crypto.encode salt
          ∷ crypto.encode hash
          ∷ []
  unfolding split encoded_hash contains_char show_ℕ
  split_encoded salt hash =
      rw
        (
          split_first 36 "argon2id" _ "$" refl refl,
          split_first 36 version_text _ "$" refl refl,
          split_first 36 params_text _ "$" refl refl,
          split_first 36 (crypto.encode salt) _ "$" (no_dollar salt) refl,
          split_last 36 (crypto.encode hash) (no_dollar hash),
        )
        refl

  fields_encoded :
      (salt hash : Bytes)
      → fields crypto (split 36 (encoded_hash crypto salt hash))
        ≡ ok ((pos memory, pos time, pos threads), salt, hash)
  unfolding fields show_ℕ scan_after String_discrete ℤ_discrete
  fields_encoded salt hash = rw (split_encoded salt hash, decodes salt, decodes hash) refl

  verify_lem :
      (salt key key' : Bytes) (attempt : String)
      → length key ≡ key_len
      → crypto.id_key attempt salt time memory threads key_len ≡ some key'
      → verify_password crypto attempt (encoded_hash crypto salt key)
        ≡ returns (ok (same_bytes key key'))
  unfolding verify_password with_fields compared to_unsigned
  verify_lem salt key key' attempt len k = rw (fields_encoded salt key, len, k) refl

  -- Where base64 decodes what it encodes, and encodes without a dollar sign, and where Argon2 gives keys
  -- of the length asked for: a password's hash is accepted for a second password exactly when the
  -- second gives the same key.
  pub verify-hash :
      (salt key key' : Bytes) (password attempt encoded : String)
      → hash_password crypto (ok salt) password ≡ returns (ok encoded)
      → crypto.id_key password salt time memory threads key_len ≡ some key
      → length key ≡ key_len
      → crypto.id_key attempt salt time memory threads key_len ≡ some key'
      → (verify_password crypto attempt encoded ≡ returns (ok true)) ↔ (key ≡ key')
  unfolding hash_password hashed
  verify-hash salt key key' password attempt encoded h k len k' =
      let stored = ap (hashed crypto salt) (sym k) ∙ h in
      let e =
        subst (λ t. verify_password crypto attempt t ≡ returns (ok (same_bytes key key')))
          (returned _ _ stored) (verify_lem salt key key' attempt len k') in
      (
        λ v. (same_bytes_lem key key').0 (returned _ _ (sym e ∙ v)),
        λ same. e ∙ ap (λ b. returns (ok b)) ((same_bytes_lem key key').1 same),
      )
