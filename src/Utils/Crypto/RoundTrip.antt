-- ===== src/Utils/Crypto/RoundTrip.antt =====
-- crypto.ts: `decryptString` after `encryptString`.
use nexapay_fintech_super_ap.Common.{◌≡◌, refl, ◌∙◌, true, false, some, or_else}
use nexapay_fintech_super_ap.Common.Action.{ok}
use nexapay_fintech_super_ap.Utils.Crypto.{
  Node, Env, EncryptedData, get_encryption_key, encrypt, decrypt, encrypt_string, decrypt_string,
}

module _ {Text Bytes : Type 0} (n : Node Text Bytes) where
  get_encryption_key_lem :
      (env : Env Text Bytes) {secret : Text}
      → env.encryption_key ≡ some secret
      → n.is_empty secret ≡ false
      → get_encryption_key n env
        ≡ (ok (n.scrypt secret (or_else env.encryption_salt n.default_salt)), env)
  unfolding get_encryption_key
  get_encryption_key_lem env e h = rw e (rw h refl)

  -- The key of the process.
  abbrev key_of : Env Text Bytes → Text → Bytes
  key_of env secret = n.scrypt secret (or_else env.encryption_salt n.default_salt)

  abbrev sealed : Env Text Bytes → Text → Text → Bytes × Bytes
  sealed env secret plaintext = n.seal (key_of env secret) env.random_iv (n.to_utf8 plaintext)

  abbrev encrypted_of : Env Text Bytes → Text → Text → EncryptedData Text
  encrypted_of env secret plaintext = record {
    ciphertext = n.to_base64 (sealed env secret plaintext).0;
    iv = n.to_base64 env.random_iv;
    auth_tag = n.to_base64 (sealed env secret plaintext).1;
  }

  encrypt_lem :
      (env : Env Text Bytes) (secret plaintext : Text)
      → env.encryption_key ≡ some secret
      → n.is_empty secret ≡ false
      → n.is_empty plaintext ≡ false
      → encrypt n plaintext env ≡ (ok (encrypted_of env secret plaintext), env)
  unfolding encrypt
  encrypt_lem env secret plaintext set key text =
      rw text (rw (get_encryption_key_lem env set key) refl)

  decrypt_lem :
      (env env' : Env Text Bytes) (secret plaintext : Text)
      → env'.encryption_key ≡ some secret
      → env'.encryption_salt ≡ env.encryption_salt
      → n.is_empty secret ≡ false
      → n.is_empty plaintext ≡ false
      → n.is_well_formed plaintext ≡ true
      → n.no_bytes env.random_iv ≡ false
      → decrypt n (encrypted_of env secret plaintext) env' ≡ (ok plaintext, env')
  unfolding decrypt
  decrypt_lem env env' secret plaintext set salt key text formed iv =
      let plain = n.to_utf8 plaintext in
      let k = key_of env secret in
      let full : n.is_empty (n.to_base64 (sealed env secret plaintext).0) ≡ false =
        n.to_base64_length (sealed env secret plaintext).0
        ∙ n.seal_length k env.random_iv plain
        ∙ n.to_utf8_length plaintext
        ∙ text in
      rw full (
        rw (n.to_base64_length env.random_iv ∙ iv) (
          rw (n.to_base64_length (sealed env secret plaintext).1 ∙ n.seal_tag k env.random_iv plain)
            (rw (get_encryption_key_lem env' set key) (
              rw
                (
                  salt,
                  n.from-to_base64 env.random_iv,
                  n.from-to_base64 (sealed env secret plaintext).1,
                  n.from-to_base64 (sealed env secret plaintext).0,
                  n.unseal-seal k env.random_iv plain,
                )
                (rw (n.from-to_utf8 plaintext formed) refl)))))

  -- With a key set, a text that is not empty and has no lone surrogate is encrypted, under any
  -- vector that is not empty, and what that returns decrypts to the same text, in a process with the
  -- same key and salt and whatever vector it would draw.
  pub decrypt_string-encrypt_string :
      (env : Env Text Bytes) (secret plaintext : Text) (iv' : Bytes)
      → env.encryption_key ≡ some secret
      → n.is_empty secret ≡ false
      → n.is_empty plaintext ≡ false
      → n.is_well_formed plaintext ≡ true
      → n.no_bytes env.random_iv ≡ false
      → (encoded : Text) × (encrypt_string n plaintext env ≡ (ok encoded, env))
        × (decrypt_string n encoded (record env { random_iv = iv' })
            ≡ (ok plaintext, record env { random_iv = iv' }))
  unfolding encrypt_string decrypt_string
  decrypt_string-encrypt_string env secret plaintext iv' set key text formed iv =
      let e = encrypted_of env secret plaintext in
      let payload = n.stringify (e.auth_tag, e.iv, e.ciphertext) in
      (
        n.to_base64 (n.to_utf8 payload),
        rw (encrypt_lem env secret plaintext set key text) refl,
        rw (n.from-to_base64 (n.to_utf8 payload)) (
            rw
              (n.from-to_utf8 payload (
                n.stringify_well_formed (sealed env secret plaintext).1 env.random_iv
                  (sealed env secret plaintext).0))
              (rw (n.parse-stringify e.auth_tag e.iv e.ciphertext) (
                decrypt_lem env (record env { random_iv = iv' }) secret plaintext set refl key text
                  formed iv))),
      )
