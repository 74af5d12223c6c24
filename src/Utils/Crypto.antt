-- ===== src/Utils/Crypto.antt =====
-- crypto.ts: encryption with AES-256-GCM. The ciphers, the encodings and JSON are those of Node, and
-- parameters; texts and bytes are their types.
pub mod RoundTrip
use nexapay_fintech_super_ap.Common.{ℕ, ◌≡◌, Bool, true, false, ◌||◌, Option, none, some, or_else}
use nexapay_fintech_super_ap.Common.Action.{
  Action, ◌>>=◌, ◌>>◌, pure, gets, throw_if, or_throw, empty_plaintext, key_missing,
  incomplete_data, authentication_failed, invalid_json,
}

-- What the code takes of Node, with documented behaviour: decryption under the same key, vector
-- and tag gives what was encrypted, and the ciphertext is as long as it; the encodings into text are
-- invertible, UTF-8 on texts without lone surrogates; no encoding makes something of nothing.
pub record Node (Text Bytes : Type 0) : Type 0 where
  pub is_empty : Text → Bool
  pub no_bytes : Bytes → Bool
  pub is_well_formed : Text → Bool
  pub scrypt : Text → Text → Bytes
  pub default_salt : Text
  pub seal : Bytes → Bytes → Bytes → Bytes × Bytes
  pub unseal : Bytes → Bytes → Bytes → Bytes → Option Bytes
  pub to_utf8 : Text → Bytes
  pub from_utf8 : Bytes → Text
  pub to_base64 : Bytes → Text
  pub from_base64 : Text → Bytes
  pub stringify : Text × Text × Text → Text
  pub parse : Text → Option (Text × Text × Text)
  pub unseal-seal :
      (key iv plain : Bytes)
      → unseal key iv (seal key iv plain).1 (seal key iv plain).0 ≡ some plain
  pub seal_length : (key iv plain : Bytes) → no_bytes (seal key iv plain).0 ≡ no_bytes plain
  pub seal_tag : (key iv plain : Bytes) → no_bytes (seal key iv plain).1 ≡ false
  pub from-to_utf8 : (t : Text) → is_well_formed t ≡ true → from_utf8 (to_utf8 t) ≡ t
  pub to_utf8_length : (t : Text) → no_bytes (to_utf8 t) ≡ is_empty t
  pub from-to_base64 : (b : Bytes) → from_base64 (to_base64 b) ≡ b
  pub to_base64_length : (b : Bytes) → is_empty (to_base64 b) ≡ no_bytes b
  pub parse-stringify : (a b c : Text) → parse (stringify (a, b, c)) ≡ some (a, b, c)
  -- JSON of texts in base64 is ASCII.
  pub stringify_well_formed :
      (a b c : Bytes) → is_well_formed (stringify (to_base64 a, to_base64 b, to_base64 c)) ≡ true

-- The variables of the process, and the bytes that `randomBytes` draws for the vector.
pub record Env (Text Bytes : Type 0) : Type 0 where
  pub encryption_key : Option Text
  pub encryption_salt : Option Text
  pub random_iv : Bytes

pub record EncryptedData (Text : Type 0) : Type 0 where
  pub ciphertext : Text
  pub iv : Text
  pub auth_tag : Text

module _ {Text Bytes : Type 0} (n : Node Text Bytes) where
  -- An empty variable is no key either.
  pub get_encryption_key : Action (Env Text Bytes) Bytes
  get_encryption_key = do
    secret ← or_throw (← gets (λ e. e.encryption_key)) key_missing
    throw_if (n.is_empty secret) key_missing
    salt ← gets (λ e. or_else e.encryption_salt n.default_salt)
    pure (n.scrypt secret salt)

  pub encrypt : Text → Action (Env Text Bytes) (EncryptedData Text)
  encrypt plaintext = do
    throw_if (n.is_empty plaintext) empty_plaintext
    key ← get_encryption_key
    iv ← gets (λ e. e.random_iv)
    let (ciphertext, auth_tag) = n.seal key iv (n.to_utf8 plaintext)
    pure (record {
      ciphertext = n.to_base64 ciphertext;
      iv = n.to_base64 iv;
      auth_tag = n.to_base64 auth_tag;
    })

  pub decrypt : EncryptedData Text → Action (Env Text Bytes) Text
  decrypt data_ = do
    throw_if (n.is_empty data_.ciphertext || n.is_empty data_.iv || n.is_empty data_.auth_tag)
        incomplete_data
    key ← get_encryption_key
    plain ←
        or_throw
          (n.unseal key (n.from_base64 data_.iv) (n.from_base64 data_.auth_tag)
            (n.from_base64 data_.ciphertext))
          authentication_failed
    pure (n.from_utf8 plain)

  pub encrypt_string : Text → Action (Env Text Bytes) Text
  encrypt_string plaintext = do
    encrypted ← encrypt plaintext
    let payload = n.stringify (encrypted.auth_tag, encrypted.iv, encrypted.ciphertext)
    pure (n.to_base64 (n.to_utf8 payload))

  pub decrypt_string : Text → Action (Env Text Bytes) Text
  decrypt_string encoded = do
    (auth_tag, iv, ciphertext) ←
        or_throw (n.parse (n.from_utf8 (n.from_base64 encoded))) invalid_json
    decrypt (record { ciphertext = ciphertext; iv = iv; auth_tag = auth_tag })
