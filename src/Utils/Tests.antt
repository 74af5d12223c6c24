-- ===== src/Utils/Tests.antt =====
-- Instances of the theorems on the shared utilities.
use nexapay_fintech_super_ap.Common.{
  ℕ, ◌≡◌, refl, ◌↔◌, Bool, true, false, Option, none, some, List, [], ◌∷◌, or_else,
}
use nexapay_fintech_super_ap.Common.Action.{ok}
use nexapay_fintech_super_ap.Utils.Security.{constant_time_compare}
use nexapay_fintech_super_ap.Utils.Security.Comparison.{constant_time_compare_iff}
use nexapay_fintech_super_ap.Utils.AuditLog.{Object, lookup, create_audit_diff}
use nexapay_fintech_super_ap.Utils.AuditLog.Diff.{redo, undo, create_audit_diff_round_trip}
use nexapay_fintech_super_ap.Utils.Crypto.{Node, Env, encrypt_string, decrypt_string}
use nexapay_fintech_super_ap.Utils.Crypto.RoundTrip.{decrypt_string-encrypt_string}

abbrev pin_codes : List ℕ
pin_codes = 112 ∷ 105 ∷ 110 ∷ []

abbrev pit_codes : List ℕ
pit_codes = 112 ∷ 105 ∷ 116 ∷ []

constant_time_compare_iff_example :
    (constant_time_compare pin_codes pit_codes ≡ true) ↔ (pin_codes ≡ pit_codes)
constant_time_compare_iff_example = constant_time_compare_iff pin_codes pit_codes

-- A status changes, a limit goes away, and a name stays.
abbrev before : Object ℕ
before = (1, 10) ∷ (2, 20) ∷ (3, 30) ∷ []

abbrev after : Object ℕ
after = (1, 11) ∷ (3, 30) ∷ []

abbrev text_of : Option ℕ → ℕ
text_of value = or_else value 0

create_audit_diff_round_trip_example :
    (text_of (redo (lookup 1 (create_audit_diff text_of before after)) (lookup 1 before))
      ≡ text_of (lookup 1 after))
    × (text_of (undo (lookup 1 (create_audit_diff text_of before after)) (lookup 1 after))
        ≡ text_of (lookup 1 before))
    × ((lookup 1 (create_audit_diff text_of before after) ≡ none)
        ↔ (text_of (lookup 1 before) ≡ text_of (lookup 1 after)))
create_audit_diff_round_trip_example = create_audit_diff_round_trip text_of before after 1

-- Texts and bytes alike: characters, or the JSON of three texts.
data Text : Type 0 where
  characters : List ℕ → Text
  triple : Text → Text → Text → Text

abbrev has_nothing : Text → Bool
has_nothing (Text.characters []) = true
has_nothing _ = false

abbrev stringified : Text × Text × Text → Text
stringified (a, b, c) = Text.triple a b c

abbrev parsed : Text → Option (Text × Text × Text)
parsed (Text.characters _) = none
parsed (Text.triple a b c) = some (a, b, c)

abbrev node : Node Text Text
node = record {
  is_empty = has_nothing;
  no_bytes = has_nothing;
  is_well_formed = λ _. true;
  scrypt = λ secret salt. secret;
  default_salt = Text.characters (1 ∷ []);
  seal = λ key iv plain. (plain, Text.characters (7 ∷ []));
  unseal = λ key iv tag c. some c;
  to_utf8 = λ t. t;
  from_utf8 = λ t. t;
  to_base64 = λ t. t;
  from_base64 = λ t. t;
  stringify = stringified;
  parse = parsed;
  unseal-seal = λ key iv plain. refl;
  seal_length = λ key iv plain. refl;
  seal_tag = λ key iv plain. refl;
  from-to_utf8 = λ t h. refl;
  to_utf8_length = λ t. refl;
  from-to_base64 = λ t. refl;
  to_base64_length = λ t. refl;
  parse-stringify = λ a b c. refl;
  stringify_well_formed = λ a b c. refl;
}

abbrev process : Env Text Text
process = record {
  encryption_key = some (Text.characters (5 ∷ []));
  encryption_salt = none;
  random_iv = Text.characters (9 ∷ []);
}

abbrev pin : Text
pin = Text.characters (112 ∷ 105 ∷ 110 ∷ [])

decrypt_string-encrypt_string_example :
    (encoded : Text) × (encrypt_string node pin process ≡ (ok encoded, process))
    × (decrypt_string node encoded (record process { random_iv = pin })
        ≡ (ok pin, record process { random_iv = pin }))
decrypt_string-encrypt_string_example =
    decrypt_string-encrypt_string node process (Text.characters (5 ∷ [])) pin pin refl refl refl
      refl refl
