-- ===== src/Accounts/Tests.antt =====
-- Runs of the service with a small platform, and each theorem at concrete tables.
use Prim.Native.Char.{Char, code}
use coruscant.Prelude.{
  refl, ap, ◌∙◌, arith, if◌then◌else◌, String, String, ◌==◌, ◌==◌, String, String, none, ◌≡◌, ◌≡◌,
  ◌≡◌, ◌≡◌, ◌∷◌, String, some, ◌≡◌, ◌∷◌, ◌∷◌, ◌||◌, false, false, true, Result, Result, false, ok,
  [], [], Result, [], [], string_eq, pair_eq, nat_eq, leb, ltb, List, List, raise, ℕ, Bool,
  Bool-cases, auth_error, type_error, ◌<◌, inl, inr,
}
use coruscant.Accounts.Security.{
  Platform, is_ascii, has, split, decode_token, joined_by, create_token, hash_password,
  verify_parts, verify_password, signature_of, read_payload,
}
use coruscant.Accounts.Users.{
  StoredUser, get, create_user, update, set_password, set_reset, get_by_reset_token,
}
use coruscant.Accounts.Service.{
  register, request_reset, confirm_reset, drop_newline, inner_dot, is_domain, has_space, is_email,
  normalize_email, issue_token, authenticate, user_from_token,
}
use coruscant.Accounts.Login.{
  IsCodec, IsHashing, decode_token-create_token, register-authenticate-user_from_token,
}
use coruscant.Accounts.Reset.{IsValid, Outcome, confirmed, confirm_reset-Outcome}

program : Unit {0}
unfolding split has is_ascii joined_by hash_password verify_parts verify_password signature_of
    create_token read_payload decode_token get create_user update set_password set_reset
    get_by_reset_token drop_newline inner_dot is_domain has_space is_email normalize_email register
    issue_token authenticate user_from_token request_reset confirm_reset
program = tt

abbrev plain : Char → Char
plain c = if code c == 46 || leb 128 (code c) then "_" else c

abbrev encode : String → String
encode String.[] = String.[]
encode (String.◌∷◌ c s) = String.◌∷◌ (plain c) (encode s)

abbrev decode : String → String
decode String.[] = String.[]
decode (String.◌∷◌ c s) = String.◌∷◌ (if code c == 95 then "." else c) (decode s)

abbrev platform : Platform
platform = record {
  strip = λ s. s;
  lower = λ s. s;
  is_space = λ c. code c == 32;
  pbkdf2 = λ password salt rounds. password;
  hmac = λ secret text. secret;
  b64encode = encode;
  b64decode = λ s. some (decode s);
  header = "alg";
  dumps = λ subject issued expiry. subject;
  loads = λ s. some record { subject = some s; expiry = some 60 };
  show = λ n. "240000";
  int_of = λ s. some 240000;
}

-- No character is a dot, and every one is ASCII.
code-plain : (c : Char) → ((code (plain c) == 46) ≡ false) × (ltb (code (plain c)) 128 ≡ true)
code-plain c = elim (Bool-cases (code c == 46 || leb 128 (code c))) [
  | inl odd ↦ (
    ap (λ k. code (if k then "_" else c) == 46) odd,
    ap (λ k. ltb (code (if k then "_" else c)) 128) odd,
  )
  | inr even ↦ (
    ap (λ k. code (if k then "_" else c) == 46) even ∙ ground (arith, even),
    ap (λ k. ltb (code (if k then "_" else c)) 128) even ∙ ground (arith, even),
  )
]

has-encode : (s : String) → has 46 (encode s) ≡ false
unfolding has
has-encode String.[] = refl
has-encode (String.◌∷◌ c s) = ground (arith, (code-plain c).0, has-encode s)

is_ascii-encode : (s : String) → is_ascii (encode s) ≡ true
unfolding is_ascii
is_ascii-encode String.[] = refl
is_ascii-encode (String.◌∷◌ c s) = ground (arith, (code-plain c).1, is_ascii-encode s)

abbrev ann : StoredUser
ann = record {
  email = "ann@b.c";
  password_hash = "pbkdf2_sha256$240000$salt$password";
  created_at = "2026-01-01";
  role = "analyst";
  reset_token = none;
  reset_expires = none;
}

register_test :
    ◌≡◌ {A = Result StoredUser × List StoredUser}
      (register platform "ann@b.c" "password" "analyst" "salt" "2026-01-01" [])
      (ok ann, ann ∷ [])
unfolding program
register_test = refl

short_test :
    ◌≡◌ {A = Result StoredUser × List StoredUser}
      (register platform "ann@b.c" "passwor" "analyst" "salt" "2026-01-01" [])
      (raise auth_error, [])
unfolding program
short_test = refl

email_test : is_email platform "ann@bc." ≡ false
unfolding program
email_test = refl

codec : IsCodec platform "ann@b.c" 0 60
unfolding program
codec = record {
  header_plain = refl;
  payload_plain = refl;
  signature_plain = has-encode;
  signature_ascii = is_ascii-encode;
  bytes_back = refl;
  claims_back = refl;
}

hashing : IsHashing platform "salt" "password"
unfolding program
hashing = record {
  rounds_plain = refl;
  rounds_back = refl;
  salt_plain = refl;
  salt_back = refl;
  digest_plain = refl;
  digest_back = refl;
}

decode_token-create_token_example :
    decode_token platform (create_token platform "ann@b.c" "key" 60 0) "key" 59
    ≡ ok (record { subject = some "ann@b.c"; expiry = some 60 })
decode_token-create_token_example = decode_token-create_token platform "ann@b.c" "key" 60 0 codec 59

-- The signature of a token is not a text of ASCII.
foreign_test : user_from_token platform "key" 60 60 "a.b.é" 0 (ann ∷ []) ≡ raise type_error
unfolding program
foreign_test = refl

register-authenticate-user_from_token_example :
    (token : String) × (authenticate platform "key" 60 60 "ann@b.c" "password" 0 (ann ∷ [])
      ≡ ok token)
    × ((now : ℕ)
        → now < 60
        → user_from_token platform "key" 60 60 token now (ann ∷ []) ≡ ok (some ann))
register-authenticate-user_from_token_example =
    register-authenticate-user_from_token platform "key" 60 60 "ann@b.c" "password" "analyst" "salt"
      "2026-01-01" 0 [] hashing codec register_test

abbrev asked : StoredUser
asked = record ann { reset_token = some "t"; reset_expires = some 100 }

reset_test :
    ◌≡◌ {A = Result Bool × List StoredUser}
      (confirm_reset platform "key" 60 60 "t" "new password" "salt" 99 (asked ∷ []))
      (ok true, record ann { password_hash = "pbkdf2_sha256$240000$salt$new password" } ∷ [])
unfolding program
reset_test = refl

asked-IsValid : IsValid (asked ∷ [])
asked-IsValid = ((refl, tt), (refl, tt))

confirm_reset-Outcome_example :
    Outcome platform "key" 60 60 "t" "new password" "salt" 99
      (asked ∷ [])
      (confirmed platform "key" 60 60 "t" "new password" "salt" 99 (asked ∷ []))
confirm_reset-Outcome_example =
    confirm_reset-Outcome platform "key" 60 60 "t" "new password" "salt" 99 (asked ∷ [])
      asked-IsValid
