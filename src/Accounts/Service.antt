-- ===== src/Accounts/Service.antt =====
-- `AuthService` of auth/service.py. A method takes the users' table and returns the one that it leaves.
-- The clock, the salts and the reset tokens are arguments.
use Prim.Native.Char.{code}
use Prim.Native.String.{count}
use coruscant.Prelude.{
  ℕ, ◌+◌, String, Bool, not, ◌&&◌, ◌||◌, Option, none, some, List, [], ◌∷◌, ◌==◌, ltb, leb,
  if◌then◌else◌, string_eq, nat_eq, Result, ok, raise, auth_error, token_error, user_exists_error,
  false, true,
}
use coruscant.Accounts.Security.{
  Platform, split, hash_password, verify_password, create_token, decode_token,
}
use coruscant.Accounts.Users.{
  StoredUser, get, create_user, set_password, set_reset, get_by_reset_token,
}

-- `MIN_PASSWORD_LENGTH`
abbrev pub min_password_length : ℕ
min_password_length = 8

-- The `$` of a pattern stands before a newline at the end, too.
unfoldable pub drop_newline : String → String
drop_newline String.[] = String.[]
drop_newline (String.◌∷◌ c s) =
    let rest = drop_newline s in if code c == 10 && s == "" then String.[] else String.◌∷◌ c rest

-- Whether a `.` stands before the last character.
unfoldable pub inner_dot : String → Bool
inner_dot String.[] = false
inner_dot (String.◌∷◌ c s) = code c == 46 && not (s == "") || inner_dot s

-- `[^@\s]+\.[^@\s]+`, for a text without `@` and white space
unfoldable pub is_domain : String → Bool
unfolding inner_dot
is_domain String.[] = false
is_domain (String.◌∷◌ c s) = inner_dot s

module _ (p : Platform) where
  unfoldable pub has_space : String → Bool
  has_space String.[] = false
  has_space (String.◌∷◌ c s) = p.is_space c || has_space s

  -- `_EMAIL_RE.match`
  unfoldable pub is_email : String → Bool
  unfolding split has_space is_domain drop_newline
  is_email email = elim (split 64 (drop_newline email)) [
    | [] ↦ false
    | local ∷ [] ↦ false
    | local ∷ domain ∷ [] ↦
        not (local == "") && not (has_space local) && not (has_space domain) && is_domain domain
    | local ∷ domain ∷ extra ∷ more ↦ false
  ]

  -- `_normalize_email`
  unfoldable pub normalize_email : String → String
  normalize_email email = p.lower (p.strip email)

  unfoldable pub register :
      String
      → String
      → String
      → String
      → String
      → List StoredUser
      → Result StoredUser × List StoredUser
  unfolding is_email normalize_email
  register email password role salt created_at users =
      let address = normalize_email email in
      if not (is_email address)
      then (raise auth_error, users)
      else if ltb (count password) min_password_length
      then (raise auth_error, users)
      else let (r, after) =
          create_user address (hash_password p salt password) created_at role users in
        elim r [
          | ok user ↦ (ok user, after)
          | raise user_exists_error ↦ (raise auth_error, after)
          | raise e ↦ (raise e, after)
        ]

  module _ (secret : String) (token_ttl reset_ttl : ℕ) where
    unfoldable pub issue_token : String → ℕ → String
    issue_token email now = create_token p email secret token_ttl now

    unfoldable pub authenticate : String → String → ℕ → List StoredUser → Result String
    unfolding issue_token normalize_email
    authenticate email password now users = elim (get (normalize_email email) users) [
      | none ↦ raise auth_error
      | some user ↦
          if verify_password p password user.password_hash
          then ok (issue_token user.email now)
          else raise auth_error
    ]

    unfoldable pub user_from_token : String → ℕ → List StoredUser → Result (Option StoredUser)
    user_from_token token now users = elim (decode_token p token secret now) [
      | raise token_error ↦ ok none
      | raise e ↦ raise e
      | ok claims ↦ elim claims.subject [ none ↦ ok none | some subject ↦ ok (get subject users) ]
    ]

    -- The token that is made, or none for an unknown account.
    unfoldable pub request_reset :
        String → String → ℕ → List StoredUser → Option String × List StoredUser
    unfolding normalize_email
    request_reset email token now users = elim (get (normalize_email email) users) [
      | none ↦ (none, users)
      | some user ↦ (some token, set_reset user.email token (now + reset_ttl) users)
    ]

    unfoldable pub confirm_reset :
        String → String → String → ℕ → List StoredUser → Result Bool × List StoredUser
    confirm_reset token new_password salt now users =
        if ltb (count new_password) min_password_length
        then (raise auth_error, users)
        else elim (get_by_reset_token token users) [
          | none ↦ (ok false, users)
          | some user ↦ elim user.reset_expires [
            | none ↦ (ok false, users)
            | some expires ↦
                if leb expires now
                then (ok false, users)
                else (ok true, set_password user.email (hash_password p salt new_password) users)
          ]
        ]
