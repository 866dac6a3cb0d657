-- ===== src/Accounts/Users.antt =====
-- `SqliteUserStore` of auth/store.py. The table is the list of its rows, in the order of insertion.
use coruscant.Prelude.{
  ℕ, String, Bool, Option, none, some, List, [], ◌∷◌, ◌++◌, length, ◌==◌, if◌then◌else◌, string_eq,
  string_ord, Result, ok, raise, user_exists_error, false,
}
use coruscant.Prelude.Sort.{sort_by}

pub record StoredUser : Type 0 where
  pub email : String
  pub password_hash : String
  pub created_at : String
  pub role : String
  pub reset_token : Option String
  pub reset_expires : Option ℕ

-- `get`
unfoldable pub get : String → List StoredUser → Option StoredUser
get email [] = none
get email (row ∷ rows) = let rest = get email rows in if row.email == email then some row else rest

unfoldable pub create_user :
    String → String → String → String → List StoredUser → Result StoredUser × List StoredUser
unfolding get
create_user email password_hash created_at role rows =
    let row : StoredUser = record {
      email = email;
      password_hash = password_hash;
      created_at = created_at;
      role = role;
      reset_token = none;
      reset_expires = none;
    } in
    elim (get email rows) [
      | some taken ↦ (raise user_exists_error, rows)
      | none ↦ (ok row, rows ++ row ∷ [])
    ]

-- The change of the row of an email.
unfoldable pub update : String → (StoredUser → StoredUser) → List StoredUser → List StoredUser
update email change [] = []
update email change (row ∷ rows) =
    let rest = update email change rows in
    if row.email == email then change row ∷ rows else row ∷ rest

abbrev pub with_password : String → StoredUser → StoredUser
with_password password_hash row = record row {
  password_hash = password_hash;
  reset_token = none;
  reset_expires = none;
}

abbrev pub with_reset : String → ℕ → StoredUser → StoredUser
with_reset token expires row = record row { reset_token = some token; reset_expires = some expires }

unfoldable pub set_password : String → String → List StoredUser → List StoredUser
unfolding update
set_password email password_hash rows = update email (with_password password_hash) rows

unfoldable pub set_reset : String → String → ℕ → List StoredUser → List StoredUser
unfolding update
set_reset email token expires rows = update email (with_reset token expires) rows

-- `UserRow.reset_token == token`: no row without a token is found
abbrev pub has_token : String → StoredUser → Bool
has_token token row = elim row.reset_token [ none ↦ false | some held ↦ held == token ]

unfoldable pub get_by_reset_token : String → List StoredUser → Option StoredUser
get_by_reset_token token [] = none
get_by_reset_token token (row ∷ rows) =
    let rest = get_by_reset_token token rows in if has_token token row then some row else rest

unfoldable pub user_count : List StoredUser → ℕ
user_count rows = length rows

unfoldable pub list_users : List StoredUser → List StoredUser
list_users rows = sort_by (λ row. row.created_at) rows
