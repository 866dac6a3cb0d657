-- ===== src/Accounts/Reset.antt =====
-- Password reset.
use coruscant.Prelude.{
  ℕ, ◌<◌, ◌≡◌, refl, sym, ap, ◌∙◌, subst, String, Bool, true, false, none, some, List, [], ◌∷◌, map,
  elem, Distinct, arith, leb, ltb, ◌==◌, string_eq, Result, ok, raise, auth_error, Option-cases,
  Bool-cases, inl, inr,
}
use Prim.Native.String.{count}
use coruscant.Accounts.Security.{Platform, hash_password}
use coruscant.Accounts.Users.{
  StoredUser, get, update, with_password, has_token, set_password, get_by_reset_token,
}
use coruscant.Accounts.Service.{confirm_reset, min_password_length}

-- No two accounts have the same email, and no two hold the same reset token.
abbrev pub tokens : List StoredUser → List String
tokens [] = []
tokens (row ∷ rows) = elim row.reset_token [ none ↦ tokens rows | some token ↦ token ∷ tokens rows ]

abbrev pub IsValid : List StoredUser → Type 0
IsValid users = Distinct (map (λ row. row.email) users) × Distinct (tokens users)

-- The other accounts keep their rows.
get-update :
    (email other : String) (change : StoredUser → StoredUser) (rows : List StoredUser)
    → ((row : StoredUser) → (change row).email ≡ row.email)
    → (email == other) ≡ false
    → get other (update email change rows) ≡ get other rows
unfolding get update
get-update email other change [] keeps ne = refl
get-update email other change (row ∷ rows) keeps ne = ground (
  arith,
  get-update email other change rows keeps ne,
  keeps row,
  string_eq.same_iff row.email email,
  string_eq.same_iff row.email other,
  string_eq.same_iff (change row).email other,
  string_eq.same_iff email other,
)

-- A token that nobody holds finds nobody.
absent_token :
    (token : String) (rows : List StoredUser)
    → elem token (tokens rows) ≡ false
    → get_by_reset_token token rows ≡ none
unfolding get_by_reset_token
absent_token token [] h = refl
absent_token token (row ∷ rows) h = elim (Option-cases row.reset_token) [
  | inl empty ↦ ground (arith, empty, h, absent_token token rows)
  | inr (held, is) ↦ ground (
    arith,
    is,
    h,
    absent_token token rows,
    string_eq.same_iff token held,
    string_eq.same_iff held token,
  )
]

found_email :
    (token : String) (rows : List StoredUser) {user : StoredUser}
    → get_by_reset_token token rows ≡ some user
    → elem user.email (map (λ row. row.email) rows) ≡ true
unfolding get_by_reset_token
found_email token [] h = absurd (cc h)
found_email token (row ∷ rows) {user} h = elim (Bool-cases (has_token token row)) [
  | inl held ↦
      let is : row ≡ user = ground (arith, held, h) in
      let same : user.email ≡ row.email = ap (λ (x : StoredUser). x.email) (sym is) in
      ground (arith, (string_eq.same_iff user.email row.email).1 same)
  | inr other ↦
      let later : get_by_reset_token token rows ≡ some user = ground (arith, other, h) in
      ground (arith, found_email token rows later)
]

-- A row that holds the token holds no other, and no row after it holds it.
held_token :
    (token : String) (row : StoredUser) (rows : List StoredUser)
    → Distinct (tokens (row ∷ rows))
    → has_token token row ≡ true
    → elem token (tokens rows) ≡ false
held_token token row rows d h = elim (Option-cases row.reset_token) [
  | inl empty ↦ absurd (ground (arith, empty, h))
  | inr (held, is) ↦
      let same : held ≡ token = (string_eq.same_iff held token).0 (ground (arith, is, h)) in
      let apart : elem held (tokens rows) ≡ false = ground (arith, is, d) in
      ap (λ k. elem k (tokens rows)) (sym same) ∙ apart
]

later_tokens :
    (row : StoredUser) (rows : List StoredUser)
    → Distinct (tokens (row ∷ rows))
    → Distinct (tokens rows)
later_tokens row rows d = elim (Option-cases row.reset_token) [
  | inl empty ↦ ground (arith, empty, d)
  | inr (held, is) ↦ ground (arith, is, d)
]

-- The token of an account goes with its new password.
used_token :
    (token hash : String) (rows : List StoredUser) {user : StoredUser}
    → IsValid rows
    → get_by_reset_token token rows ≡ some user
    → get_by_reset_token token (set_password user.email hash rows) ≡ none
unfolding get_by_reset_token set_password update
used_token token hash [] {user} v h = refl
used_token token hash (row ∷ rows) {user} v h = elim (Bool-cases (has_token token row)) [
  | inl held ↦
      let is : row ≡ user = ground (arith, held, h) in
      let same : (row.email == user.email) ≡ true =
        (string_eq.same_iff row.email user.email).1 (ap (λ (x : StoredUser). x.email) is) in
      ground (arith, same, absent_token token rows (held_token token row rows v.1 held))
  | inr other ↦
      let later : get_by_reset_token token rows ≡ some user = ground (arith, other, h) in
      let listed = found_email token rows later in
      let apart : (row.email == user.email) ≡ false = ground (
        arith,
        v.0.0,
        listed,
        string_eq.same_iff row.email user.email,
        λ (q : row.email ≡ user.email). ap (λ k. elem k (map (λ (x : StoredUser). x.email) rows)) q,
      ) in
      ground
        (arith, apart, other, used_token token hash rows (v.0.1, later_tokens row rows v.1) later)
]

module _ (p : Platform) (secret : String) (token_ttl reset_ttl : ℕ)
    (token new_password salt : String) (now : ℕ) (users : List StoredUser) where
  -- What a confirmation has done, by how it ended.
  abbrev pub Outcome : Result Bool × List StoredUser → Type 0
  Outcome (ok true, after) =
      (user : StoredUser) × (expires : ℕ) × (get_by_reset_token token users ≡ some user)
      × (user.reset_expires ≡ some expires)
      × (now < expires)
      × (after ≡ set_password user.email (hash_password p salt new_password) users)
      × (get_by_reset_token token after ≡ none)
      × ((other : String) → (user.email == other) ≡ false → get other after ≡ get other users)
  Outcome (ok false, after) = after ≡ users
  Outcome (raise e, after) = (after ≡ users) × (count new_password < min_password_length)

  abbrev pub confirmed : Result Bool × List StoredUser
  confirmed = confirm_reset p secret token_ttl reset_ttl token new_password salt now users

  accepted :
      (user : StoredUser) (expires : ℕ)
      → IsValid users
      → ltb (count new_password) min_password_length ≡ false
      → get_by_reset_token token users ≡ some user
      → user.reset_expires ≡ some expires
      → leb expires now ≡ false
      → Outcome confirmed
  unfolding confirm_reset set_password
  accepted user expires valid long found dated early =
      let hash = hash_password p salt new_password in
      let same : confirmed ≡ (ok true, set_password user.email hash users) =
        ground (arith, long, found, dated, early) in
      subst Outcome (sym same) (
        user,
        expires,
        found,
        dated,
        ground (arith, early),
        refl,
        used_token token hash users valid found,
        λ other ne. get-update user.email other (with_password hash) users (λ row. refl) ne,
      )

  -- In a table where no two accounts share an email or a reset token: a confirmation that raises or
  -- refuses changes nothing, and it raises only for a short password; one that succeeds sets the password
  -- of the account that holds the token, before the token expires, leaves the other accounts alone, and
  -- uses the token up.
  pub confirm_reset-Outcome : IsValid users → Outcome confirmed
  unfolding confirm_reset
  confirm_reset-Outcome valid = elim (Bool-cases (ltb (count new_password) min_password_length)) [
    | inl short ↦
        let same : confirmed ≡ (raise auth_error, users) = ground (arith, short) in
        subst Outcome (sym same) (refl, ground (arith, short))
    | inr long ↦ elim (Option-cases (get_by_reset_token token users)) [
      | inl missing ↦
          let same : confirmed ≡ (ok false, users) = ground (arith, long, missing) in
          subst Outcome (sym same) refl
      | inr (user, found) ↦ elim (Option-cases user.reset_expires) [
        | inl undated ↦
            let same : confirmed ≡ (ok false, users) = ground (arith, long, found, undated) in
            subst Outcome (sym same) refl
        | inr (expires, dated) ↦ elim (Bool-cases (leb expires now)) [
          | inl late ↦
              let same : confirmed ≡ (ok false, users) = ground (arith, long, found, dated, late) in
              subst Outcome (sym same) refl
          | inr early ↦ accepted user expires valid long found dated early
        ]
      ]
    ]
  ]
