-- ===== src/ApiKeys/Store.antt =====
-- `SqliteApiKeyStore`. The table is the list of its rows, in the order of insertion. The clock and what
-- `secrets` makes are arguments.
use Prim.Native.Char.{code}
use Prim.Native.String.{count, ◌++◌ as ◌<>◌}
use coruscant.Prelude.{
  ℕ, zero, suc, ◌-◌, String, Bool, true, false, not, ◌&&◌, Option, none, some, List, [], ◌∷◌, ◌++◌,
  map, keep, elem, leb, ◌==◌, if◌then◌else◌, string_eq, nat_eq, string_ord, Result, ok, raise,
  integrity_error,
}
use coruscant.Prelude.Sort.{sort_by}
use coruscant.Prelude.Groups.{set_of}

-- The standard library: SHA-256, JSON and dates. `none` stands for a text that is no list, or no date;
-- a date is the second that it names.
pub record Codec : Type 0 where
  pub hash : String → String
  pub dumps : List String → String
  pub loads : String → Option (List String)
  pub from_iso : String → Option ℕ

pub record ApiKeyRow : Type 0 where
  pub id : String
  pub user_email : String
  pub name : String
  pub key_hash : String
  pub display : String
  pub created_at : String
  pub scopes : Option String
  pub expires_at : Option String

pub record ApiKey : Type 0 where
  pub id : String
  pub name : String
  pub display : String
  pub created_at : String
  pub scopes : List String
  pub expires_at : Option String

pub record ApiKeyCreated : Type 0 where
  pub key : ApiKey
  pub secret : String

pub record ApiKeyPrincipal : Type 0 where
  pub user_email : String
  pub scopes : List String

-- `_PREFIX` and `KNOWN_SCOPES`
abbrev pub key_prefix : String
key_prefix = "csk_"

abbrev pub known_scopes : List String
known_scopes = "admin" ∷ "enterprise" ∷ []

unfoldable pub starts_with : String → String → Bool
starts_with String.[] s = true
starts_with (String.◌∷◌ c p) String.[] = false
starts_with (String.◌∷◌ c p) (String.◌∷◌ d s) = code c == code d && starts_with p s

-- `s[:n]` and `s[n:]`
unfoldable pub first_part : ℕ → String → String
first_part zero s = ""
first_part (suc n) String.[] = ""
first_part (suc n) (String.◌∷◌ c s) = String.◌∷◌ c (first_part n s)

unfoldable pub last_part : ℕ → String → String
last_part zero s = s
last_part (suc n) String.[] = ""
last_part (suc n) (String.◌∷◌ c s) = last_part n s

unfoldable pub masked : String → String
unfolding first_part last_part
masked raw = first_part 10 raw <> ("…" <> last_part (count raw - 4) raw)

-- `session.get(ApiKeyRow, id)`
unfoldable pub find_id : String → List ApiKeyRow → Option ApiKeyRow
find_id id [] = none
find_id id (row ∷ rows) = let rest = find_id id rows in if row.id == id then some row else rest

-- the row of a hash
unfoldable pub find_hash : String → List ApiKeyRow → Option ApiKeyRow
find_hash hash [] = none
find_hash hash (row ∷ rows) =
    let rest = find_hash hash rows in if row.key_hash == hash then some row else rest

-- The scopes that a key gets of those that are asked for.
unfoldable pub granted : Option (List String) → List String
granted none = []
granted (some scopes) = sort_by (λ s. s) (keep (λ s. elem s known_scopes) (set_of scopes))

module _ (c : Codec) where
  unfoldable pub dump_scopes : List String → String
  dump_scopes scopes = c.dumps (sort_by (λ s. s) (set_of scopes))

  unfoldable pub load_scopes : Option String → List String
  load_scopes none = []
  load_scopes (some raw) =
      if raw == "" then [] else elim (c.loads raw) [ none ↦ [] | some values ↦ set_of values ]

  unfoldable pub is_expired : Option String → ℕ → Bool
  is_expired none now = false
  is_expired (some text) now =
      if text == ""
      then false
      else elim (c.from_iso text) [ none ↦ true | some moment ↦ leb moment now ]

  -- The id and the token are made by `secrets`; the ids and the hashes of the table are unique.
  unfoldable pub create :
      String
      → String
      → String
      → Option (List String)
      → Option String
      → String
      → String
      → List ApiKeyRow
      → Result ApiKeyCreated × List ApiKeyRow
  unfolding granted masked dump_scopes find_id find_hash
  create user_email name created_at scopes expires_at id token rows =
      let raw = key_prefix <> token in
      let key : ApiKey = record {
        id = id;
        name = name;
        display = masked raw;
        created_at = created_at;
        scopes = granted scopes;
        expires_at = expires_at;
      } in
      let row : ApiKeyRow = record {
        id = id;
        user_email = user_email;
        name = name;
        key_hash = c.hash raw;
        display = masked raw;
        created_at = created_at;
        scopes = some (dump_scopes (granted scopes));
        expires_at = expires_at;
      } in
      elim (find_id id rows) [
        | some taken ↦ (raise integrity_error, rows)
        | none ↦ elim (find_hash (c.hash raw) rows) [
          | some taken ↦ (raise integrity_error, rows)
          | none ↦ (ok (record { key = key; secret = raw }), rows ++ row ∷ [])
        ]
      ]

  unfoldable pub resolve_principal : String → ℕ → List ApiKeyRow → Option ApiKeyPrincipal
  unfolding starts_with find_hash is_expired load_scopes
  resolve_principal raw now rows =
      if not (starts_with key_prefix raw) then none else elim (find_hash (c.hash raw) rows) [
        | none ↦ none
        | some row ↦
            if is_expired row.expires_at now
            then none
            else some (record { user_email = row.user_email; scopes = load_scopes row.scopes })
      ]

  unfoldable pub resolve : String → ℕ → List ApiKeyRow → Option String
  resolve raw now rows = elim (resolve_principal raw now rows) [
    | none ↦ none
    | some principal ↦ some principal.user_email
  ]

  unfoldable pub list_keys : String → List ApiKeyRow → List ApiKey
  unfolding load_scopes
  list_keys user_email rows =
      map
        (λ (row : ApiKeyRow). record {
          id = row.id;
          name = row.name;
          display = row.display;
          created_at = row.created_at;
          scopes = sort_by (λ s. s) (load_scopes row.scopes);
          expires_at = row.expires_at;
        })
        (sort_by (λ row. row.created_at) (keep (λ row. row.user_email == user_email) rows))

-- Only the owner of a key revokes it.
unfoldable pub revoke : String → String → List ApiKeyRow → Bool × List ApiKeyRow
unfolding find_id
revoke user_email id rows = elim (find_id id rows) [
  | none ↦ (false, rows)
  | some row ↦
      if not (row.user_email == user_email)
      then (false, rows)
      else (true, keep (λ other. not (other.id == id)) rows)
]
