-- ===== src/ApiKeys/Resolving.antt =====
-- A key that was made, and whom it stands for.
use Prim.Native.String.{◌++◌ as ◌<>◌, String}
use Prim.Native.String.append
use coruscant.Prelude.{
  List, [], ◌∷◌, ◌++◌, Option, ◌≡◌, none, some, true, refl, inl, inr, ok, raise, arith, ap, sym,
  subst, string_eq, ◌∙◌, ℕ, Result, Result, Option-cases, if◌then◌else◌, integrity_error, elem,
  ◌&&◌,
}
use coruscant.ApiKeys.Store.{
  Codec, starts_with, find_hash, ApiKeyRow, ApiKeyRow, dump_scopes, create, create, granted,
  ApiKeyCreated, ApiKeyCreated, resolve_principal, find_id, find_id, is_expired, key_prefix,
  load_scopes, masked, known_scopes,
}
use coruscant.ApiKeys.Scopes.{asked, IsJson, elem-load_scopes-dump_scopes, elem-granted}

starts_with-append : (p s : String) → starts_with p (p <> s) ≡ true
unfolding starts_with
starts_with-append String.[] s = refl
starts_with-append (String.◌∷◌ c p) s =
    ap (starts_with (String.◌∷◌ c p)) (λ i. append.cons c p s i)
    ∙ ground (arith, starts_with-append p s)

find_hash-append :
    (hash : String) (rows : List ApiKeyRow) (row : ApiKeyRow)
    → find_hash hash rows ≡ none
    → row.key_hash ≡ hash
    → find_hash hash (rows ++ row ∷ []) ≡ some row
unfolding find_hash
find_hash-append hash [] row missing same = ground (arith, string_eq.same_iff row.key_hash hash)
find_hash-append hash (r ∷ rows) row missing same = ground (arith, find_hash-append hash rows row)

module _ (c : Codec) (user_email name created_at : String) (scopes : Option (List String))
    (expires_at : Option String) (id token : String) where
  -- The row and the answer of a key that is made.
  abbrev pub row_made : ApiKeyRow
  row_made = record {
    id = id;
    user_email = user_email;
    name = name;
    key_hash = c.hash (key_prefix <> token);
    display = masked (key_prefix <> token);
    created_at = created_at;
    scopes = some (dump_scopes c (granted scopes));
    expires_at = expires_at;
  }

  abbrev key_made : ApiKeyCreated
  key_made = record {
    key = record {
      id = id;
      name = name;
      display = masked (key_prefix <> token);
      created_at = created_at;
      scopes = granted scopes;
      expires_at = expires_at;
    };
    secret = key_prefix <> token;
  }

module _ (c : Codec) (user_email name created_at : String) (scopes : Option (List String))
    (expires_at : Option String) (id token : String) (rows : List ApiKeyRow) (now : ℕ) where
  -- The text of the scopes that a new row has.
  abbrev pub stored : Option String
  stored = some (dump_scopes c (granted scopes))

  -- What the making of a key has done, by how it ended.
  abbrev pub Making : Result ApiKeyCreated × List ApiKeyRow → Type 0
  Making (ok made, after) =
      (resolve_principal c made.secret now after ≡ (
        if is_expired c expires_at now
        then none
        else some (record { user_email = user_email; scopes = load_scopes c stored })))
      × ((s : String)
          → elem s (load_scopes c stored) ≡ elem s (asked scopes) && elem s known_scopes)
  Making (raise e, after) = after ≡ rows

  abbrev pub made_key : Result ApiKeyCreated × List ApiKeyRow
  made_key = create c user_email name created_at scopes expires_at id token rows

  new_key :
      IsJson c
      → find_id id rows ≡ none
      → find_hash (c.hash (key_prefix <> token)) rows ≡ none
      → Making made_key
  unfolding create resolve_principal
  new_key json fresh unseen =
      let raw = key_prefix <> token in
      let row = row_made c user_email name created_at scopes expires_at id token in
      let key = key_made c user_email name created_at scopes expires_at id token in
      let same : made_key ≡ (ok key, rows ++ row ∷ []) = ground (arith, fresh, unseen) in
      subst Making (sym same) (
        ground (
          arith,
          starts_with-append key_prefix token,
          find_hash-append (c.hash raw) rows row unseen refl,
        ),
        λ s. elem-load_scopes-dump_scopes c json s (granted scopes) ∙ elem-granted s scopes,
      )

  -- If JSON gives lists of texts back: the making of a key changes nothing when it raises; else the
  -- secret stands for the user, with the known ones among the scopes that were asked for, until the
  -- expiry, and for nobody from then on.
  pub create-Making : IsJson c → Making made_key
  unfolding create
  create-Making json = elim (Option-cases (find_id id rows)) [
    | inr (taken, found) ↦
        let same : made_key ≡ (raise integrity_error, rows) = ground (arith, found) in
        subst Making (sym same) refl
    | inl fresh ↦ elim (Option-cases (find_hash (c.hash (key_prefix <> token)) rows)) [
      | inr (taken, found) ↦
          let same : made_key ≡ (raise integrity_error, rows) = ground (arith, fresh, found) in
          subst Making (sym same) refl
      | inl unseen ↦ new_key json fresh unseen
    ]
  ]
