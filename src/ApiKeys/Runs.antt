-- ===== src/ApiKeys/Runs.antt =====
-- The table over the life of its keys.
use Prim.Native.String.{◌++◌ as ◌<>◌}
use coruscant.Prelude.{
  ℕ, ◌≡◌, sym, subst, String, Bool, true, not, Option, some, List, [], ◌∷◌, ◌++◌, keep, elem, All,
  arith, ◌==◌, ap, string_eq, Option-cases, Bool-cases, inl, inr, All-append, ◌∙◌,
}
use coruscant.ApiKeys.Store.{
  Codec, ApiKeyRow, ApiKeyPrincipal, create, revoke, resolve_principal, find_id, find_hash,
  known_scopes, load_scopes, granted, key_prefix,
}
use coruscant.ApiKeys.Resolving.{row_made}
use coruscant.ApiKeys.Scopes.{IsJson, elem-granted, elem-load_scopes-dump_scopes}

-- The two operations that write the table.
pub data Op : Type 0 where
  make :
      (user_email name created_at : String) (scopes : Option (List String))
      (expires_at : Option String) (id token : String)
      → Op
  drop : (user_email id : String) → Op

module _ (c : Codec) where
  unfoldable pub apply : Op → List ApiKeyRow → List ApiKeyRow
  apply (make user_email name created_at scopes expires_at id token) rows =
      (create c user_email name created_at scopes expires_at id token rows).1
  apply (drop user_email id) rows = (revoke user_email id rows).1

  -- The table after a sequence of operations.
  unfoldable pub run : List Op → List ApiKeyRow → List ApiKeyRow
  unfolding apply
  run [] rows = rows
  run (op ∷ ops) rows = run ops (apply op rows)

  -- A row gives known scopes only.
  abbrev IsKnown : ApiKeyRow → Type 0
  IsKnown row = (s : String) → elem s (load_scopes c row.scopes) ≡ true → elem s known_scopes ≡ true

  create-IsKnown :
      IsJson c
      → (user_email name created_at : String) (scopes : Option (List String))
        (expires_at : Option String) (id token : String) (rows : List ApiKeyRow)
      → All IsKnown rows
      → All IsKnown (create c user_email name created_at scopes expires_at id token rows).1
  unfolding create
  create-IsKnown json user_email name created_at scopes expires_at id token rows h =
      let row = row_made c user_email name created_at scopes expires_at id token in
      let after = (create c user_email name created_at scopes expires_at id token rows).1 in
      elim (Option-cases (find_id id rows)) [
        | inr (taken, found) ↦
            let same : after ≡ rows = ground (arith, found) in subst (All IsKnown) (sym same) h
        | inl fresh ↦ elim (Option-cases (find_hash (c.hash (key_prefix <> token)) rows)) [
          | inr (taken, found) ↦
              let same : after ≡ rows = ground (arith, fresh, found) in
              subst (All IsKnown) (sym same) h
          | inl unseen ↦
              let same : after ≡ rows ++ row ∷ [] = ground (arith, fresh, unseen) in
              let known : IsKnown row = λ s is. ground (
                arith,
                is,
                elem-load_scopes-dump_scopes c json s (granted scopes),
                elem-granted s scopes,
              ) in
              subst (All IsKnown) (sym same) (All-append IsKnown rows (row ∷ []) h (known, tt))
        ]
      ]

  keep-IsKnown :
      (keeps : ApiKeyRow → Bool) (rows : List ApiKeyRow)
      → All IsKnown rows
      → All IsKnown (keep keeps rows)
  keep-IsKnown keeps [] h = tt
  keep-IsKnown keeps (row ∷ rows) h = elim (Bool-cases (keeps row)) [
    | inl kept ↦ rw kept (h.0, keep-IsKnown keeps rows h.1)
    | inr gone ↦ rw gone (keep-IsKnown keeps rows h.1)
  ]

  revoke-IsKnown :
      (user_email id : String) (rows : List ApiKeyRow)
      → All IsKnown rows
      → All IsKnown (revoke user_email id rows).1
  unfolding revoke
  revoke-IsKnown user_email id rows h =
      let after = (revoke user_email id rows).1 in
      elim (Option-cases (find_id id rows)) [
        | inl missing ↦
            let same : after ≡ rows = ground (arith, missing) in subst (All IsKnown) (sym same) h
        | inr (row, found) ↦ elim (Bool-cases (row.user_email == user_email)) [
          | inl own ↦
              let same : after ≡ keep (λ other. not (other.id == id)) rows =
                ground (arith, found, own) in
              subst (All IsKnown) (sym same) (keep-IsKnown (λ other. not (other.id == id)) rows h)
          | inr foreign ↦
              let same : after ≡ rows = ground (arith, found, foreign) in
              subst (All IsKnown) (sym same) h
        ]
      ]

  found-IsKnown :
      (hash : String) (rows : List ApiKeyRow) {row : ApiKeyRow}
      → All IsKnown rows
      → find_hash hash rows ≡ some row
      → IsKnown row
  unfolding find_hash
  found-IsKnown hash [] h found = absurd (cc found)
  found-IsKnown hash (r ∷ rows) {row} h found = elim (Bool-cases (r.key_hash == hash)) [
    | inl here ↦ let is : r ≡ row = ground (arith, here, found) in subst IsKnown is h.0
    | inr later ↦
        let rest : find_hash hash rows ≡ some row = ground (arith, later, found) in
        found-IsKnown hash rows h.1 rest
  ]

  apply-IsKnown :
      IsJson c → (op : Op) (rows : List ApiKeyRow) → All IsKnown rows → All IsKnown (apply op rows)
  unfolding apply
  apply-IsKnown json (make user_email name created_at scopes expires_at id token) rows h =
      create-IsKnown json user_email name created_at scopes expires_at id token rows h
  apply-IsKnown json (drop user_email id) rows h = revoke-IsKnown user_email id rows h

  run-IsKnown :
      IsJson c
      → (ops : List Op) (rows : List ApiKeyRow) → All IsKnown rows
      → All IsKnown (run ops rows)
  unfolding run
  run-IsKnown json [] rows h = h
  run-IsKnown json (op ∷ ops) rows h =
      run-IsKnown json ops (apply op rows) (apply-IsKnown json op rows h)

  -- If JSON gives lists of texts back: whatever keys are made and revoked, starting with an empty table,
  -- and whoever asks for what, a key that is presented never carries a scope that is not known.
  pub run-resolve_principal :
      IsJson c
      → (ops : List Op) (raw : String) (now : ℕ) {principal : ApiKeyPrincipal}
      → resolve_principal c raw now (run ops []) ≡ some principal
      → (s : String) → elem s principal.scopes ≡ true
      → elem s known_scopes ≡ true
  unfolding resolve_principal
  run-resolve_principal json ops raw now {principal} h s is =
      elim (Option-cases (find_hash (c.hash raw) (run ops []))) [
        | inl missing ↦ absurd (ground (arith, missing, h))
        | inr (row, found) ↦
            let read : load_scopes c row.scopes ≡ principal.scopes = ground (arith, found, h) in
            let known =
              found-IsKnown (c.hash raw) (run ops []) (run-IsKnown json ops [] tt) found in
            known s (ap (elem s) read ∙ is)
      ]
