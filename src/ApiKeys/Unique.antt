-- ===== src/ApiKeys/Unique.antt =====
-- The ids and the hashes of the table stay unique.
use Prim.Native.String.{◌++◌ as ◌<>◌}
use coruscant.Prelude.{
  ℕ, ◌≡◌, refl, sym, subst, String, Bool, false, not, Option, none, List, [], ◌∷◌, ◌++◌, map,
  map-append, keep, elem, Distinct, Distinct-concat, arith, ◌==◌, string_eq, Option-cases,
  Bool-cases, inl, inr,
}
use coruscant.Prelude.Groups.{keep-Distinct}
use coruscant.ApiKeys.Store.{Codec, ApiKeyRow, create, revoke, find_id, find_hash, key_prefix}
use coruscant.ApiKeys.Resolving.{row_made}
use coruscant.ApiKeys.Runs.{Op, make, drop, apply, run}
use coruscant.ApiKeys.Revoking.{Revoked, revoke-Revoked}

abbrev ids : List ApiKeyRow → List String
ids rows = map (λ row. row.id) rows

abbrev hashes : List ApiKeyRow → List String
hashes rows = map (λ row. row.key_hash) rows

abbrev IsUnique : List ApiKeyRow → Type 0
IsUnique rows = Distinct (ids rows) × Distinct (hashes rows)

absent_id :
    (id : String) (rows : List ApiKeyRow) → find_id id rows ≡ none → elem id (ids rows) ≡ false
unfolding find_id
absent_id id [] h = refl
absent_id id (row ∷ rows) h =
    ground (arith, absent_id id rows, string_eq.same_iff id row.id, string_eq.same_iff row.id id)

unseen_hash :
    (hash : String) (rows : List ApiKeyRow)
    → find_hash hash rows ≡ none
    → elem hash (hashes rows) ≡ false
unfolding find_hash
unseen_hash hash [] h = refl
unseen_hash hash (row ∷ rows) h = ground (
  arith,
  unseen_hash hash rows,
  string_eq.same_iff hash row.key_hash,
  string_eq.same_iff row.key_hash hash,
)

append-IsUnique :
    (rows : List ApiKeyRow) (row : ApiKeyRow)
    → IsUnique rows
    → find_id row.id rows ≡ none
    → find_hash row.key_hash rows ≡ none
    → IsUnique (rows ++ row ∷ [])
append-IsUnique rows row u fresh unseen = (
  subst Distinct (sym (map-append (λ (r : ApiKeyRow). r.id) rows (row ∷ [])))
      (Distinct-concat row.id (ids rows) u.0 (absent_id row.id rows fresh)),
  subst Distinct (sym (map-append (λ (r : ApiKeyRow). r.key_hash) rows (row ∷ [])))
      (Distinct-concat row.key_hash (hashes rows) u.1 (unseen_hash row.key_hash rows unseen)),
)

module _ (c : Codec) where
  create-IsUnique :
      (user_email name created_at : String) (scopes : Option (List String))
      (expires_at : Option String) (id token : String) (rows : List ApiKeyRow)
      → IsUnique rows
      → IsUnique (create c user_email name created_at scopes expires_at id token rows).1
  unfolding create
  create-IsUnique user_email name created_at scopes expires_at id token rows u =
      let row = row_made c user_email name created_at scopes expires_at id token in
      let after = (create c user_email name created_at scopes expires_at id token rows).1 in
      elim (Option-cases (find_id id rows)) [
        | inr (taken, found) ↦
            let same : after ≡ rows = ground (arith, found) in subst IsUnique (sym same) u
        | inl fresh ↦ elim (Option-cases (find_hash (c.hash (key_prefix <> token)) rows)) [
          | inr (taken, found) ↦
              let same : after ≡ rows = ground (arith, fresh, found) in subst IsUnique (sym same) u
          | inl unseen ↦
              let same : after ≡ rows ++ row ∷ [] = ground (arith, fresh, unseen) in
              subst IsUnique (sym same) (append-IsUnique rows row u fresh unseen)
        ]
      ]

  revoke-IsUnique :
      (user_email id : String) (rows : List ApiKeyRow)
      → IsUnique rows
      → IsUnique (revoke user_email id rows).1
  unfolding revoke
  revoke-IsUnique user_email id rows u =
      let after = (revoke user_email id rows).1 in
      let kept : ApiKeyRow → Bool = λ other. not (other.id == id) in
      elim (Option-cases (find_id id rows)) [
        | inl missing ↦
            let same : after ≡ rows = ground (arith, missing) in subst IsUnique (sym same) u
        | inr (row, found) ↦ elim (Bool-cases (row.user_email == user_email)) [
          | inl own ↦
              let same : after ≡ keep kept rows = ground (arith, found, own) in
              subst IsUnique (sym same) (
                keep-Distinct (λ (r : ApiKeyRow). r.id) kept rows u.0,
                keep-Distinct (λ (r : ApiKeyRow). r.key_hash) kept rows u.1,
              )
          | inr foreign ↦
              let same : after ≡ rows = ground (arith, found, foreign) in
              subst IsUnique (sym same) u
        ]
      ]

  apply-IsUnique : (op : Op) (rows : List ApiKeyRow) → IsUnique rows → IsUnique (apply c op rows)
  unfolding apply
  apply-IsUnique (make user_email name created_at scopes expires_at id token) rows u =
      create-IsUnique user_email name created_at scopes expires_at id token rows u
  apply-IsUnique (drop user_email id) rows u = revoke-IsUnique user_email id rows u

  run-IsUnique : (ops : List Op) (rows : List ApiKeyRow) → IsUnique rows → IsUnique (run c ops rows)
  unfolding run
  run-IsUnique [] rows u = u
  run-IsUnique (op ∷ ops) rows u = run-IsUnique ops (apply c op rows) (apply-IsUnique op rows u)

  -- In every table that comes of making and revoking keys, starting with an empty one: a revocation by the
  -- owner of the key takes the key from the table, so that it resolves to nobody, and no other key; one by
  -- anybody else, or of no key, says no and changes nothing.
  pub revoke-run-Revoked :
      (ops : List Op) (user_email id : String) (now : ℕ)
      → Revoked c user_email id now (run c ops []) (revoke user_email id (run c ops []))
  revoke-run-Revoked ops user_email id now =
      let unique = run-IsUnique ops [] (tt, tt) in
      revoke-Revoked c user_email id now (run c ops []) unique.0 unique.1
