-- ===== src/ApiKeys/Revoking.antt =====
-- The end of a key.
use coruscant.Prelude.{
  ℕ, ◌≡◌, refl, sym, subst, String, Bool, true, false, not, none, some, List, [], ◌∷◌, map, keep,
  elem, Distinct, arith, ◌==◌, ap, string_eq, Option-cases, Bool-cases, inl, inr, if◌then◌else◌,
  if◌then◌else◌, ◌⊎◌,
}
use coruscant.ApiKeys.Store.{Codec, ApiKeyRow, revoke, resolve_principal, find_id, find_hash}

-- The rows whose id is another one.
abbrev pub others : String → List ApiKeyRow → List ApiKeyRow
others id rows = keep (λ row. not (row.id == id)) rows

absent_hash :
    (hash : String) (rows : List ApiKeyRow)
    → elem hash (map (λ row. row.key_hash) rows) ≡ false
    → find_hash hash rows ≡ none
unfolding find_hash
absent_hash hash [] h = refl
absent_hash hash (row ∷ rows) h = ground (
  arith,
  absent_hash hash rows,
  string_eq.same_iff hash row.key_hash,
  string_eq.same_iff row.key_hash hash,
)

others_absent :
    (id : String) (rows : List ApiKeyRow)
    → elem id (map (λ row. row.id) rows) ≡ false
    → others id rows ≡ rows
others_absent id [] h = refl
others_absent id (row ∷ rows) h =
    ground
      (arith, others_absent id rows, string_eq.same_iff id row.id, string_eq.same_iff row.id id)

-- The row of an id is in the table, with its hash.
listed_hash :
    (id : String) (rows : List ApiKeyRow) {row : ApiKeyRow}
    → find_id id rows ≡ some row
    → elem row.key_hash (map (λ r. r.key_hash) rows) ≡ true
unfolding find_id
listed_hash id [] h = absurd (cc h)
listed_hash id (r ∷ rows) {row} h = elim (Bool-cases (r.id == id)) [
  | inl here ↦
      let is : row ≡ r = ground (arith, here, h) in
      let same : row.key_hash ≡ r.key_hash = ap (λ (x : ApiKeyRow). x.key_hash) is in
      ground (arith, (string_eq.same_iff row.key_hash r.key_hash).1 same)
  | inr later ↦
      let rest : find_id id rows ≡ some row = ground (arith, later, h) in
      ground (arith, listed_hash id rows {row = row} rest)
]

-- Without the row of an id, its hash is not found, and any other hash is found as before.
find_hash-others :
    (id hash : String) (rows : List ApiKeyRow) {row : ApiKeyRow}
    → Distinct (map (λ row. row.id) rows)
    → Distinct (map (λ row. row.key_hash) rows)
    → find_id id rows ≡ some row
    → find_hash hash (others id rows) ≡ (if hash == row.key_hash then none else find_hash hash rows)
unfolding find_hash find_id
find_hash-others id hash [] {row} ids hashes found = absurd (cc found)
find_hash-others id hash (r ∷ rows) {row} ids hashes found = elim (Bool-cases (r.id == id)) [
  | inl here ↦
      let is : r ≡ row = ground (arith, here, found) in
      let same : (r.id == id) ≡ true = here in
      ground (
        arith,
        here,
        ap (λ (x : ApiKeyRow). x.key_hash) is,
        others_absent id rows,
        absent_hash hash rows,
        ids,
        hashes,
        string_eq.same_iff r.id id,
        string_eq.same_iff hash row.key_hash,
        string_eq.same_iff hash r.key_hash,
        string_eq.same_iff r.key_hash hash,
      )
  | inr other ↦
      let rest : find_id id rows ≡ some row = ground (arith, other, found) in
      ground (
        arith,
        other,
        find_hash-others id hash rows {row = row} ids.1 hashes.1 rest,
        listed_hash id rows {row = row} rest,
        hashes.0,
        string_eq.same_iff hash row.key_hash,
        string_eq.same_iff r.key_hash hash,
        λ (q : r.key_hash ≡ row.key_hash).
            ap (λ k. elem k (map (λ (x : ApiKeyRow). x.key_hash) rows)) q,
      )
]

module _ (c : Codec) where
  -- What a revocation has done, by how it ended.
  abbrev pub Revoked : String → String → ℕ → List ApiKeyRow → Bool × List ApiKeyRow → Type 0
  Revoked user_email id now rows (true, after) =
      (row : ApiKeyRow) × (find_id id rows ≡ some row)
      × (row.user_email ≡ user_email)
      × ((raw : String)
          → resolve_principal c raw now after
            ≡ (if c.hash raw == row.key_hash then none else resolve_principal c raw now rows))
  Revoked user_email id now rows (false, after) =
      (after ≡ rows)
      × ((find_id id rows ≡ none)
          ⊎ ((row : ApiKeyRow) × (find_id id rows ≡ some row)
              × ((row.user_email == user_email) ≡ false)))

  -- In a table where no two keys share an id or a hash: a revocation by the owner of the key takes the key from
  -- the table, so that it resolves to nobody, and no other key; one by anybody else, or of no key, says no
  -- and changes nothing.
  pub revoke-Revoked :
      (user_email id : String) (now : ℕ) (rows : List ApiKeyRow)
      → Distinct (map (λ row. row.id) rows)
      → Distinct (map (λ row. row.key_hash) rows)
      → Revoked user_email id now rows (revoke user_email id rows)
  unfolding revoke resolve_principal
  revoke-Revoked user_email id now rows ids hashes = elim (Option-cases (find_id id rows)) [
    | inl missing ↦
        let same : revoke user_email id rows ≡ (false, rows) = ground (arith, missing) in
        subst (Revoked user_email id now rows) (sym same) (refl, inl missing)
    | inr (row, found) ↦ elim (Bool-cases (row.user_email == user_email)) [
      | inr foreign ↦
          let same : revoke user_email id rows ≡ (false, rows) = ground (arith, found, foreign) in
          subst (Revoked user_email id now rows) (sym same) (refl, inr (row, found, foreign))
      | inl own ↦
          let same : revoke user_email id rows ≡ (true, others id rows) =
            ground (arith, found, own) in
          subst (Revoked user_email id now rows) (sym same) (
            row,
            found,
            (string_eq.same_iff row.user_email user_email).0 own,
            λ raw.
                ground (arith, find_hash-others id (c.hash raw) rows {row = row} ids hashes found),
          )
    ]
  ]
