-- ===== src/Accounts/Login.antt =====
-- From the registration to the token, and back to the user.
use coruscant.Prelude.{
  ℕ, ◌+◌, ◌<◌, ◌≡◌, refl, ap, ◌∙◌, String, true, false, none, some, List, [], ◌∷◌, ◌++◌, arith, leb,
  ==_refl, if◌then◌else◌, string_eq, Result, ok, raise, token_error,
}
use coruscant.Accounts.Security.{
  Platform, has, split, split-joined_by, split_whole, joined_by, algorithm, iterations,
  hash_password, verify_password, verify_parts, signature_of, create_token, read_payload,
  decode_token, is_ascii, is_ascii,
}
use coruscant.Accounts.Users.{StoredUser, get, create_user}
use coruscant.Accounts.Service.{
  register, authenticate, user_from_token, issue_token, normalize_email,
}

-- What base64 and JSON promise for a token: no separator in the text, and the claims come back.
pub record IsCodec (p : Platform) (subject : String) (issued expiry : ℕ) : Type 0 where
  pub header_plain : has 46 (p.b64encode p.header) ≡ false
  pub payload_plain : has 46 (p.b64encode (p.dumps subject issued expiry)) ≡ false
  pub signature_plain : (bytes : String) → has 46 (p.b64encode bytes) ≡ false
  pub signature_ascii : (bytes : String) → is_ascii (p.b64encode bytes) ≡ true
  pub bytes_back :
      p.b64decode (p.b64encode (p.dumps subject issued expiry))
      ≡ some (p.dumps subject issued expiry)
  pub claims_back :
      p.loads (p.dumps subject issued expiry)
      ≡ some (record { subject = some subject; expiry = some expiry })

module _ (p : Platform) (subject secret : String) (ttl issued : ℕ)
    (codec : IsCodec p subject issued (issued + ttl)) where
  abbrev signed : String
  signed =
      joined_by "." (p.b64encode p.header) (p.b64encode (p.dumps subject issued (issued + ttl)))

  abbrev signature : String
  signature =
      signature_of p secret (p.b64encode p.header)
        (p.b64encode (p.dumps subject issued (issued + ttl)))

  signature-has : has 46 signature ≡ false
  unfolding signature_of
  signature-has = codec.signature_plain (p.hmac secret signed)

  signature-is_ascii : is_ascii signature ≡ true
  unfolding signature_of
  signature-is_ascii = codec.signature_ascii (p.hmac secret signed)

  parts :
      split 46 (create_token p subject secret ttl issued)
      ≡ p.b64encode p.header ∷ p.b64encode (p.dumps subject issued (issued + ttl)) ∷ signature ∷ []
  unfolding create_token
  parts =
      let header = p.b64encode p.header in
      let payload = p.b64encode (p.dumps subject issued (issued + ttl)) in
      split-joined_by "." header (joined_by "." payload signature) codec.header_plain
      ∙ ap (◌∷◌ header) (split-joined_by "." payload signature codec.payload_plain)
      ∙ ap (λ rest. header ∷ payload ∷ rest) (split_whole 46 signature signature-has)

  -- If base64 and JSON give back what they were given, then a token that was issued is accepted with the
  -- secret that signed it exactly until it expires, and it names its subject.
  pub decode_token-create_token :
      (now : ℕ)
      → decode_token p (create_token p subject secret ttl issued) secret now ≡ (
          if leb (issued + ttl) now
          then raise token_error
          else ok (record { subject = some subject; expiry = some (issued + ttl) }))
  unfolding decode_token read_payload
  decode_token-create_token now =
      ground
        (arith, parts, signature-is_ascii, codec.bytes_back, codec.claims_back, ==_refl signature)

algorithm_plain : has 36 algorithm ≡ false
unfolding has
algorithm_plain = refl

-- What base64 and the decimal numbers promise for a password's hash.
pub record IsHashing (p : Platform) (salt password : String) : Type 0 where
  pub rounds_plain : has 36 (p.show iterations) ≡ false
  pub rounds_back : p.int_of (p.show iterations) ≡ some iterations
  pub salt_plain : has 36 (p.b64encode salt) ≡ false
  pub salt_back : p.b64decode (p.b64encode salt) ≡ some salt
  pub digest_plain : has 36 (p.b64encode (p.pbkdf2 password salt iterations)) ≡ false
  pub digest_back :
      p.b64decode (p.b64encode (p.pbkdf2 password salt iterations))
      ≡ some (p.pbkdf2 password salt iterations)

module _ (p : Platform) (salt password : String) (hashing : IsHashing p salt password) where
  hash_parts :
      split 36 (hash_password p salt password)
      ≡ algorithm
        ∷ p.show iterations
        ∷ p.b64encode salt
        ∷ p.b64encode (p.pbkdf2 password salt iterations)
        ∷ []
  unfolding hash_password
  hash_parts =
      let rounds = p.show iterations in
      let salted = p.b64encode salt in
      let digest = p.b64encode (p.pbkdf2 password salt iterations) in
      split-joined_by "$" algorithm (joined_by "$" rounds (joined_by "$" salted digest))
        algorithm_plain
      ∙ ap (◌∷◌ algorithm)
          (split-joined_by "$" rounds (joined_by "$" salted digest) hashing.rounds_plain)
      ∙ ap (λ rest. algorithm ∷ rounds ∷ rest)
          (split-joined_by "$" salted digest hashing.salt_plain)
      ∙ ap (λ rest. algorithm ∷ rounds ∷ salted ∷ rest) (split_whole 36 digest hashing.digest_plain)

  -- The hash of a password verifies it.
  verify_password-hash_password : verify_password p password (hash_password p salt password) ≡ true
  unfolding verify_password verify_parts
  verify_password-hash_password = ground (
    arith,
    hash_parts,
    hashing.rounds_back,
    hashing.salt_back,
    hashing.digest_back,
    ==_refl (p.pbkdf2 password salt iterations),
  )

get-append :
    (email : String) (rows : List StoredUser) (row : StoredUser)
    → get email rows ≡ none
    → row.email ≡ email
    → get email (rows ++ row ∷ []) ≡ some row
unfolding get
get-append email [] row missing same = ground (arith, string_eq.same_iff row.email email)
get-append email (r ∷ rows) row missing same = ground (arith, get-append email rows row)

-- What a registration that goes through has done.
register_result :
    (p : Platform) (email password role salt created_at : String) (users : List StoredUser)
    {user : StoredUser} {after : List StoredUser}
    → ◌≡◌ {A = Result StoredUser × List StoredUser}
        (register p email password role salt created_at users)
        (ok user, after)
    → (get (normalize_email p email) users ≡ none)
      × (user.email ≡ normalize_email p email)
      × (user.password_hash ≡ hash_password p salt password)
      × (after ≡ users ++ user ∷ [])
unfolding register create_user
register_result p email password role salt created_at users {user} {after} h = ground arith

-- If the standard library keeps its promises for the password and the token, then after a registration
-- that goes through, the same email and password give a token, and until it expires the token gives
-- the registered user.
pub register-authenticate-user_from_token :
    (p : Platform) (secret : String) (ttl reset_ttl : ℕ)
    (email password role salt created_at : String) (issued : ℕ) (users : List StoredUser)
    {user : StoredUser} {after : List StoredUser}
    → IsHashing p salt password
    → IsCodec p user.email issued (issued + ttl)
    → ◌≡◌ {A = Result StoredUser × List StoredUser}
        (register p email password role salt created_at users)
        (ok user, after)
    → (token : String) × (authenticate p secret ttl reset_ttl email password issued after
        ≡ ok token)
      × ((now : ℕ)
          → now < issued + ttl
          → user_from_token p secret ttl reset_ttl token now after ≡ ok (some user))
unfolding authenticate user_from_token issue_token
register-authenticate-user_from_token p secret ttl reset_ttl email password role salt created_at
      issued users {user} {after} hashing codec h =
    let (new, address, hash, is) = register_result p email password role salt created_at users h in
    let found : get (normalize_email p email) after ≡ some user =
      ap (get (normalize_email p email)) is
      ∙ get-append (normalize_email p email) users user new address in
    let by_email : get user.email after ≡ some user = ap (λ k. get k after) address ∙ found in
    let verified : verify_password p password user.password_hash ≡ true =
      ap (verify_password p password) hash
      ∙ verify_password-hash_password p salt password hashing in
    (
      create_token p user.email secret ttl issued,
      ground (arith, found, verified),
      λ now before. ground (
        arith,
        before,
        decode_token-create_token p user.email secret ttl issued codec now,
        by_email,
      ),
    )
