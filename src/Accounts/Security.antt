-- ===== src/Accounts/Security.antt =====
-- Passwords and signed tokens of auth/security.py. Bytes are texts.
use Prim.Native.Char.{Char, code}
use Prim.Native.String.{◌++◌ as ◌<>◌}
use Prim.Native.String.append
use coruscant.Prelude.{
  ℕ, ◌+◌, ◌≡◌, refl, ap, ◌∙◌, String, Bool, true, false, not, ◌&&◌, ◌||◌, Option, none, some, List,
  [], ◌∷◌, arith, leb, ◌==◌, if◌then◌else◌, string_eq, nat_eq, Result, ok, raise, token_error, ltb,
  type_error,
}

-- The fields of a payload that are read: `none` where one is absent or of another type. A negative expiry
-- is 0, which is as late.
pub record Claims : Type 0 where
  pub subject : Option String
  pub expiry : Option ℕ

-- The standard library: texts, PBKDF2, HMAC, base64, JSON and the decimal numbers. `none` stands for a
-- ValueError.
pub record Platform : Type 0 where
  pub strip : String → String
  pub lower : String → String
  pub is_space : Char → Bool
  pub pbkdf2 : String → String → ℕ → String
  pub hmac : String → String → String
  pub b64encode : String → String
  pub b64decode : String → Option String
  -- the header's JSON, and that of a payload with its subject, issue and expiry
  pub header : String
  pub dumps : String → ℕ → ℕ → String
  pub loads : String → Option Claims
  pub show : ℕ → String
  pub int_of : String → Option ℕ

abbrev push : Char → List String → List String
push c [] = String.◌∷◌ c String.[] ∷ []
push c (x ∷ xs) = String.◌∷◌ c x ∷ xs

-- `s.split(c)`, where the character is given by its code
unfoldable pub split : ℕ → String → List String
split k String.[] = "" ∷ []
split k (String.◌∷◌ c s) = let rest = split k s in if code c == k then "" ∷ rest else push c rest

unfoldable pub has : ℕ → String → Bool
has k String.[] = false
has k (String.◌∷◌ c s) = code c == k || has k s

-- `hmac.compare_digest` of two texts takes ASCII only.
unfoldable pub is_ascii : String → Bool
is_ascii String.[] = true
is_ascii (String.◌∷◌ c s) = ltb (code c) 128 && is_ascii s

-- A text, a separator and a text.
unfoldable pub joined_by : Char → String → String → String
joined_by c a s = a <> String.◌∷◌ c s

-- `_PBKDF2_ALGO` and `_PBKDF2_ITERATIONS`
abbrev pub algorithm : String
algorithm = "pbkdf2_sha256"

abbrev pub iterations : ℕ
iterations = 240000

module _ (p : Platform) where
  -- `hash_password`, with the salt from `secrets`
  unfoldable pub hash_password : String → String → String
  unfolding joined_by
  hash_password salt password = joined_by "$" algorithm (
      joined_by "$" (p.show iterations)
        (joined_by "$" (p.b64encode salt) (p.b64encode (p.pbkdf2 password salt iterations))))

  -- the comparison, when the four parts of the hash are there
  unfoldable pub verify_parts : String → String → String → String → String → Bool
  verify_parts password algo iter_text salt_text hash_text =
      if not (algo == algorithm) then false else elim (p.int_of iter_text) [
        | none ↦ false
        | some rounds ↦ elim (p.b64decode salt_text) [
          | none ↦ false
          | some salt ↦ elim (p.b64decode hash_text) [
            | none ↦ false
            | some expected ↦ p.pbkdf2 password salt rounds == expected
          ]
        ]
      ]

  unfoldable pub verify_password : String → String → Bool
  unfolding split verify_parts
  verify_password password encoded = elim (split 36 encoded) [
    | [] ↦ false
    | algo ∷ [] ↦ false
    | algo ∷ iter_text ∷ [] ↦ false
    | algo ∷ iter_text ∷ salt_text ∷ [] ↦ false
    | algo ∷ iter_text ∷ salt_text ∷ hash_text ∷ [] ↦
        verify_parts password algo iter_text salt_text hash_text
    | algo ∷ iter_text ∷ salt_text ∷ hash_text ∷ extra ∷ more ↦ false
  ]

  -- the signature of a header and a payload
  unfoldable pub signature_of : String → String → String → String
  unfolding joined_by
  signature_of secret header payload = p.b64encode (p.hmac secret (joined_by "." header payload))

  -- `create_token`, issued at a moment
  unfoldable pub create_token : String → String → ℕ → ℕ → String
  unfolding signature_of joined_by
  create_token subject secret ttl issued =
      let header = p.b64encode p.header in
      let payload = p.b64encode (p.dumps subject issued (issued + ttl)) in
      joined_by "." header (joined_by "." payload (signature_of secret header payload))

  -- the payload of a token whose signature is right
  unfoldable pub read_payload : String → ℕ → Result Claims
  read_payload payload now = elim (p.b64decode payload) [
    | none ↦ raise token_error
    | some bytes ↦ elim (p.loads bytes) [
      | none ↦ raise token_error
      | some claims ↦ elim claims.expiry [
        | none ↦ raise token_error
        | some expiry ↦ if leb expiry now then raise token_error else ok claims
      ]
    ]
  ]

  unfoldable pub decode_token : String → String → ℕ → Result Claims
  unfolding split is_ascii signature_of read_payload
  decode_token token secret now = elim (split 46 token) [
    | [] ↦ raise token_error
    | header ∷ [] ↦ raise token_error
    | header ∷ payload ∷ [] ↦ raise token_error
    | header ∷ payload ∷ signature ∷ [] ↦
        if not (is_ascii signature)
        then raise type_error
        else if signature_of secret header payload == signature
        then read_payload payload now
        else raise token_error
    | header ∷ payload ∷ signature ∷ extra ∷ more ↦ raise token_error
  ]

append-cons : (c : Char) (s t : String) → (String.◌∷◌ c s) <> t ≡ String.◌∷◌ c (s <> t)
append-cons c s t = λ i. append.cons c s t i

append-nil : (t : String) → String.[] <> t ≡ t
append-nil t = λ i. append.nil t i

-- The text before the first separator is the first part.
pub split-joined_by :
    (c : Char) (a s : String)
    → has (code c) a ≡ false
    → split (code c) (joined_by c a s) ≡ a ∷ split (code c) s
unfolding split has joined_by
split-joined_by c String.[] s h = ap (split (code c)) (append-nil (String.◌∷◌ c s)) ∙ ground arith
split-joined_by c (String.◌∷◌ d a) s h =
    ap (split (code c)) (append-cons d a (String.◌∷◌ c s)) ∙ ground (arith, split-joined_by c a s)

pub split_whole : (k : ℕ) (a : String) → has k a ≡ false → split k a ≡ a ∷ []
unfolding split has
split_whole k String.[] h = refl
split_whole k (String.◌∷◌ d a) h = ground (arith, split_whole k a)
