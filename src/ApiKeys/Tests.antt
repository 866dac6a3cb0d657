-- ===== src/ApiKeys/Tests.antt =====
-- Runs of the store with a small codec, and each theorem at concrete tables.
use Prim.Native.Char.{code, Char}
use coruscant.Prelude.{
  ◌≡◌, refl, String, Bool, true, false, Option, none, some, List, [], ◌∷◌, arith, ◌==◌,
  if◌then◌else◌, string_eq, nat_eq, elem, add, str_le, Bool-cases, inl, ap, inr,
}
use coruscant.Prelude.Groups.{set_of}
use coruscant.Prelude.Sort.{sort_by}
use coruscant.ApiKeys.Store.{
  Codec, ApiKeyRow, starts_with, first_part, last_part, masked, find_id, find_hash, granted,
  dump_scopes, load_scopes, is_expired, create, resolve_principal, resolve, list_keys, revoke,
  ApiKeyPrincipal, known_scopes,
}
use coruscant.ApiKeys.Resolving.{row_made, Making, made_key, create-Making}
use coruscant.ApiKeys.Runs.{Op, make, apply, run, run-resolve_principal}
use coruscant.ApiKeys.Revoking.{Revoked}
use coruscant.ApiKeys.Unique.{revoke-run-Revoked}
use coruscant.ApiKeys.Scopes.{IsJson}

-- Lists as texts: `+` stands before a character, `;` ends a text.
abbrev write_text : String → String → String
write_text String.[] rest = String.◌∷◌ ";" rest
write_text (String.◌∷◌ c s) rest = String.◌∷◌ "+" (String.◌∷◌ c (write_text s rest))

abbrev write : List String → String
write [] = ""
write (s ∷ xs) = write_text s (write xs)

abbrev fresh : Option (List String) → Option (List String)
fresh none = none
fresh (some xs) = some ("" ∷ xs)

abbrev onto : Char → Option (List String) → Option (List String)
onto c none = none
onto c (some []) = none
onto c (some (x ∷ xs)) = some (String.◌∷◌ c x ∷ xs)

abbrev read : Bool → String → Option (List String)
read escaped String.[] = some []
read true (String.◌∷◌ c s) = onto c (read false s)
read false (String.◌∷◌ c s) =
    let ended = fresh (read false s) in
    let inside = read true s in if code c == 59 then ended else inside

abbrev codec : Codec
codec = record {
  hash = λ s. s;
  dumps = λ xs. String.◌∷◌ "[" (write xs);
  loads = λ s. elim s as (λ _. Option (List String)) [
    | String.[] ↦ none
    | String.◌∷◌ c rest ↦ read false rest
  ];
  from_iso = λ s. some 60;
}

read-write_text :
    (s rest : String) (xs : List String)
    → read false rest ≡ some xs
    → read false (write_text s rest) ≡ some (s ∷ xs)
read-write_text String.[] rest xs h = ground (arith, h)
read-write_text (String.◌∷◌ c s) rest xs h = ground (arith, read-write_text s rest xs h)

read-write : (xs : List String) → read false (write xs) ≡ some xs
read-write [] = refl
read-write (s ∷ xs) = read-write_text s (write xs) xs (read-write xs)

abbrev is_blank : String → Bool
is_blank String.[] = true
is_blank (String.◌∷◌ c s) = false

codec-IsJson : IsJson codec
codec-IsJson = record {
  loads_back = read-write;
  not_blank = λ xs. elim (Bool-cases (codec.dumps xs == "")) [
    | inl blank ↦
        let same : codec.dumps xs ≡ "" = (string_eq.same_iff (codec.dumps xs) "").0 blank in
        absurd (ground (arith, ap is_blank same))
    | inr other ↦ other
  ];
}

program : Unit {0}
unfolding starts_with first_part last_part masked find_id find_hash granted dump_scopes load_scopes
    is_expired create resolve_principal resolve list_keys revoke set_of add sort_by str_le run apply
program = tt

abbrev wanted : Option (List String)
wanted = some ("root" ∷ "admin" ∷ [])

abbrev row : ApiKeyRow
row = row_made codec "ann" "ci" "2026-01-01" wanted none "k1" "abcdefgh"

display_test : row.display ≡ "csk_abcdef…efgh"
unfolding program
display_test = refl

create_test : (create codec "ann" "ci" "2026-01-01" wanted none "k1" "abcdefgh" []).1 ≡ row ∷ []
unfolding program
create_test = refl

resolve_test : resolve codec "csk_abcdefgh" 5 (row ∷ []) ≡ some "ann"
unfolding program
resolve_test = refl

create-Making_example :
    Making codec "ann" "ci" "2026-01-01" wanted
      (some "2026-02-01")
      "k1"
      "abcdefgh"
      []
      59
      (made_key codec "ann" "ci" "2026-01-01" wanted (some "2026-02-01") "k1" "abcdefgh" [] 59)
create-Making_example =
    create-Making codec "ann" "ci" "2026-01-01" wanted (some "2026-02-01") "k1" "abcdefgh" [] 59
      codec-IsJson

abbrev ops : List Op
ops = make "ann" "ci" "2026-01-01" wanted none "k1" "abcdefgh" ∷ []

abbrev principal : ApiKeyPrincipal
principal = record { user_email = "ann"; scopes = "admin" ∷ [] }

principal_test : resolve_principal codec "csk_abcdefgh" 5 (run codec ops []) ≡ some principal
unfolding program
principal_test = refl

run-resolve_principal_example : elem "admin" known_scopes ≡ true
run-resolve_principal_example =
    run-resolve_principal codec codec-IsJson ops "csk_abcdefgh" 5 {principal = principal}
      principal_test "admin" refl

revoke_test : revoke "ann" "k1" (row ∷ []) ≡ (true, [])
unfolding program
revoke_test = refl

revoke-run-Revoked_example :
    Revoked codec "ann" "k1" 5 (run codec ops []) (revoke "ann" "k1" (run codec ops []))
revoke-run-Revoked_example = revoke-run-Revoked codec ops "ann" "k1" 5
