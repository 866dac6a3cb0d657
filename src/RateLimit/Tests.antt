-- ===== src/RateLimit/Tests.antt =====
-- A run of the limiter, and its theorem at it.
use coruscant.Prelude.{◌≡◌, refl, min, true, false, List, [], ◌∷◌, map, arith, string_eq, nat_eq}
use coruscant.RateLimit.{Call, allow, answers}
use coruscant.RateLimit.Budget.{hits, admitted, admitted-min}

-- Three calls of one visitor in a minute and one in the next, and one of another visitor.
abbrev calls : List Call
calls = ("ann", 5) ∷ ("bob", 5) ∷ ("ann", 5) ∷ ("ann", 5) ∷ ("ann", 6) ∷ []

calls-answers : map (λ a. a.1) (answers 2 [] calls) ≡ true ∷ true ∷ true ∷ false ∷ true ∷ []
unfolding answers allow
calls-answers = refl

admitted-min_example : admitted ("ann", 5) (answers 2 [] calls) ≡ min 2 (hits ("ann", 5) calls)
admitted-min_example =
    admitted-min 2 ("ann", 5) calls (omega arith)
      (omega arith, (omega arith, (omega arith, (omega arith, (omega arith, tt)))))
