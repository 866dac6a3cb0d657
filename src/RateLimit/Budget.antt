-- ===== src/RateLimit/Budget.antt =====
-- The limiter admits as many calls of a key in a minute as its limit, and no more.
use coruscant.Prelude.{
  ℕ, zero, suc, ◌+◌, ◌≤◌, ◌<◌, min, ◌≡◌, refl, sym, ap, Bool, ◌&&◌, Option, none, some, List, [],
  ◌∷◌, leb, count_if, ◌==◌, arith, string_eq, nat_eq, pair_eq, Bool-cases, inl, inr, nat_same_iff,
  subst,
}
use text.Mathlib.TextEquality.{eq_iff}
use coruscant.Prelude.Dict
use coruscant.Prelude.Dict.{get-set}
use coruscant.RateLimit.{Buckets, Call, count_in, allow, answers}

-- No call comes before the minute, and none before the call that it follows.
abbrev pub IsTimed : ℕ → List Call → Type 0
IsTimed from [] = Unit
IsTimed from ((key, now) ∷ calls) = (from ≤ now) × IsTimed now calls

-- the calls of the key in the minute
abbrev pub hits : Call → List Call → ℕ
hits c = count_if (λ d. d.0 == c.0 && d.1 == c.1)

-- those of them that are allowed
abbrev pub admitted : Call → List (Call × Bool) → ℕ
admitted c = count_if (λ a. a.0.0 == c.0 && a.0.1 == c.1 && a.1)

-- The window of the bucket, if there is one, has begun.
abbrev IsBegun : ℕ → Option (ℕ × ℕ) → Type 0
IsBegun now none = Unit
IsBegun now (some (window, count)) = window ≤ now

hits_none :
    (c : Call) (from : ℕ) (calls : List Call) → c.1 < from → IsTimed from calls → hits c calls ≡ 0
hits_none c from [] h t = refl
hits_none c from ((key, now) ∷ calls) h (le, t) =
    ground (arith, hits_none c now calls (omega arith) t, nat_same_iff now c.1)

admitted-le-hits :
    (limit : ℕ) (c : Call) (buckets : Buckets) (calls : List Call)
    → admitted c (answers limit buckets calls) ≤ hits c calls
unfolding answers
admitted-le-hits limit c buckets [] = omega arith
admitted-le-hits limit c buckets ((key, now) ∷ calls) =
    ground (arith, admitted-le-hits limit c (allow limit key now buckets).1 calls)

IsBegun-le : (a b : ℕ) (o : Option (ℕ × ℕ)) → a ≤ b → IsBegun a o → IsBegun b o
IsBegun-le a b none h k = tt
IsBegun-le a b (some (window, count)) h k = omega arith

-- A bucket whose window has begun counts nothing for a later minute.
count_in_later :
    (from now : ℕ) (o : Option (ℕ × ℕ)) → IsBegun from o → from < now → count_in now o ≡ 0
count_in_later from now none b h = refl
count_in_later from now (some (window, count)) b h = ground (arith, nat_same_iff window now)

-- From any state, the calls that are still admitted fill up the budget.
fills :
    (limit : ℕ) (c : Call) (from : ℕ) (buckets : Buckets) (calls : List Call)
    → IsTimed from calls
    → IsBegun from (Dict.get c.0 buckets)
    → admitted c (answers (suc limit) buckets calls)
        + min (suc limit) (count_in c.1 (Dict.get c.0 buckets))
      ≡ min (suc limit) (count_in c.1 (Dict.get c.0 buckets) + hits c calls)
unfolding answers allow
fills limit c from buckets [] t b = omega arith
fills limit c from buckets ((key, now) ∷ calls) (le, t) b =
    let count = count_in now (Dict.get key buckets) + 1 in
    let after : Buckets = Dict.set key (now, count) buckets in
    let got = get-set key c.0 (now, count) buckets in
    elim (Bool-cases (key == c.0)) [
      | inr other ↦
          let same : Dict.get c.0 after ≡ Dict.get c.0 buckets = ground (arith, other, got) in
          let begun : IsBegun now (Dict.get c.0 after) =
            subst (IsBegun now) (sym same) (IsBegun-le from now (Dict.get c.0 buckets) le b) in
          ground (arith, other, fills limit c now after calls t begun, ap (count_in c.1) same)
      | inl mine ↦
          let at : key ≡ c.0 = (eq_iff key c.0).0 mine in
          let new : Dict.get c.0 after ≡ some (now, count) = ground (arith, mine, got) in
          let begun : IsBegun now (Dict.get c.0 after) =
            subst (IsBegun now) (sym new) (omega arith) in
          let rest = fills limit c now after calls t begun in
          let used' = ap (count_in c.1) new in
          elim (Bool-cases (now == c.1)) [
            | inl this ↦
                let m : now ≡ c.1 = (nat_same_iff now c.1).0 this in
                let used : count_in now (Dict.get key buckets)
                    ≡ count_in c.1 (Dict.get c.0 buckets) =
                  rw (at, m) refl in
                ground (arith, mine, this, rest, used, used')
            | inr differs ↦ elim (Bool-cases (leb now c.1)) [
              | inl early ↦
                  let used : count_in c.1 (Dict.get c.0 buckets) ≡ 0 =
                    count_in_later from c.1 (Dict.get c.0 buckets) b
                      (ground (arith, differs, early, le)) in
                  ground (arith, mine, differs, rest, used, used')
              | inr late ↦
                  let no_hits = hits_none c now calls (ground (arith, late)) t in
                  ground (arith, mine, differs, no_hits, admitted-le-hits (suc limit) c after calls)
            ]
          ]
    ]

-- A limiter with a positive limit, started with no buckets, admits of the calls of a key in a minute
-- as many as there are, up to the limit, whatever the other keys do. The calls come in the order of
-- time.
pub admitted-min :
    (limit : ℕ) (c : Call) (calls : List Call)
    → 1 ≤ limit
    → IsTimed 0 calls
    → admitted c (answers limit [] calls) ≡ min limit (hits c calls)
admitted-min zero c calls h t = absurd (omega arith)
admitted-min (suc limit) c calls h t = omega (arith, fills limit c 0 [] calls t tt)
