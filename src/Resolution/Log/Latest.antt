-- ===== src/Resolution/Log/Latest.antt =====
-- `current` keeps, for each pair, the judgement that was decided last.
use coruscant.Prelude.{
  ◌≡◌, refl, sym, ap, ◌∙◌, subst, ◌⊎◌, inl, inr, ◌≢◌, true, false, Option, none, some, List, [],
  ◌∷◌, ◌++◌, foldl, All, Bool-cases, Option-cases, arith, ◌==◌, ◌<=◌, string_eq, pair_eq,
  pair_same_iff, str_le_total, str_le_trans, string_ord, some_inj, Memᴰ, All-mem,
}
use coruscant.Prelude.Dict
use coruscant.Prelude.Dict.{Dict, get-set}
use coruscant.Resolution.Log.{Judgement, Pair, pair, Resolver, supersede, current}

-- The judgements of the pair in the list satisfy the predicate.
abbrev OfPair : Pair → (Judgement → Type 0) → List Judgement → Type 0
OfPair p P = All (λ k. pair k ≡ p → P k)

-- The judgement is the last one of its pair by date and, for the same date, by its place in the log.
pub record IsLatest (p : Pair) (log : List Judgement) (j : Judgement) : Type 0 where
  pub before : List Judgement
  pub after : List Judgement
  pub place : log ≡ before ++ j ∷ after
  pub of_pair : pair j ≡ p
  pub not_older : OfPair p (λ k. (k.decided_at <= j.decided_at) ≡ true) before
  pub newer : OfPair p (λ k. (j.decided_at <= k.decided_at) ≡ false) after

-- What the loop has for the pair after the log, where it had `prior` before it.
abbrev Outcome : Pair → Option Judgement → List Judgement → Option Judgement → Type 0
Outcome p prior log none = (prior ≡ none) × OfPair p (λ _. ⊥) log
Outcome p prior log (some j) =
    ((prior ≡ some j) × OfPair p (λ k. (j.decided_at <= k.decided_at) ≡ false) log)
    ⊎ (IsLatest p log j
        × ((x : Judgement) → prior ≡ some x → (x.decided_at <= j.decided_at) ≡ true))

-- The judgement is of another pair.
Outcome-skip :
    (p : Pair) (k : Judgement) (prior : Option Judgement) (log : List Judgement)
    (out : Option Judgement)
    → pair k ≢ p
    → Outcome p prior log out
    → Outcome p prior (k ∷ log) out
Outcome-skip p k prior log none other (e, h) = (e, (λ q. absurd (other q), h))
Outcome-skip p k prior log (some j) other (inl (e, h)) = inl (e, (λ q. absurd (other q), h))
Outcome-skip p k prior log (some j) other (inr (w, h)) = inr (
  record {
    before = k ∷ w.before;
    after = w.after;
    place = ap (◌∷◌ k) w.place;
    of_pair = w.of_pair;
    not_older = (λ q. absurd (other q), w.not_older);
    newer = w.newer;
  },
  h,
)

-- The judgement takes the place of the one before, which is not newer.
Outcome-take :
    (p : Pair) (k : Judgement) (prior : Option Judgement) (log : List Judgement)
    (out : Option Judgement)
    → pair k ≡ p
    → ((x : Judgement) → prior ≡ some x → (x.decided_at <= k.decided_at) ≡ true)
    → Outcome p (some k) log out
    → Outcome p prior (k ∷ log) out
Outcome-take p k prior log none q le (e, h) = absurd (cc e)
Outcome-take p k prior log (some j) q le (inl (e, h)) =
    let same : k ≡ j = some_inj e in
    subst (λ (x : Judgement). Outcome p prior (k ∷ log) (some x)) same
      (inr (
        record {
          before = [];
          after = log;
          place = refl;
          of_pair = q;
          not_older = tt;
          newer =
              subst (λ (x : Judgement). OfPair p (λ k. (x.decided_at <= k.decided_at) ≡ false) log)
                (sym same) h;
        },
        le,
      ))
Outcome-take p k prior log (some j) q le (inr (w, h)) = inr (
  record {
    before = k ∷ w.before;
    after = w.after;
    place = ap (◌∷◌ k) w.place;
    of_pair = w.of_pair;
    not_older = (λ _. h k refl, w.not_older);
    newer = w.newer;
  },
  λ x e. str_le_trans x.decided_at k.decided_at j.decided_at (le x e) (h k refl),
)

-- The judgement is older than the one before.
Outcome-keep :
    (p : Pair) (k x : Judgement) (log : List Judgement) (out : Option Judgement)
    → (x.decided_at <= k.decided_at) ≡ false
    → Outcome p (some x) log out
    → Outcome p (some x) (k ∷ log) out
Outcome-keep p k x log none old (e, h) = absurd (cc e)
Outcome-keep p k x log (some j) old (inl (e, h)) = inl (
  e,
  (λ _. subst (λ (y : Judgement). (y.decided_at <= k.decided_at) ≡ false) (some_inj e) old, h),
)
Outcome-keep p k x log (some j) old (inr (w, h)) = inr (
  record {
    before = k ∷ w.before;
    after = w.after;
    place = ap (◌∷◌ k) w.place;
    of_pair = w.of_pair;
    not_older = (
      λ _.
          let kx : (k.decided_at <= x.decided_at) ≡ true =
            ground (arith, str_le_total k.decided_at x.decided_at, old) in
          str_le_trans k.decided_at x.decided_at j.decided_at kx (h x refl),
      w.not_older,
    );
    newer = w.newer;
  },
  h,
)

pub get-supersede-other :
    (p : Pair) (eff : Dict Pair Judgement) (k : Judgement)
    → (pair k == p) ≡ false
    → Dict.get p (supersede eff k) ≡ Dict.get p eff
unfolding supersede
get-supersede-other p eff k other = ground (arith, other, get-set (pair k) p k eff)

pub get-supersede-new :
    (eff : Dict Pair Judgement) (k : Judgement)
    → ((x : Judgement) → Dict.get (pair k) eff ≡ some x → (x.decided_at <= k.decided_at) ≡ true)
    → Dict.get (pair k) (supersede eff k) ≡ some k
unfolding supersede
get-supersede-new eff k h = elim (Option-cases (Dict.get (pair k) eff)) [
  | inl e ↦ ground (arith, e, get-set (pair k) (pair k) k eff, pair_same_iff (pair k) (pair k))
  | inr (x, e) ↦
      ground (arith, e, h x e, get-set (pair k) (pair k) k eff, pair_same_iff (pair k) (pair k))
]

get-supersede-old :
    (eff : Dict Pair Judgement) (k x : Judgement)
    → Dict.get (pair k) eff ≡ some x
    → (x.decided_at <= k.decided_at) ≡ false
    → supersede eff k ≡ eff
unfolding supersede
get-supersede-old eff k x e gt = ground (arith, e, gt)

foldl-Outcome :
    (p : Pair) (eff : Dict Pair Judgement) (log : List Judgement)
    → Outcome p (Dict.get p eff) log (Dict.get p (foldl supersede eff log))
foldl-Outcome p eff [] = elim (Option-cases (Dict.get p eff)) [
  | inl e ↦ rw e (refl, tt)
  | inr (x, e) ↦ rw e (inl (refl, tt))
]
foldl-Outcome p eff (k ∷ log) =
    let out = Dict.get p (foldl supersede (supersede eff k) log) in
    let rest = foldl-Outcome p (supersede eff k) log in
    elim (Bool-cases (pair k == p)) [
      | inr other ↦
          Outcome-skip p k (Dict.get p eff) log out
            (λ q. absurd (cc (sym ((pair_same_iff (pair k) p).1 q) ∙ other)))
            (subst (λ o. Outcome p o log out) (get-supersede-other p eff k other) rest)
      | inl q' ↦
          let q : pair k ≡ p = (pair_same_iff (pair k) p).0 q' in
          elim (Option-cases (Dict.get p eff)) [
            | inl e ↦
                let le : (x : Judgement)
                    → Dict.get p eff ≡ some x
                    → (x.decided_at <= k.decided_at) ≡ true =
                  λ x f. absurd (cc (sym e ∙ f)) in
                Outcome-take p k (Dict.get p eff) log out q le (
                  subst (λ o. Outcome p o log out)
                    (subst (λ r. Dict.get r (supersede eff k) ≡ some k) q
                      (get-supersede-new eff k
                        (λ x f. le x (subst (λ r. Dict.get r eff ≡ some x) q f))))
                    rest)
            | inr (x, e) ↦ elim (Bool-cases (x.decided_at <= k.decided_at)) [
              | inl newer ↦
                  let le : (y : Judgement)
                      → Dict.get p eff ≡ some y
                      → (y.decided_at <= k.decided_at) ≡ true =
                    λ y f.
                      subst (λ (z : Judgement). (z.decided_at <= k.decided_at) ≡ true)
                        (some_inj (sym e ∙ f)) newer in
                  Outcome-take p k (Dict.get p eff) log out q le (
                    subst (λ o. Outcome p o log out)
                      (subst (λ r. Dict.get r (supersede eff k) ≡ some k) q
                        (get-supersede-new eff k
                          (λ y f. le y (subst (λ r. Dict.get r eff ≡ some y) q f))))
                      rest)
              | inr old ↦
                  subst (λ o. Outcome p o (k ∷ log) out) (sym e)
                    (Outcome-keep p k x log out old (
                      subst (λ o. Outcome p o log out)
                        (ap (Dict.get p) (
                            get-supersede-old eff k x
                              (subst (λ r. Dict.get r eff ≡ some x) (sym q) e) old)
                          ∙ e)
                        rest))
            ]
          ]
    ]

-- For each pair, `current` gives the judgement of the log that was decided last by date and, of
-- those of the same date, the one that was appended last; it has none exactly for a pair that the log
-- does not judge.
pub current-IsLatest :
    (r : Resolver) (p : Pair)
    → ((Dict.get p (current r) ≡ none) × ((j : Judgement) → Memᴰ j r.log → pair j ≢ p))
      ⊎ ((j : Judgement) × (Dict.get p (current r) ≡ some j) × IsLatest p r.log j)
unfolding current
current-IsLatest r p =
    let out = foldl-Outcome p [] r.log in
    elim (Option-cases (Dict.get p (foldl supersede [] r.log))) [
      | inl e ↦
          let (_, h) = subst (Outcome p none r.log) e out in
          inl (e, λ j m q. All-mem (λ k. pair k ≡ p → ⊥) h m q)
      | inr (j, e) ↦ elim (subst (Outcome p none r.log) e out) [
        | inl (f, _) ↦ absurd (cc f)
        | inr (w, _) ↦ inr (j, e, w)
      ]
    ]
