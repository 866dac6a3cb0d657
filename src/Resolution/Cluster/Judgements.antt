-- ===== src/Resolution/Cluster/Judgements.antt =====
-- What the first loop of `cluster` takes from the judgements in effect.
use coruscant.Prelude.{
  ◌&&◌, ◌||◌, ==_refl, ℕ, ◌≡◌, refl, sym, ap, ◌∙◌, subst, ◌⊎◌, inl, inr, ◌≤◌, true, false, List, [],
  ◌∷◌, ◌++◌, Memᴰ, Memᴰ-append, elem, elem-add, add, leb, arith, Bool-cases, ok, Result-cases, ◌==◌,
  string_eq, pair_eq, pair_same_iff, ==_refl,
}
use mathlib.Core.List.Memᴰ
use coruscant.Prelude.Dict.{Dict, get-set}
use coruscant.Graph.Types.{EntityId}
use coruscant.Resolution.Log.{Judgement, Verdict, same, different, undecided, Pair}
use coruscant.Resolution.Cluster.{
  Judged, ScoredEdge, forbidden_of, forbid, full_score, judge, judge_all,
}

abbrev pub Forbids : Dict EntityId (List EntityId) → EntityId → EntityId → Type 0
Forbids d a b = elem b (forbidden_of d a) ≡ true

forbid_lem :
    (a b : EntityId) (d : Dict EntityId (List EntityId)) (x y : EntityId)
    → elem y (forbidden_of (forbid a b d) x) ≡ (a == x && y == b) || elem y (forbidden_of d x)
unfolding forbid
forbid_lem a b d x y = ground (
  arith,
  get-set a x (add b (forbidden_of d a)) d,
  elem-add y b (forbidden_of d a),
  pair_same_iff a x,
  λ (p : a ≡ x). ap (λ z. elem y (forbidden_of d z)) p,
)

Verdict-cases : (v : Verdict) → (v ≡ same) ⊎ ((v ≡ different) ⊎ (v ≡ undecided))
Verdict-cases same = inl refl
Verdict-cases different = inr (inl refl)
Verdict-cases undecided = inr (inr refl)

pub ok_inj : {A : Type 0} {a b : A} → ok a ≡ ok b → a ≡ b
ok_inj h = cc

-- What has been taken from the judgements stays.
abbrev pub Grows : Judged → Judged → Type 0
Grows jd jd' =
    ((x y : EntityId) → Forbids jd.forbidden x y → Forbids jd'.forbidden x y)
    × ((e : ScoredEdge) → Memᴰ e jd.same_edges → Memᴰ e jd'.same_edges)

-- No entity is forbidden to itself.
abbrev pub IsIrreflexive : Judged → Type 0
IsIrreflexive jd = (n : EntityId) → elem n (forbidden_of jd.forbidden n) ≡ false

module _ (min_score : ℕ) where
  -- A `different` judgement forbids the two to one another; a `same` judgement of enough score is an
  -- edge.
  abbrev pub IsTaken : Judged → Pair × Judgement → Type 0
  IsTaken jd (p, j) =
      (j.verdict ≡ different → Forbids jd.forbidden p.0 p.1 × Forbids jd.forbidden p.1 p.0)
      × (j.verdict ≡ same
          → min_score ≤ full_score j.score
          → Memᴰ (full_score j.score, p) jd.same_edges)

  abbrev Kept : Judged → Pair × Judgement → Judged → Type 0
  Kept jd entry jd' = Grows jd jd' × IsTaken jd' entry × IsIrreflexive jd'

  different-Kept :
      (jd : Judged) (a b : EntityId) (j : Judgement)
      → (a == b) ≡ false
      → j.verdict ≡ different
      → IsIrreflexive jd
      → Kept jd ((a, b), j) (record jd { forbidden = forbid b a (forbid a b jd.forbidden) })
  different-Kept jd a b j ne v irr =
      let once = forbid_lem a b jd.forbidden in
      let twice = forbid_lem b a (forbid a b jd.forbidden) in
      (
        (λ x y h. ground (arith, h, once x y, twice x y), λ e m. m),
        (
          λ _. (
            ground (arith, once a b, twice a b, ==_refl a, ==_refl b),
            ground (arith, twice b a, ==_refl a, ==_refl b),
          ),
          λ s _. absurd (cc (sym s ∙ v)),
        ),
        λ n. ground (
          arith,
          ne,
          irr n,
          once n n,
          twice n n,
          pair_same_iff a b,
          pair_same_iff a n,
          pair_same_iff n a,
          pair_same_iff b n,
          pair_same_iff n b,
        ),
      )

  unchanged-Kept :
      (jd : Judged) (entry : Pair × Judgement)
      → IsIrreflexive jd
      → (¬ (entry.1.verdict ≡ different))
      → (entry.1.verdict ≡ same
          → min_score ≤ full_score entry.1.score
          → Memᴰ (full_score entry.1.score, entry.0) jd.same_edges)
      → Kept jd entry jd
  unchanged-Kept jd entry irr no_bar edge =
      ((λ x y t. t, λ e m. m), (λ w. absurd (no_bar w), edge), irr)

  judge-Kept :
      (jd jd' : Judged) (p : Pair) (j : Judgement)
      → judge min_score jd (p, j) ≡ ok jd'
      → IsIrreflexive jd
      → Kept jd (p, j) jd'
  unfolding judge
  judge-Kept jd jd' (a, b) j h irr = elim (Bool-cases (a == b)) [
    | inl eq ↦ absurd (ground (arith, eq, h))
    | inr ne ↦ elim (Verdict-cases j.verdict) [
      | inr (inl v) ↦
          let e : ok (record jd { forbidden = forbid b a (forbid a b jd.forbidden) }) ≡ ok jd' =
            ground (arith, ne, v, h) in
          subst (Kept jd ((a, b), j)) (ok_inj e) (different-Kept jd a b j ne v irr)
      | inr (inr v) ↦
          let e : ok jd ≡ ok jd' = ground (arith, ne, v, h) in
          subst (Kept jd ((a, b), j)) (ok_inj e)
            (unchanged-Kept jd ((a, b), j) irr (λ w. cc (sym w ∙ v)) (λ w. absurd (cc (sym w ∙ v))))
      | inl v ↦ elim (Bool-cases (leb min_score (full_score j.score))) [
        | inl le ↦
            let e : ok
                  (record jd { same_edges = jd.same_edges ++ (full_score j.score, (a, b)) ∷ [] })
                ≡ ok jd' =
              ground (arith, ne, v, le, h) in
            subst (Kept jd ((a, b), j)) (ok_inj e) (
              (λ x y t. t, λ e m. (Memᴰ-append e jd.same_edges _).1 (inl m)),
              (
                λ w. absurd (cc (sym w ∙ v)),
                λ _ _.
                    (Memᴰ-append (full_score j.score, (a, b)) jd.same_edges _).1
                      (inr (Memᴰ.head refl)),
              ),
              irr,
            )
        | inr gt ↦
            let e : ok jd ≡ ok jd' = ground (arith, ne, v, gt, h) in
            subst (Kept jd ((a, b), j)) (ok_inj e) (
              unchanged-Kept jd ((a, b), j) irr (λ w. cc (sym w ∙ v))
                (λ _ le. absurd (ground (arith, gt, le))))
      ]
    ]
  ]

  IsTaken-later :
      (jd jd' : Judged) (entry : Pair × Judgement)
      → Grows jd jd'
      → IsTaken jd entry
      → IsTaken jd' entry
  IsTaken-later jd jd' (p, j) (forbids, edges) (d, s) = (
    λ v. (forbids p.0 p.1 (d v).0, forbids p.1 p.0 (d v).1),
    λ v le. edges (full_score j.score, p) (s v le),
  )

  -- Every judgement in effect is taken.
  pub judge_all-IsTaken :
      (jd jd' : Judged) (entries : Dict Pair Judgement)
      → judge_all min_score jd entries ≡ ok jd'
      → IsIrreflexive jd
      → Grows jd jd'
        × IsIrreflexive jd'
        × ((entry : Pair × Judgement) → Memᴰ entry entries → IsTaken jd' entry)
  unfolding judge_all
  judge_all-IsTaken jd jd' [] h irr =
      subst
        (λ (x : Judged).
          Grows jd x
          × IsIrreflexive x
          × ((entry : Pair × Judgement) → Memᴰ entry [] → IsTaken x entry))
        (ok_inj h) ((λ x y t. t, λ e m. m), irr, λ entry m. absurd (Memᴰ.not-nil m))
  judge_all-IsTaken jd jd' ((p, j) ∷ rest) h irr = elim (Result-cases (judge min_score jd (p, j))) [
    | inr (e, stop) ↦ absurd (ground (arith, stop, h))
    | inl (next, e) ↦
        let ((f, g), taken, irr') = judge-Kept jd next p j e irr in
        let ((f', g'), irr'', all) = judge_all-IsTaken next jd' rest (ground (arith, e, h)) irr' in
        (
          (λ x y t. f' x y (f x y t), λ x m. g' x (g x m)),
          irr'',
          λ entry m. elim (Memᴰ.cases_cons m) [
            | inl q ↦ subst (IsTaken jd') (sym q) (IsTaken-later next jd' (p, j) (f', g') taken)
            | inr t ↦ all entry t
          ],
        )
  ]
