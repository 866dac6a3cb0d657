-- ===== src/Resolution/Log/Decisions.antt =====
-- A decision is appended to the log and takes effect for its pair only; a retraction undoes.
use coruscant.Prelude.{
  ◌≡◌, refl, sym, ap, ◌∙◌, subst, ◌≢◌, inl, inr, ℕ, String, true, false, Option, none, some, List,
  [], ◌∷◌, ◌++◌, foldl, Memᴰ, arith, ◌==◌, ◌<=◌, ok, string_eq, pair_eq, pair_same_iff, string_ord,
  pair_ord, pair_total, pair_antisym, Memᴰ-append, some_inj,
}
use coruscant.Prelude.Dict
use coruscant.Graph.Types.{EntityId}
use coruscant.Resolution.Log.{
  Judgement, Verdict, undecided, Pair, pair, pair_of, endpoints, Resolver, decide, retract,
  supersede, current,
}
use coruscant.Resolution.Log.Latest.{
  current-IsLatest, IsLatest, get-supersede-new, get-supersede-other,
}

foldl-concat :
    {A B : Type 0} (f : B → A → B) (b : B) (xs : List A) (a : A)
    → foldl f b (xs ++ a ∷ []) ≡ f (foldl f b xs) a
foldl-concat f b [] a = refl
foldl-concat f b (x ∷ xs) a = foldl-concat f (f b x) xs a

-- The pair does not depend on the order of the two entities.
pub pair_of_comm : (a b : EntityId) → pair_of a b ≡ pair_of b a
pair_of_comm a b = ground (arith, pair_total a b, pair_antisym a b)

IsLatest-mem : {p : Pair} {log : List Judgement} {j : Judgement} → IsLatest p log j → Memᴰ j log
IsLatest-mem {j} w =
    subst (Memᴰ j) (sym w.place) ((Memᴰ-append j w.before (j ∷ w.after)).1 (inr (Memᴰ.head refl)))

-- The date is not before that of any judgement of the pair.
abbrev pub IsNow : Pair → String → Resolver → Type 0
IsNow p date r = (k : Judgement) → Memᴰ k r.log → pair k ≡ p → (k.decided_at <= date) ≡ true

module _ (left right : EntityId) (verdict : Verdict) (decided_at : String) (score : Option ℕ)
    (method decided_by : String) (note : Option String) (r : Resolver) where
  -- A decision on two different entities, dated not before the earlier ones on them, is appended to
  -- the log and is then in effect for the two; for every other pair the judgement in effect stays.
  pub decide_takes_effect :
      left ≢ right
      → IsNow (pair_of left right) decided_at r
      → (j : Judgement) × (r' : Resolver) × (decide left right verdict decided_at score method
            decided_by note r
          ≡ ok (j, r'))
        × (r'.log ≡ r.log ++ j ∷ [])
        × (endpoints j ≡ (left, right))
        × (Dict.get (pair_of left right) (current r') ≡ some j)
        × (j.verdict ≡ verdict)
        × ((p : Pair) → p ≢ pair_of left right → Dict.get p (current r') ≡ Dict.get p (current r))
  unfolding decide current pair
  decide_takes_effect proper now =
      let j : Judgement = record {
        left_kind = left.0;
        left_key = left.1;
        right_kind = right.0;
        right_key = right.1;
        verdict = verdict;
        score = score;
        method = method;
        decided_by = decided_by;
        decided_at = decided_at;
        note = note;
      } in
      let all = foldl-concat supersede [] r.log j in
      let differ : (left == right) ≡ false = ground (arith, proper, pair_same_iff left right) in
      let latest : (x : Judgement)
          → Dict.get (pair j) (current r) ≡ some x
          → (x.decided_at <= decided_at) ≡ true =
        λ x e. elim (current-IsLatest r (pair j)) [
          | inl (f, _) ↦ absurd (cc (sym f ∙ e))
          | inr (y, f, w) ↦
              subst (λ (z : Judgement). (z.decided_at <= decided_at) ≡ true) (some_inj (sym f ∙ e))
                (now y (IsLatest-mem w) w.of_pair)
        ] in
      (
        j,
        record { log = r.log ++ j ∷ [] },
        rw differ refl,
        refl,
        refl,
        ap (Dict.get (pair j)) all ∙ get-supersede-new (current r) j latest,
        refl,
        λ p other.
            ap (Dict.get p) all
            ∙ get-supersede-other p (current r) j
                (ground (arith, pair_same_iff (pair j) p, λ (q : pair j ≡ p). other (sym q))),
      )

-- A retraction, with the entities in either order and dated not before the judgements on them, leaves
-- every one of these in the log, and the two are undecided.
pub retract_undoes :
    (left right : EntityId) (decided_at decided_by : String) (note : Option String) (r : Resolver)
    → left ≢ right
    → IsNow (pair_of left right) decided_at r
    → (j : Judgement) × (r' : Resolver) × (retract left right decided_at decided_by note r
        ≡ ok (j, r'))
      × ((k : Judgement) → Memᴰ k r.log → Memᴰ k r'.log)
      × (Dict.get (pair_of right left) (current r') ≡ some j)
      × (j.verdict ≡ undecided)
unfolding retract
retract_undoes left right decided_at decided_by note r proper now =
    let (j, r', done, appended, _, effect, verdict, _) =
      decide_takes_effect left right undecided decided_at none "retraction" decided_by note r proper
        now in
    (
      j,
      r',
      done,
      λ k m. subst (Memᴰ k) (sym appended) ((Memᴰ-append k r.log (j ∷ [])).1 (inl m)),
      subst (λ p. Dict.get p (current r') ≡ some j) (pair_of_comm left right) effect,
      verdict,
    )
