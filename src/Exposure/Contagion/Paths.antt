-- ===== src/Exposure/Contagion/Paths.antt =====
-- Every member has a path of evidence from the seed, and no company is a member twice.
use coruscant.Prelude.{
  ℕ, zero, suc, ◌≤◌, ◌<◌, ◌≡◌, refl, sym, subst, true, false, Option, some, String, List, [], ◌∷◌,
  ◌++◌, map, map-append, foldl, length, length-append, Memᴰ, elem, elem-add, elem-append, add,
  arith, Bool-cases, inl, inr, leb, pair_eq, string_eq, All, All-append, Distinct, Distinct-concat,
  some_inj, ◌==◌,
}
use text.Mathlib.TextEquality.{eq_iff}
use coruscant.Graph.Types.{EntityId}
use coruscant.Graph.Memory.{Store}
use coruscant.Graph.Substrate.{AccessTier}
use coruscant.Exposure.Ownership.{ref}
use coruscant.Exposure.Contagion.{
  ContagionHop, ContagionMember, Entry, Found, member, classify_link, reach, adjacent, expand,
  search, first_found,
}
use coruscant.Exposure.Contagion.Steps.{IsHop, IsPath, stay, step, adjacent_iff}

abbrev pub member_id : ContagionMember → EntityId
member_id m = (m.company.kind, m.company.key)

module _ (s : Store) (clearance : AccessTier) (on : Option String) (limit : ℕ)
    (seed : EntityId) where
  -- The member is a company, as the store names it, with a path of at least one hop and at most
  -- `limit` from the seed, which it counts and whose link it reports.
  pub record IsInherited (m : ContagionMember) : Type 0 where
    pub company : m.company.kind ≡ "Company"
    pub named : m.company ≡ ref s (member_id m)
    pub path : IsPath s clearance on seed m.path (member_id m)
    pub counted : m.hops ≡ length m.path
    pub some_hop : 1 ≤ m.hops
    pub near : m.hops ≤ limit
    pub linked : (m.link ≡ (classify_link m.path).0) × (m.shared_owner ≡ (classify_link m.path).1)

  -- An entry of the queue is at the end of its path.
  abbrev pub IsReached : Entry → Type 0
  IsReached (n, path) = IsPath s clearance on seed path n × (length path ≤ limit)

  IsInherited-member :
      (n : EntityId) (path : List ContagionHop)
      → (n.0 == "Company") ≡ true
      → IsReached (n, path)
      → 1 ≤ length path
      → IsInherited (member s n path)
  unfolding ref
  IsInherited-member n path h (p, far) hop = record {
    company = (eq_iff n.0 "Company").0 h;
    named = refl;
    path = p;
    counted = refl;
    some_hop = hop;
    near = far;
    linked = (refl, refl);
  }

  -- The seed and the members have been seen, and none of them twice.
  abbrev pub IsFresh : Found → Type 0
  IsFresh found =
      Distinct (seed ∷ map member_id found.members)
      × ((n : EntityId)
          → elem n (seed ∷ map member_id found.members) ≡ true
          → elem n found.seen ≡ true)

  abbrev pub IsSound : List Entry × Found → Type 0
  IsSound (queue, found) = All IsReached queue × All IsInherited found.members × IsFresh found

  IsFresh-company :
      (found : Found) (n : EntityId) (path : List ContagionHop)
      → elem n found.seen ≡ false
      → IsFresh found
      → IsFresh (record found {
        seen = add n found.seen;
        members = found.members ++ member s n path ∷ [];
      })
  unfolding ref
  IsFresh-company found n path new (d, all) =
      let e : map member_id (found.members ++ member s n path ∷ [])
          ≡ map member_id found.members ++ n ∷ [] =
        map-append member_id found.members (member s n path ∷ []) in
      let old : elem n (seed ∷ map member_id found.members) ≡ false = ground (arith, all n, new) in
      (
        subst (λ ids. Distinct (seed ∷ ids)) (sym e)
            (Distinct-concat n (seed ∷ map member_id found.members) d old),
        λ x m. ground (
          arith,
          all x,
          elem-add x n found.seen,
          elem-append x (map member_id found.members) (n ∷ []),
          subst (λ ids. elem x (seed ∷ ids) ≡ true) e m,
        ),
      )

  reach-IsSound :
      (path : List ContagionHop) (i : EntityId) (st : List Entry × Found)
      (next : EntityId × ContagionHop)
      → IsPath s clearance on seed path i
      → length path < limit
      → IsHop s clearance on i next.1 next.0
      → IsSound st
      → IsSound (reach s path st next)
  unfolding reach
  reach-IsSound path i (queue, found) (n, h) p near w (q, m, f) =
      let far : length (path ++ h ∷ []) ≤ limit = omega (arith, length-append path (h ∷ [])) in
      let hop : 1 ≤ length (path ++ h ∷ []) = omega (arith, length-append path (h ∷ [])) in
      let reached : IsReached (n, path ++ h ∷ []) = (step p w, far) in
      let queued = All-append IsReached queue ((n, path ++ h ∷ []) ∷ []) q (reached, tt) in
      elim (Bool-cases (elem n found.seen)) [
        | inl old ↦ rw old (q, m, f)
        | inr new ↦ elim (Bool-cases (n.0 == "Company")) [
          | inl c ↦
              rw (new, c)
                (
                  queued,
                  All-append IsInherited found.members _ m
                      (IsInherited-member n (path ++ h ∷ []) c reached hop, tt),
                  IsFresh-company found n (path ++ h ∷ []) new f,
                )
          | inr c ↦
              rw (new, c)
                (queued, m, (f.0, λ x k. ground (arith, f.1 x, k, elem-add x n found.seen)))
        ]
      ]

  reach_each-IsSound :
      (path : List ContagionHop) (i : EntityId) (steps : List (EntityId × ContagionHop))
      (st : List Entry × Found)
      → IsPath s clearance on seed path i
      → length path < limit
      → ((x : EntityId × ContagionHop) → Memᴰ x steps → IsHop s clearance on i x.1 x.0)
      → IsSound st
      → IsSound (foldl (reach s path) st steps)
  reach_each-IsSound path i [] st p near w h = h
  reach_each-IsSound path i (x ∷ xs) st p near w h =
      reach_each-IsSound path i xs (reach s path st x) p near (λ y t. w y (Memᴰ.tail t))
        (reach-IsSound path i st x p near (w x (Memᴰ.head refl)) h)

  expand-IsSound :
      (entry : Entry) (queue : List Entry) (found : Found)
      → IsSound (entry ∷ queue, found)
      → IsSound (expand s clearance on limit entry (queue, found))
  unfolding expand
  expand-IsSound (i, path) queue found (q, m, f) = elim (Bool-cases (leb limit (length path))) [
    | inl far ↦ rw far (q.1, m, f)
    | inr near ↦ rw near (
        reach_each-IsSound path i (adjacent s clearance on i).0 (queue, _) q.0.0
          (ground (arith, near)) (λ (j, h). (adjacent_iff s clearance on i j h).0) (q.1, m, f))
  ]

  search-IsSound :
      (fuel : ℕ) (st : List Entry × Found) {found : Found}
      → search s clearance on limit fuel st ≡ some found
      → IsSound st
      → All IsInherited found.members × IsFresh found
  unfolding search
  search-IsSound fuel ([], found) e (q, m, f) =
      subst (λ (x : Found). All IsInherited x.members × IsFresh x) (some_inj e) (m, f)
  search-IsSound zero (entry ∷ queue, found) e h = cc
  search-IsSound (suc fuel) (entry ∷ queue, found) e h =
      search-IsSound fuel (expand s clearance on limit entry (queue, found)) e
        (expand-IsSound entry queue found h)

  -- The loop from the seed.
  pub search-IsSound_at :
      (fuel : ℕ) {found : Found}
      → search s clearance on limit fuel ((seed, []) ∷ [], first_found seed) ≡ some found
      → All IsInherited found.members × IsFresh found
  search-IsSound_at fuel e =
      search-IsSound fuel ((seed, []) ∷ [], first_found seed) e
        (((stay, omega arith), tt), tt, ((refl, tt), λ n m. m))
