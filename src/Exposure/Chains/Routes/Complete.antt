-- ===== src/Exposure/Chains/Routes/Complete.antt =====
-- Every route is reported by the walk.
use coruscant.Prelude.{
  ℕ, zero, suc, ◌+◌, ◌≤◌, ◌<◌, ◌≡◌, refl, sym, ap, ◌∙◌, ◌≢◌, subst, String, true, false, Option,
  some, some_inj, ◌⊎◌, is_nil, eq-nil_of_is_nil, List, [], ◌∷◌, ◌++◌, map, foldl, Memᴰ, arith, elem,
  add, leb, le→leb, Bool-cases, inl, inr, if◌then◌else◌, string_eq,
}
use mathlib.Core.List.{append-nil, append_assoc}
use mathlib.Core.List.Memᴰ
use coruscant.Graph.Types.{GraphEdge}
use coruscant.Graph.Memory.{Store, source_of}
use coruscant.Graph.Substrate.{AccessTier}
use coruscant.Exposure.Chains.{
  Terminal, OwnershipChain, Frame, chain, link, last_holder, owner_edges, follow, leaf, visit, step,
  walk, terminal_for, restricted,
}
use coruscant.Exposure.Chains.Routes.{OwnerEdge, Route, top, back, deep, up, owner_edges_iff}
use coruscant.Exposure.Chains.Routes.Sound.{last_holder-concat}

-- A chain or a frame that is there stays there.
abbrev Keeps : (st st' : List OwnershipChain × List Frame) → Type 0
Keeps st st' =
    ((c : OwnershipChain) → Memᴰ c st.0 → Memᴰ c st'.0) × ((f : Frame) → Memᴰ f st.1 → Memᴰ f st'.1)

module _ (s : Store) (clearance : AccessTier) (on : Option String) (limit : ℕ) where
  follow-Keeps :
      (f : Frame) (st : List OwnershipChain × List Frame) (e : GraphEdge)
      → Keeps st (follow s clearance on limit f st e)
  unfolding follow
  follow-Keeps f (chains, stack) e = elim (Bool-cases (elem e.source_key f.visited)) [
    | inl old ↦ rw old (λ c m. Memᴰ.append_left _ m, λ g m. m)
    | inr new ↦ elim (Bool-cases (leb limit (f.depth + 1))) [
      | inl far ↦ rw (new, far) (λ c m. Memᴰ.append_left _ m, λ g m. m)
      | inr near ↦ rw (new, near) (λ c m. m, λ g m. Memᴰ.tail m)
    ]
  ]

  follow_each-Keeps :
      (f : Frame) (es : List GraphEdge) (st : List OwnershipChain × List Frame)
      → Keeps st (foldl (follow s clearance on limit f) st es)
  follow_each-Keeps f [] st = (λ c m. m, λ g m. m)
  follow_each-Keeps f (e ∷ es) st =
      let (k, h) = follow-Keeps f st e in
      let (k', h') = follow_each-Keeps f es (follow s clearance on limit f st e) in
      (λ c m. k' c (k c m), λ g m. h' g (h g m))

  visit-Keeps :
      (f : Frame) (shown : List GraphEdge × ℕ) (st : List OwnershipChain × List Frame)
      → Keeps st (visit s clearance on limit f shown st)
  unfolding visit
  visit-Keeps f ([], withheld) (chains, stack) = (λ c m. Memᴰ.append_left _ m, λ g m. m)
  visit-Keeps f (e ∷ es, withheld) st = follow_each-Keeps f (e ∷ es) st

  -- One hop of a route, as it stands after the edges of a frame are followed.
  follow-back :
      (f : Frame) (e : GraphEdge) (st : List OwnershipChain × List Frame)
      → elem e.source_key f.visited ≡ true
      → Memᴰ
          (chain (f.prefix ++ link s e ∷ []) Terminal.cycle (some (link s e).holder))
          (follow s clearance on limit f st e).0
  unfolding follow
  follow-back f e (chains, stack) old = rw old (Memᴰ.append_right chains (Memᴰ.head refl))

  follow-deep :
      (f : Frame) (e : GraphEdge) (st : List OwnershipChain × List Frame)
      → elem e.source_key f.visited ≡ false
      → limit ≤ f.depth + 1
      → Memᴰ
          (chain (f.prefix ++ link s e ∷ []) Terminal.max_depth (some (link s e).holder))
          (follow s clearance on limit f st e).0
  unfolding follow
  follow-deep f e (chains, stack) new far =
      rw (new, le→leb limit (f.depth + 1) far) (Memᴰ.append_right chains (Memᴰ.head refl))

  abbrev above : Frame → GraphEdge → Frame
  above f e = record {
    node = source_of e;
    prefix = f.prefix ++ link s e ∷ [];
    visited = add e.source_key f.visited;
    last_relation = some e.relation;
    depth = f.depth + 1;
  }

  follow-up :
      (f : Frame) (e : GraphEdge) (st : List OwnershipChain × List Frame)
      → elem e.source_key f.visited ≡ false
      → f.depth + 1 < limit
      → Memᴰ (above f e) (follow s clearance on limit f st e).1
  unfolding follow
  follow-up f e (chains, stack) new near =
      let far : leb limit (f.depth + 1) ≡ false = ground arith in rw (new, far) (Memᴰ.head refl)

  -- What a frame's route is reported as.
  abbrev reported : Frame → List GraphEdge → Terminal → OwnershipChain
  reported f es t = let ls = f.prefix ++ map (link s) es in chain ls t (last_holder ls)

  reported_one :
      (f : Frame) (e : GraphEdge) (t : Terminal)
      → chain (f.prefix ++ link s e ∷ []) t (some (link s e).holder) ≡ reported f (e ∷ []) t
  reported_one f e t =
      ap (chain (f.prefix ++ link s e ∷ []) t) (sym (last_holder-concat f.prefix (link s e)))

  reported_up :
      (f : Frame) (e : GraphEdge) (es : List GraphEdge) (t : Terminal)
      → reported (above f e) es t ≡ reported f (e ∷ es) t
  reported_up f e es t =
      ap (λ ls. chain ls t (last_holder ls))
        (append_assoc f.prefix (link s e ∷ []) (map (link s) es))

  -- After a frame's turn its route is reported, or goes on from a frame on the stack.
  abbrev IsPending : List OwnershipChain × List Frame → OwnershipChain → Type 0
  IsPending st c =
      Memᴰ c st.0
      ⊎ ((g : Frame) × (es : List GraphEdge) × (t : Terminal) × Memᴰ g st.1
          × Route s clearance on limit g.node g.visited g.depth g.last_relation es t
          × (reported g es t ≡ c)
          × (g.prefix ++ map (link s) es ≢ []))

  IsPending-Keeps :
      (st st' : List OwnershipChain × List Frame) (c : OwnershipChain)
      → Keeps st st'
      → IsPending st c
      → IsPending st' c
  IsPending-Keeps st st' c k (inl m) = inl (k.0 c m)
  IsPending-Keeps st st' c k (inr (g, es, t, m, r, e, p)) = inr (g, es, t, k.1 g m, r, e, p)

  -- What one edge adds is there after all of them.
  follow_each-IsPending :
      (f : Frame) (c : OwnershipChain) (e : GraphEdge)
      → ((st : List OwnershipChain × List Frame) → IsPending (follow s clearance on limit f st e) c)
      → (es : List GraphEdge) (st : List OwnershipChain × List Frame) → Memᴰ e es
      → IsPending (foldl (follow s clearance on limit f) st es) c
  follow_each-IsPending f c e here [] st m = absurd (Memᴰ.not-nil m)
  follow_each-IsPending f c e here (x ∷ es) st m =
      let next = follow s clearance on limit f st x in
      elim (Memᴰ.cases_cons m) [
        | inl p ↦
            IsPending-Keeps next (foldl (follow s clearance on limit f) next es) c
              (follow_each-Keeps f es next)
              (subst (λ y. IsPending (follow s clearance on limit f st y) c) p (here st))
        | inr t ↦ follow_each-IsPending f c e here es next t
      ]

  into_shown :
      (f : Frame) (e : GraphEdge) {shown : List GraphEdge × ℕ}
      → owner_edges s clearance on f.node ≡ shown
      → OwnerEdge s clearance on f.node e
      → Memᴰ e shown.0
  into_shown f e p o = subst (λ q. Memᴰ e q.0) p ((owner_edges_iff s clearance on f.node e).1 o)

  abbrev end_at : Frame → ℕ → Terminal
  end_at f withheld = if leb 1 withheld then restricted else terminal_for s f.node f.last_relation

  leaf_proper :
      (f : Frame) (withheld : ℕ)
      → is_nil f.prefix ≡ false
      → leaf s clearance on limit f withheld
        ≡ chain f.prefix (end_at f withheld) (last_holder f.prefix) ∷ []
  unfolding leaf
  leaf_proper f withheld e = rw e refl

  leaf-reported :
      (f : Frame) (withheld : ℕ)
      → f.prefix ++ [] ≢ []
      → Memᴰ (reported f [] (end_at f withheld)) (leaf s clearance on limit f withheld)
  leaf-reported f withheld h = elim (Bool-cases (is_nil f.prefix)) [
    | inl empty ↦ absurd (h (append-nil f.prefix ∙ eq-nil_of_is_nil f.prefix empty))
    | inr e ↦
        subst (Memᴰ (reported f [] (end_at f withheld))) (sym (leaf_proper f withheld e))
          (Memᴰ.head (ap (λ k. chain k (end_at f withheld) (last_holder k)) (append-nil f.prefix)))
  ]

  visit-IsPending :
      (f : Frame) (shown : List GraphEdge × ℕ) (chains : List OwnershipChain) (stack : List Frame)
      {es : List GraphEdge} {t : Terminal}
      → owner_edges s clearance on f.node ≡ shown
      → Route s clearance on limit f.node f.visited f.depth f.last_relation es t
      → f.prefix ++ map (link s) es ≢ []
      → IsPending (visit s clearance on limit f shown (chains, stack)) (reported f es t)
  unfolding visit
  visit-IsPending f ([], withheld) chains stack p (top none_above end) h = inl (
      rw (end, ap (λ (q : List GraphEdge × ℕ). q.1) p)
        (Memᴰ.append_right chains (leaf-reported f withheld h)))
  visit-IsPending f (x ∷ xs, withheld) chains stack p (top none_above end) h = absurd (
      none_above x (
        (owner_edges_iff s clearance on f.node x).0
          (subst (λ q. Memᴰ x q.0) (sym p) (Memᴰ.head refl))))
  visit-IsPending f ([], withheld) chains stack p (back {e} o old) h =
      absurd (Memᴰ.not-nil (into_shown f e p o))
  visit-IsPending f (x ∷ xs, withheld) chains stack p (back {e} o old) h =
      follow_each-IsPending f (reported f (e ∷ []) Terminal.cycle) e
        (λ st. inl (
          subst (λ c. Memᴰ c (follow s clearance on limit f st e).0)
            (reported_one f e Terminal.cycle) (follow-back f e st old)))
        (x ∷ xs) (chains, stack) (into_shown f e p o)
  visit-IsPending f ([], withheld) chains stack p (deep {e} o new far) h =
      absurd (Memᴰ.not-nil (into_shown f e p o))
  visit-IsPending f (x ∷ xs, withheld) chains stack p (deep {e} o new far) h =
      follow_each-IsPending f (reported f (e ∷ []) Terminal.max_depth) e
        (λ st. inl (
          subst (λ c. Memᴰ c (follow s clearance on limit f st e).0)
            (reported_one f e Terminal.max_depth) (follow-deep f e st new far)))
        (x ∷ xs) (chains, stack) (into_shown f e p o)
  visit-IsPending f ([], withheld) chains stack p (up {e} o new near r) h =
      absurd (Memᴰ.not-nil (into_shown f e p o))
  visit-IsPending f (x ∷ xs, withheld) chains stack p (up {e} {es} {t} o new near r) h =
      follow_each-IsPending f (reported f (e ∷ es) t) e
        (λ st. inr (
          above f e,
          es,
          t,
          follow-up f e st new near,
          r,
          reported_up f e es t,
          λ empty. h (sym (append_assoc f.prefix (link s e ∷ []) (map (link s) es)) ∙ empty),
        ))
        (x ∷ xs) (chains, stack) (into_shown f e p o)

  turn :
      (f : Frame) (chains : List OwnershipChain) (stack : List Frame) (c : OwnershipChain)
      → IsPending (chains, f ∷ stack) c
      → IsPending (step s clearance on limit f (chains, stack)) c
  turn f chains stack c (inl m) =
      inl ((visit-Keeps f (owner_edges s clearance on f.node) (chains, stack)).0 c m)
  turn f chains stack c (inr (g, es, t, m, r, e, h)) = elim (Memᴰ.cases_cons m) [
    | inl p ↦
        subst (λ x. IsPending (step s clearance on limit x (chains, stack)) c) p
          (subst (IsPending (step s clearance on limit g (chains, stack))) e
            (visit-IsPending g (owner_edges s clearance on g.node) chains stack refl r h))
    | inr later ↦ inr (
      g,
      es,
      t,
      (visit-Keeps f (owner_edges s clearance on f.node) (chains, stack)).1 g later,
      r,
      e,
      h,
    )
  ]

  -- What is reported, or waits on the stack, is reported in the end.
  pub walk-reports :
      (fuel : ℕ) (chains : List OwnershipChain) (stack : List Frame) {out : List OwnershipChain}
      (c : OwnershipChain)
      → walk s clearance on limit fuel (chains, stack) ≡ some out
      → IsPending (chains, stack) c
      → Memᴰ c out
  unfolding walk
  walk-reports fuel chains [] c w (inl m) = subst (Memᴰ c) (some_inj w) m
  walk-reports fuel chains [] c w (inr (g, es, t, m, r, e, h)) = absurd (Memᴰ.not-nil m)
  walk-reports zero chains (f ∷ stack) c w m = cc
  walk-reports (suc fuel) chains (f ∷ stack) c w m =
      let st = step s clearance on limit f (chains, stack) in
      walk-reports fuel st.0 st.1 c w (turn f chains stack c m)
