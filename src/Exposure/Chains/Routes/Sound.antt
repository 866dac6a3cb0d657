-- ===== src/Exposure/Chains/Routes/Sound.antt =====
-- Every chain that the walk finds reports a route.
use coruscant.Prelude.{
  ℕ, zero, suc, ◌+◌, ◌<◌, is_nil, if◌then◌else◌, ◌≡◌, refl, sym, ap, ◌∙◌, ◌≢◌, subst, String, false,
  Option, some, List, [], ◌∷◌, ◌++◌, map, foldl, Memᴰ, arith, All, All-append, elem, add, leb,
  Bool-cases, inl, inr, map-append, some_inj, string_eq, leb→le,
}
use mathlib.Core.List.{append-nil, append_assoc}
use mathlib.Core.List.Memᴰ
use coruscant.Graph.Types.{GraphEdge}
use coruscant.Graph.Memory.{Store, source_of}
use coruscant.Graph.Substrate.{AccessTier}
use coruscant.Exposure.Chains.{
  ChainLink, Terminal, restricted, terminal_for, OwnershipChain, Frame, chain, link, last_holder,
  owner_edges, follow, leaf, visit, step, walk,
}
use coruscant.Exposure.Chains.Routes.{
  OwnerEdge, Route, top, back, deep, up, owner_edges_iff, report,
}

pub last_holder-concat :
    (ls : List ChainLink) (l : ChainLink) → last_holder (ls ++ l ∷ []) ≡ some l.holder
unfolding last_holder
last_holder-concat [] l = refl
last_holder-concat (k ∷ []) l = refl
last_holder-concat (k ∷ k' ∷ ls) l = last_holder-concat (k' ∷ ls) l

module _ (s : Store) (clearance : AccessTier) (on : Option String) (limit : ℕ) (first : Frame) where
  -- The chain reports a route of one hop or more from the first frame.
  pub record IsReport (c : OwnershipChain) : Type 0 where
    pub edges : List GraphEdge
    pub end : Terminal
    pub route :
        Route s clearance on limit first.node first.visited first.depth first.last_relation edges
          end
    pub proper : edges ≢ []
    pub reported : c ≡ report s edges end

  -- The links of a frame are those of edges that lead to it: any route from the frame goes on from them.
  pub record IsOnRoute (f : Frame) : Type 0 where
    pub before : List GraphEdge
    pub links : f.prefix ≡ map (link s) before
    pub extends :
        (es : List GraphEdge) (t : Terminal)
        → Route s clearance on limit f.node f.visited f.depth f.last_relation es t
        → Route s clearance on limit first.node first.visited first.depth first.last_relation
            (before ++ es)
            t

  concat_proper : (es : List GraphEdge) (e : GraphEdge) → es ++ e ∷ [] ≢ []
  concat_proper [] e = λ p. cc p
  concat_proper (x ∷ es) e = λ p. cc p

  IsReport-at :
      (f : Frame) (e : GraphEdge) (t : Terminal)
      → IsOnRoute f
      → Route s clearance on limit f.node f.visited f.depth f.last_relation (e ∷ []) t
      → IsReport (chain (f.prefix ++ link s e ∷ []) t (some (link s e).holder))
  IsReport-at f e t h r = record {
    edges = h.before ++ e ∷ [];
    end = t;
    route = h.extends (e ∷ []) t r;
    proper = concat_proper h.before e;
    reported =
        let p : f.prefix ++ link s e ∷ [] ≡ map (link s) (h.before ++ e ∷ []) =
          ap (λ l. l ++ link s e ∷ []) h.links ∙ sym (map-append (link s) h.before (e ∷ [])) in
        ap (chain (f.prefix ++ link s e ∷ []) t) (sym (last_holder-concat f.prefix (link s e)))
        ∙ ap (λ l. chain l t (last_holder l)) p;
  }

  climb :
      (f : Frame) (e : GraphEdge)
      → IsOnRoute f
      → OwnerEdge s clearance on f.node e
      → elem e.source_key f.visited ≡ false
      → f.depth + 1 < limit
      → IsOnRoute (record {
        node = source_of e;
        prefix = f.prefix ++ link s e ∷ [];
        visited = add e.source_key f.visited;
        last_relation = some e.relation;
        depth = f.depth + 1;
      })
  climb f e h o new near = record {
    before = h.before ++ e ∷ [];
    links = ap (λ l. l ++ link s e ∷ []) h.links ∙ sym (map-append (link s) h.before (e ∷ []));
    extends = λ es t r.
        subst
          (λ l.
            Route s clearance on limit first.node first.visited first.depth first.last_relation l t)
          (sym (append_assoc h.before (e ∷ []) es)) (h.extends (e ∷ es) t (up o new near r));
  }

  follow-IsReport :
      (f : Frame) (st : List OwnershipChain × List Frame) (e : GraphEdge)
      → IsOnRoute f
      → OwnerEdge s clearance on f.node e
      → All IsReport st.0 × All IsOnRoute st.1
      → let st' = follow s clearance on limit f st e in All IsReport st'.0 × All IsOnRoute st'.1
  unfolding follow
  follow-IsReport f (chains, stack) e h o k = elim (Bool-cases (elem e.source_key f.visited)) [
    | inl old ↦
        rw old (
          All-append IsReport chains _ k.0 (IsReport-at f e Terminal.cycle h (back o old), tt),
          k.1,
        )
    | inr new ↦ elim (Bool-cases (leb limit (f.depth + 1))) [
      | inl far ↦
          rw (new, far)
            (
              All-append IsReport chains _ k.0 (
                IsReport-at f e Terminal.max_depth h
                    (deep o new (omega (arith, leb→le limit (f.depth + 1) far))),
                tt,
              ),
              k.1,
            )
      | inr near ↦ rw (new, near) (k.0, (climb f e h o new (ground arith), k.1))
    ]
  ]

  follow_each-IsReport :
      (f : Frame) (es : List GraphEdge) (st : List OwnershipChain × List Frame)
      → IsOnRoute f
      → ((e : GraphEdge) → Memᴰ e es → OwnerEdge s clearance on f.node e)
      → All IsReport st.0 × All IsOnRoute st.1
      → let st' = foldl (follow s clearance on limit f) st es in
        All IsReport st'.0 × All IsOnRoute st'.1
  follow_each-IsReport f [] st h o k = k
  follow_each-IsReport f (e ∷ es) st h o k =
      follow_each-IsReport f es (follow s clearance on limit f st e) h (λ x m. o x (Memᴰ.tail m))
        (follow-IsReport f st e h (o e (Memᴰ.head refl)) k)

  IsReport-leaf :
      (f : Frame) (withheld : ℕ)
      → IsOnRoute f
      → owner_edges s clearance on f.node ≡ ([], withheld)
      → is_nil f.prefix ≡ false
      → IsReport (
          chain f.prefix
            (if leb 1 withheld then restricted else terminal_for s f.node f.last_relation)
            (last_holder f.prefix))
  IsReport-leaf f withheld h p e = record {
    edges = h.before;
    end = if leb 1 withheld then restricted else terminal_for s f.node f.last_relation;
    route =
        subst
          (λ es.
            Route s clearance on limit first.node first.visited first.depth first.last_relation es
              (if leb 1 withheld then restricted else terminal_for s f.node f.last_relation))
          (append-nil h.before)
          (h.extends [] _ (
            top
              (λ x o.
                Memᴰ.not-nil
                  (subst (λ q. Memᴰ x q.0) p ((owner_edges_iff s clearance on f.node x).1 o)))
              (ap
                (λ (q : List GraphEdge × ℕ).
                  if leb 1 q.1 then restricted else terminal_for s f.node f.last_relation)
                (sym p))));
    proper = λ none_before. cc (sym e ∙ ap is_nil (h.links ∙ ap (map (link s)) none_before));
    reported =
        ap
          (λ k.
            chain k (if leb 1 withheld then restricted else terminal_for s f.node f.last_relation)
              (last_holder k))
          h.links;
  }

  -- The branch with no owner that is seen.
  leaf-IsReport :
      (f : Frame) (withheld : ℕ)
      → IsOnRoute f
      → owner_edges s clearance on f.node ≡ ([], withheld)
      → All IsReport (leaf s clearance on limit f withheld)
  unfolding leaf
  leaf-IsReport f withheld h p = elim (Bool-cases (is_nil f.prefix)) [
    | inl empty ↦ rw empty tt
    | inr e ↦ rw e (IsReport-leaf f withheld h p e, tt)
  ]

  visit-IsReport :
      (f : Frame) (shown : List GraphEdge × ℕ) (chains : List OwnershipChain) (stack : List Frame)
      → IsOnRoute f
      → owner_edges s clearance on f.node ≡ shown
      → All IsReport chains × All IsOnRoute stack
      → let st' = visit s clearance on limit f shown (chains, stack) in
        All IsReport st'.0 × All IsOnRoute st'.1
  unfolding visit
  visit-IsReport f ([], withheld) chains stack h p k =
      (All-append IsReport chains _ k.0 (leaf-IsReport f withheld h p), k.1)
  visit-IsReport f (e ∷ es, withheld) chains stack h p k =
      follow_each-IsReport f (e ∷ es) (chains, stack) h
        (λ x m. (owner_edges_iff s clearance on f.node x).0 (subst (λ q. Memᴰ x q.0) (sym p) m)) k

  pub walk-IsReport :
      (fuel : ℕ) (chains : List OwnershipChain) (stack : List Frame) {out : List OwnershipChain}
      → walk s clearance on limit fuel (chains, stack) ≡ some out
      → All IsReport chains × All IsOnRoute stack
      → All IsReport out
  unfolding walk
  walk-IsReport fuel chains [] w k = subst (All IsReport) (some_inj w) k.0
  walk-IsReport zero chains (f ∷ stack) w k = cc
  walk-IsReport (suc fuel) chains (f ∷ stack) w (k, h) =
      let st = step s clearance on limit f (chains, stack) in
      let (k', h') =
        visit-IsReport f (owner_edges s clearance on f.node) chains stack h.0 refl (k, h.1) in
      walk-IsReport fuel st.0 st.1 w (k', h')

  pub first-IsOnRoute : first.prefix ≡ [] → All IsOnRoute (first ∷ [])
  first-IsOnRoute p = (record { before = []; links = p; extends = λ es t r. r }, tt)
