-- ===== src/Resolution/Canonical/Stamped.antt =====
-- What the projection leaves in the store.
use coruscant.Prelude.{
  ◌+◌, ◌&&◌, elem, ◌≡◌, refl, sym, ap, ◌∙◌, subst, ◌⊎◌, inl, inr, ℕ, String, true, false, Option,
  none, some, List, [], ◌∷◌, ◌++◌, arith, Bool-cases, Option-cases, ok, Result-cases, ◌==◌, leb,
  length, string_eq, pair_eq, pair_same_iff, string_ord, pair_ord, elem, ◌&&◌,
}
use text.Mathlib.TextEquality.{eq_iff}
use mathlib.Core.List.{append_assoc, append-nil}
use coruscant.Prelude.Dict
use coruscant.Prelude.Dict.{get-set}
use coruscant.Prelude.Sort.{sort_by}
use coruscant.Graph.Types.{str, EntityId, GraphNode, GraphEdge}
use coruscant.Graph.Memory.{Store, get_node, upsert_node, upsert_edge, identity}
use coruscant.Graph.Memory.Laws.{IsValid, upsert_node-IsValid, upsert_edge-IsValid}
use coruscant.Graph.Substrate.{public, tier, stamp}
use coruscant.Resolution.Cluster.{ClusterResult, first_of, itself}
use coruscant.Resolution.Cluster.Judgements.{ok_inj}
use coruscant.Resolution.Canonical.{
  stamp_member, project_member, project_members, canonical_node, project_cluster, project_all,
  project_canonical,
}

-- The node is still there, or still missing, and its properties but the canonical id are the same.
abbrev pub IsRestamped : Option GraphNode → Option GraphNode → Type 0
IsRestamped none o = o ≡ none
IsRestamped (some n) none = ⊥
IsRestamped (some n) (some n') =
    (k : String)
    → (k == "canonical_id") ≡ false
    → Dict.get k n'.properties ≡ Dict.get k n.properties

-- Outside the nodes of kind `Canonical`, only canonical ids are set, and edges are only added.
pub record IsProjection (s s' : Store) : Type 0 where
  pub restamped :
      (i : EntityId) → (i.0 == "Canonical") ≡ false → IsRestamped (get_node s i) (get_node s' i)
  pub kept : (later : List GraphEdge) × (s'.edges ≡ s.edges ++ later)
  pub valid : IsValid s → IsValid s'

IsRestamped-refl : (o : Option GraphNode) → IsRestamped o o
IsRestamped-refl none = refl
IsRestamped-refl (some n) = λ k h. refl

IsRestamped-trans : (a b c : Option GraphNode) → IsRestamped a b → IsRestamped b c → IsRestamped a c
IsRestamped-trans none b c p q = subst (λ o. IsRestamped o c) p q
IsRestamped-trans (some n) none c p q = absurd p
IsRestamped-trans (some n) (some m) none p q = q
IsRestamped-trans (some n) (some m) (some l) p q = λ k h. q k h ∙ p k h

IsProjection-refl : (s : Store) → IsProjection s s
IsProjection-refl s = record {
  restamped = λ i h. IsRestamped-refl (get_node s i);
  kept = ([], sym (append-nil s.edges));
  valid = λ v. v;
}

IsProjection-trans : {s t u : Store} → IsProjection s t → IsProjection t u → IsProjection s u
IsProjection-trans {s} {t} {u} p q = record {
  restamped = λ i h.
      IsRestamped-trans (get_node s i) (get_node t i) (get_node u i) (p.restamped i h)
        (q.restamped i h);
  kept =
      let (a, e) = p.kept in
      let (b, f) = q.kept in (a ++ b, f ∙ ap (λ l. l ++ b) e ∙ append_assoc s.edges a b);
  valid = λ v. q.valid (p.valid v);
}

upsert_edge-IsProjection : (e : GraphEdge) (s : Store) → IsProjection s (upsert_edge e s)
unfolding upsert_edge get_node
upsert_edge-IsProjection e s = record {
  restamped = λ i h. elim (Bool-cases (elem (identity e) s.edge_ids)) [
    | inl old ↦ rw old (IsRestamped-refl (Dict.get i s.nodes))
    | inr new ↦ rw new (IsRestamped-refl (Dict.get i s.nodes))
  ];
  kept = elim (Bool-cases (elem (identity e) s.edge_ids)) [
    | inl old ↦ ([], rw old (sym (append-nil s.edges)))
    | inr new ↦ (e ∷ [], rw new refl)
  ];
  valid = upsert_edge-IsValid e s;
}

-- A write of a node of kind `Canonical`, or of one that was there with another canonical id.
upsert_node-IsProjection :
    (n : GraphNode) (s : Store)
    → ((n.kind == "Canonical") ≡ true) ⊎ IsRestamped (get_node s (n.kind, n.key)) (some n)
    → IsProjection s (upsert_node n s)
unfolding upsert_node get_node
upsert_node-IsProjection n s h = record {
  restamped = λ i other.
      let got = get-set (n.kind, n.key) i n s.nodes in
      elim (Bool-cases ((n.kind == i.0) && (n.key == i.1))) [
        | inl here ↦
            let p : (n.kind, n.key) ≡ i = (pair_same_iff (n.kind, n.key) i).0 here in
            let e : Dict.get i (Dict.set (n.kind, n.key) n s.nodes) ≡ some n =
              ground (arith, here, got) in
            subst (IsRestamped (Dict.get i s.nodes)) (sym e) (elim h [
              | inl c ↦ absurd (cc (sym c ∙ ap (λ (x : EntityId). x.0 == "Canonical") p ∙ other))
              | inr r ↦ subst (λ (x : EntityId). IsRestamped (Dict.get x s.nodes) (some n)) p r
            ])
        | inr there ↦
            let e : Dict.get i (Dict.set (n.kind, n.key) n s.nodes) ≡ Dict.get i s.nodes =
              ground (arith, there, got) in
            subst (IsRestamped (Dict.get i s.nodes)) (sym e) (IsRestamped-refl (Dict.get i s.nodes))
      ];
  kept = ([], sym (append-nil s.edges));
  valid = upsert_node-IsValid n s;
}

stamp_member-IsProjection :
    (cid : String) (s : Store) (m : EntityId) → IsProjection s (stamp_member cid s m)
unfolding stamp_member
stamp_member-IsProjection cid s (kind, key) = elim (Option-cases (get_node s (kind, key))) [
  | inl e ↦
      let f : stamp_member cid s (kind, key) ≡ s = ground (arith, e) in
      subst (IsProjection s) (sym f) (IsProjection-refl s)
  | inr (n, e) ↦
      let n' : GraphNode = record {
        kind = kind;
        key = key;
        properties = Dict.set "canonical_id" (str cid) n.properties;
      } in
      let same : IsRestamped (some n) (some n') = λ k h. ground (
        arith,
        h,
        get-set "canonical_id" k (str cid) n.properties,
        eq_iff "canonical_id" k,
        eq_iff k "canonical_id",
      ) in
      let f : stamp_member cid s (kind, key) ≡ upsert_node n' s = ground (arith, e) in
      subst (IsProjection s) (sym f)
        (upsert_node-IsProjection n' s (inr (subst (λ o. IsRestamped o (some n')) (sym e) same)))
]

project_member-IsProjection :
    (cid at : String) (s s' : Store) (m : EntityId)
    → project_member cid at s m ≡ ok s'
    → IsProjection s s'
unfolding project_member
project_member-IsProjection cid at s s' (kind, key) h =
    elim (Result-cases (stamp [] "resolver" (tier public) at none none)) [
      | inr (x, e) ↦ absurd (ground (arith, e, h))
      | inl (props, e) ↦
          let edge : GraphEdge = record {
            source_kind = kind;
            source_key = key;
            relation = "resolves_to";
            target_kind = "Canonical";
            target_key = cid;
            properties = props;
          } in
          let f : ok (upsert_edge edge (stamp_member cid s (kind, key))) ≡ ok s' =
            ground (arith, e, h) in
          subst (IsProjection s) (ok_inj f) (
            IsProjection-trans (stamp_member-IsProjection cid s (kind, key))
              (upsert_edge-IsProjection edge (stamp_member cid s (kind, key))))
    ]

project_members-IsProjection :
    (cid at : String) (s s' : Store) (ms : List EntityId)
    → project_members cid at s ms ≡ ok s'
    → IsProjection s s'
unfolding project_members
project_members-IsProjection cid at s s' [] h =
    subst (IsProjection s) (ok_inj h) (IsProjection-refl s)
project_members-IsProjection cid at s s' (m ∷ ms) h =
    elim (Result-cases (project_member cid at s m)) [
      | inr (x, e) ↦ absurd (ground (arith, e, h))
      | inl (t, e) ↦
          IsProjection-trans (project_member-IsProjection cid at s t m e)
            (project_members-IsProjection cid at t s' ms (ground (arith, e, h)))
    ]

project_cluster-IsProjection :
    (result : ClusterResult) (at : String) (st st' : Store × ℕ) (comp : List EntityId)
    → project_cluster result at st comp ≡ ok st'
    → IsProjection st.0 st'.0
unfolding project_cluster
project_cluster-IsProjection result at (s, n) st' comp h = elim (Bool-cases (leb 2 (length comp))) [
  | inr small ↦
      let f : ok (s, n) ≡ ok st' = ground (arith, small, h) in
      subst (λ (x : Store × ℕ). IsProjection s x.0) (ok_inj f) (IsProjection-refl s)
  | inl large ↦ elim (Option-cases (first_of comp)) [
    | inl e ↦
        let f : ok (s, n) ≡ ok st' = ground (arith, large, e, h) in
        subst (λ (x : Store × ℕ). IsProjection s x.0) (ok_inj f) (IsProjection-refl s)
    | inr (first, e) ↦ elim (Option-cases (Dict.get first result.canonical_id)) [
      | inl g ↦ absurd (ground (arith, large, e, g, h))
      | inr (cid, g) ↦
          let node = canonical_node cid comp in
          elim (Result-cases (project_members cid at (upsert_node node s) (sort_by itself comp))) [
            | inr (x, stop) ↦ absurd (ground (arith, large, e, g, stop, h))
            | inl (s', done) ↦
                let f : ok (s', n + 1) ≡ ok st' = ground (arith, large, e, g, done, h) in
                subst (λ (x : Store × ℕ). IsProjection s x.0) (ok_inj f)
                  (IsProjection-trans (upsert_node-IsProjection node s (inl refl)) (
                    project_members-IsProjection cid at (upsert_node node s) s'
                      (sort_by itself comp) done))
          ]
    ]
  ]
]

project_all-IsProjection :
    (result : ClusterResult) (at : String) (st st' : Store × ℕ) (comps : List (List EntityId))
    → project_all result at st comps ≡ ok st'
    → IsProjection st.0 st'.0
unfolding project_all
project_all-IsProjection result at st st' [] h =
    subst (λ (x : Store × ℕ). IsProjection st.0 x.0) (ok_inj h) (IsProjection-refl st.0)
project_all-IsProjection result at st st' (c ∷ cs) h =
    elim (Result-cases (project_cluster result at st c)) [
      | inr (x, e) ↦ absurd (ground (arith, e, h))
      | inl (t, e) ↦
          IsProjection-trans (project_cluster-IsProjection result at st t c e)
            (project_all-IsProjection result at t st' cs (ground (arith, e, h)))
    ]

-- When the projection returns, it has lost nothing: a node that is not of kind `Canonical` keeps
-- every property but its canonical id and none is made, the edges that are there stay in front,
-- and the store stays valid.
pub project_canonical-IsProjection :
    (s s' : Store) (result : ClusterResult) (observed_at : String) (projected : ℕ)
    → project_canonical s result observed_at ≡ ok (s', projected)
    → IsProjection s s'
unfolding project_canonical
project_canonical-IsProjection s s' result observed_at projected h =
    project_all-IsProjection result observed_at (s, 0) (s', projected) result.clusters h
