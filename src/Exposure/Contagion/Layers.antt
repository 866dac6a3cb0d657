-- ===== src/Exposure/Contagion/Layers.antt =====
-- The loop of `group_contagion` is breadth first: a node gets its entry at its distance from the seed.
use coruscant.Prelude.{
  ℕ, ◌+◌, ◌≤◌, ◌<◌, ◌≡◌, refl, sym, ap, ◌∙◌, subst, true, Option, String, List, [], ◌∷◌, ◌++◌,
  foldl, length, length-append, Memᴰ, elem, elem-add, Memᴰ-append, arith, Bool-cases, ◌⊎◌, inl, inr,
  leb, pair_eq, string_eq, ◌==◌, if◌then◌else◌, pair_same_iff,
}
use mathlib.Core.List.Memᴰ
use coruscant.Graph.Types.{EntityId}
use coruscant.Graph.Memory.{Store}
use coruscant.Graph.Substrate.{AccessTier}
use coruscant.Exposure.Contagion.{
  ContagionHop, ContagionMember, Entry, Found, member, reach, adjacent, expand,
}
use coruscant.Exposure.Contagion.Steps.{IsHop, adjacent_iff}

-- The entries' paths never get shorter, and their lengths lie between the bounds.
abbrev IsRising : ℕ → ℕ → List Entry → Type 0
IsRising low high [] = Unit
IsRising low high (e ∷ es) =
    (low ≤ length e.1) × (length e.1 ≤ high) × IsRising (length e.1) high es

IsRising-le :
    (low high high' : ℕ) (es : List Entry)
    → high ≤ high'
    → IsRising low high es
    → IsRising low high' es
IsRising-le low high high' [] h k = tt
IsRising-le low high high' (e ∷ es) h (l, u, k) =
    (l, omega arith, IsRising-le (length e.1) high high' es h k)

IsRising-concat :
    (low high : ℕ) (es : List Entry) (x : Entry)
    → low ≤ high
    → length x.1 ≡ high
    → IsRising low high es
    → IsRising low high (es ++ x ∷ [])
IsRising-concat low high [] x h p k = (omega arith, omega arith, tt)
IsRising-concat low high (e ∷ es) x h p (l, u, k) =
    (l, u, IsRising-concat (length e.1) high es x u p k)

-- Among the entries so far, the node has one with a path of at most `n` hops.
abbrev pub Has : List Entry → EntityId → ℕ → Type 0
Has history v n = (e : Entry) × Memᴰ e history × (e.0 ≡ v) × (length e.1 ≤ n)

abbrev pub Extends : List Entry → List Entry → Type 0
Extends history later = (e : Entry) → Memᴰ e history → Memᴰ e later

Has-later :
    (history later : List Entry) (v : EntityId) (n : ℕ)
    → Extends history later
    → Has history v n
    → Has later v n
Has-later history later v n x (e, m, p, l) = (e, x e m, p, l)

module _ (s : Store) (clearance : AccessTier) (on : Option String) (limit : ℕ)
    (seed : EntityId) where
  -- Each neighbour of the entry's node has an entry of at most one hop more.
  abbrev pub IsExpanded : List Entry → Entry → Type 0
  IsExpanded history (w, path) =
      length path < limit
      → (v : EntityId) (h : ContagionHop) → IsHop s clearance on w h v
      → Has history v (length path + 1)

  abbrev pub IsListed : List ContagionMember → Entry → Type 0
  IsListed members (v, path) =
      (v ≡ seed) ⊎ ((v.0 == "Company") ≡ true → Memᴰ (member s v path) members)

  -- At the depth `d`; the entry `current` is the one that is being expanded.
  pub record IsLayered (current : Entry → Type 0) (d : ℕ) (history : List Entry)
      (st : List Entry × Found) : Type 0 where
    pub rising : IsRising d (d + 1) st.0
    pub done : (e : Entry) → Memᴰ e history → Memᴰ e st.0 ⊎ (IsExpanded history e ⊎ current e)
    pub known : (n : EntityId) → elem n st.1.seen ≡ true → Has history n (d + 1)
    pub listed : (e : Entry) → Memᴰ e history → IsListed st.1.members e

  abbrev pub Next : (Entry → Type 0) → ℕ → List Entry → List Entry × Found → Type 0
  Next current d history st =
      (later : List Entry) × Extends history later × IsLayered current d later st

  IsListed-later :
      (members : List ContagionMember) (m : ContagionMember) (e : Entry)
      → IsListed members e
      → IsListed (members ++ m ∷ []) e
  IsListed-later members m e (inl p) = inl p
  IsListed-later members m e (inr f) = inr (λ c. (Memᴰ-append _ members (m ∷ [])).1 (inl (f c)))

  reach-IsListed :
      (found : Found) (x : Entry) (e : Entry)
      → IsListed found.members e ⊎ (e ≡ x)
      → IsListed
          (if x.0.0 == "Company" then found.members ++ member s x.0 x.1 ∷ [] else found.members)
          e
  reach-IsListed found x e h = elim (Bool-cases (x.0.0 == "Company")) [
    | inl c ↦ elim h [
      | inl l ↦ rw c (IsListed-later found.members (member s x.0 x.1) e l)
      | inr p ↦ rw c (
          inr (λ k.
            (Memᴰ-append _ found.members (member s x.0 x.1 ∷ [])).1
              (inr (Memᴰ.head (ap (λ (y : Entry). member s y.0 y.1) p)))))
    ]
    | inr c ↦ elim h [
      | inl l ↦ rw c l
      | inr p ↦ rw c (inr (λ k. absurd (cc (sym k ∙ ap (λ (y : Entry). y.0.0 == "Company") p ∙ c))))
    ]
  ]

  reach-Next :
      (current : Entry → Type 0) (path : List ContagionHop) (history : List Entry)
      (st : List Entry × Found) (next : EntityId × ContagionHop)
      → IsLayered current (length path) history st
      → (later : List Entry) × Extends history later
        × IsLayered current (length path) later (reach s path st next)
        × Has later next.0 (length path + 1)
  unfolding reach
  reach-Next current path history (queue, found) (n, h) k =
      let x : Entry = (n, path ++ h ∷ []) in
      let len : length (path ++ h ∷ []) ≡ length path + 1 =
        omega (arith, length-append path (h ∷ [])) in
      let more : Extends history (x ∷ history) = λ e m. Memᴰ.tail m in
      let new_one : Has (x ∷ history) n (length path + 1) =
        (x, Memᴰ.head refl, refl, omega (arith, len)) in
      elim (Bool-cases (elem n found.seen)) [
        | inl old ↦ rw old (history, λ e m. m, k, k.known n old)
        | inr new ↦ rw new (
          x ∷ history,
          more,
          record {
            rising =
                IsRising-concat (length path) (length path + 1) queue x (omega arith) len k.rising;
            done = λ e m. elim (Memᴰ.cases_cons m) [
              | inl p ↦ inl ((Memᴰ-append e queue (x ∷ [])).1 (inr (Memᴰ.head p)))
              | inr t ↦ elim (k.done e t) [
                | inl q ↦ inl ((Memᴰ-append e queue (x ∷ [])).1 (inl q))
                | inr (inl w) ↦ inr (
                    inl (λ l v g u.
                      Has-later history (x ∷ history) v (length e.1 + 1) more (w l v g u)))
                | inr (inr c) ↦ inr (inr c)
              ]
            ];
            known = λ v m. elim (Bool-cases (elem v found.seen)) [
              | inl old ↦ Has-later history (x ∷ history) v (length path + 1) more (k.known v old)
              | inr fresh ↦
                  let p : v ≡ n =
                    (pair_same_iff v n).0 (ground (arith, elem-add v n found.seen, m, fresh)) in
                  subst (λ y. Has (x ∷ history) y (length path + 1)) (sym p) new_one
            ];
            listed = λ e m.
                reach-IsListed found x e
                  (elim (Memᴰ.cases_cons m) [ inl p ↦ inr p | inr t ↦ inl (k.listed e t) ]);
          },
          new_one,
        )
      ]

  reach_each-Next :
      (current : Entry → Type 0) (path : List ContagionHop) (history : List Entry)
      (steps : List (EntityId × ContagionHop)) (st : List Entry × Found)
      → IsLayered current (length path) history st
      → (later : List Entry) × Extends history later
        × IsLayered current (length path) later (foldl (reach s path) st steps)
        × ((x : EntityId × ContagionHop) → Memᴰ x steps → Has later x.0 (length path + 1))
  reach_each-Next current path history [] st k =
      (history, λ e m. m, k, λ x m. absurd (Memᴰ.not-nil m))
  reach_each-Next current path history (x ∷ xs) st k =
      let (h1, more1, k1, has1) = reach-Next current path history st x k in
      let (h2, more2, k2, has2) = reach_each-Next current path h1 xs (reach s path st x) k1 in
      (
        h2,
        λ e m. more2 e (more1 e m),
        k2,
        λ y m. elim (Memᴰ.cases_cons m) [
          | inl p ↦
              subst (λ z. Has h2 z (length path + 1))
                (ap (λ (z : EntityId × ContagionHop). z.0) (sym p))
                (Has-later h1 h2 x.0 (length path + 1) more2 has1)
          | inr t ↦ has2 y t
        ],
      )

  unfoldable pub Nobody : Entry → Type 0
  Nobody e = ⊥

  -- The entry is taken from the queue.
  IsLayered-pop :
      (d : ℕ) (history : List Entry) (entry : Entry) (queue : List Entry) (found : Found) (more : ℕ)
      → IsLayered Nobody d history (entry ∷ queue, found)
      → IsLayered
          (λ e. e ≡ entry)
          (length entry.1)
          history
          (queue, record found { total_withheld = more })
  unfolding Nobody
  IsLayered-pop d history entry queue found more k = record {
    rising =
        IsRising-le (length entry.1) (d + 1) (length entry.1 + 1) queue (omega (arith, k.rising.0))
          k.rising.2;
    done = λ e m. elim (k.done e m) [
      | inl q ↦ elim (Memᴰ.cases_cons q) [ inl p ↦ inr (inr p) | inr t ↦ inl t ]
      | inr (inl w) ↦ inr (inl w)
      | inr (inr c) ↦ absurd c
    ];
    known = λ n m. let (e, t, p, l) = k.known n m in (e, t, p, omega (arith, k.rising.0));
    listed = k.listed;
  }

  -- The entry is expanded.
  IsLayered-close :
      (d : ℕ) (history : List Entry) (entry : Entry) (st : List Entry × Found)
      → IsExpanded history entry
      → IsLayered (λ e. e ≡ entry) d history st
      → IsLayered Nobody d history st
  IsLayered-close d history entry st w k = record {
    rising = k.rising;
    done = λ e m. elim (k.done e m) [
      | inl q ↦ inl q
      | inr (inl x) ↦ inr (inl x)
      | inr (inr p) ↦ inr (inl (subst (IsExpanded history) (sym p) w))
    ];
    known = k.known;
    listed = k.listed;
  }

  -- The depth after the entry has been expanded is the entry's.
  pub expand-Next :
      (d : ℕ) (history : List Entry) (entry : Entry) (queue : List Entry) (found : Found)
      → IsLayered Nobody d history (entry ∷ queue, found)
      → Next Nobody (length entry.1) history (expand s clearance on limit entry (queue, found))
  unfolding expand
  expand-Next d history (i, path) queue found k = elim (Bool-cases (leb limit (length path))) [
    | inl far ↦ rw far (
      history,
      λ e m. m,
      IsLayered-close (length path) history (i, path) (queue, found)
          (λ near. absurd (ground (arith, far, near)))
          (IsLayered-pop d history (i, path) queue found found.total_withheld k),
    )
    | inr near ↦
        let more = found.total_withheld + (adjacent s clearance on i).1 in
        let (later, extends, k', has) =
          reach_each-Next (λ e. e ≡ (i, path)) path history (adjacent s clearance on i).0
            (queue, record found { total_withheld = more })
            (IsLayered-pop d history (i, path) queue found more k) in
        rw near (
          later,
          extends,
          IsLayered-close (length path) later (i, path) _
              (λ _ v h w. has (v, h) ((adjacent_iff s clearance on i v h).1 w)) k',
        )
  ]
