-- ===== src/Workspaces/Invariant.antt =====
-- What every transaction of the store keeps.
use coruscant.Prelude.{
  ◌≡◌, refl, sym, ap, ◌∙◌, subst, String, Bool, true, false, none, some, List, [], ◌∷◌, ◌++◌, map,
  map-append, keep, elem, elem_iff, elem-append, All, All-append, All-map_imp, Distinct,
  Distinct-concat, Memᴰ, Memᴰ-map, arith, ◌==◌, ==_refl, string_eq, pair_eq, Eq, Bool-cases, inl,
  inr, Eq,
}
use coruscant.Prelude.Groups.{set_of, elem-set_of}
use coruscant.Workspaces.Store.{
  WorkspaceRow, MemberRow, ItemRow, Tables, find_row, find_item, with_workspace,
}

abbrev pub ids : Tables → List String
ids t = map (λ row. row.id) t.workspaces

abbrev pub item_ids : Tables → List String
item_ids t = map (λ row. row.item.id) t.items

-- (workspace, email)
abbrev pub memberships : Tables → List (String × String)
memberships t = map (λ row. (row.workspace_id, row.email)) t.members

-- No two workspaces and no two items have the same id; the owner of a workspace is one of its members;
-- the rows of members and of items belong to workspaces that are there.
pub record IsValid (t : Tables) : Type 0 where
  pub workspaces_apart : Distinct (ids t)
  pub items_apart : Distinct (item_ids t)
  pub owners_in : All (λ row. elem (row.id, row.owner_email) (memberships t) ≡ true) t.workspaces
  pub members_belong : All (λ row. elem row.workspace_id (ids t) ≡ true) t.members
  pub items_belong : All (λ row. elem row.workspace_id (ids t) ≡ true) t.items

pub find_row-none :
    (id : String) (rows : List WorkspaceRow)
    → find_row id rows ≡ none
    → elem id (map (λ row. row.id) rows) ≡ false
unfolding find_row
find_row-none id [] h = refl
find_row-none id (row ∷ rows) h =
    ground
      (arith, find_row-none id rows, string_eq.same_iff row.id id, string_eq.same_iff id row.id)

pub find_row-some :
    (id : String) (rows : List WorkspaceRow) {row : WorkspaceRow}
    → find_row id rows ≡ some row
    → (row.id ≡ id) × Memᴰ row rows
unfolding find_row
find_row-some id [] h = absurd (cc h)
find_row-some id (r ∷ rows) {row} h = elim (Bool-cases (r.id == id)) [
  | inl same ↦
      let is : r ≡ row = ground (arith, same, h) in
      let key : r.id ≡ id = (string_eq.same_iff r.id id).0 same in
      (ap (λ (x : WorkspaceRow). x.id) (sym is) ∙ key, Memᴰ.head (sym is))
  | inr other ↦
      let later : find_row id rows ≡ some row = ground (arith, other, h) in
      let (key, m) = find_row-some id rows later in (key, Memᴰ.tail m)
]

pub known_id :
    (id : String) (t : Tables) {row : WorkspaceRow}
    → find_row id t.workspaces ≡ some row
    → elem id (ids t) ≡ true
known_id id t {row} h =
    let (key, m) = find_row-some id t.workspaces h in
    (elem_iff id (ids t)).1
      ((Memᴰ-map (λ (r : WorkspaceRow). r.id) id t.workspaces).1 (row, m, sym key))

pub find_item-none :
    (id : String) (rows : List ItemRow)
    → find_item id rows ≡ none
    → elem id (map (λ row. row.item.id) rows) ≡ false
unfolding find_item
find_item-none id [] h = refl
find_item-none id (row ∷ rows) h = ground (
  arith,
  find_item-none id rows,
  string_eq.same_iff row.item.id id,
  string_eq.same_iff id row.item.id,
)

module _ {A : Type 0} {K : Type 0} ⦃e : Eq K⦄ (f : A → K) (p : A → Bool) where
  -- A row whose key tells that it is kept is kept.
  pub elem-map-kept :
      (k : K) (xs : List A)
      → ((x : A) → f x ≡ k → p x ≡ true)
      → elem k (map f xs) ≡ true
      → elem k (map f (keep p xs)) ≡ true
  elem-map-kept k [] h m = m
  elem-map-kept k (x ∷ xs) h m =
      ground (arith, elem-map-kept k xs h, e.same_iff k (f x), λ (q : k ≡ f x). h x (sym q))

pub All-keep :
    {A : Type 0} (P : A → Type 0) (p : A → Bool) (xs : List A)
    → All P xs
    → All (λ x. P x × (p x ≡ true)) (keep p xs)
All-keep P p [] h = tt
All-keep P p (x ∷ xs) h = elim (Bool-cases (p x)) [
  | inl kept ↦ rw kept ((h.0, kept), All-keep P p xs h.1)
  | inr out ↦ rw out (All-keep P p xs h.1)
]

pub elem_left :
    {K : Type 0} ⦃e : Eq K⦄ (k : K) (xs ys : List K) → elem k xs ≡ true → elem k (xs ++ ys) ≡ true
elem_left k xs ys h = ground (arith, elem-append k xs ys)

-- Rows at the end of a table leave the rows before as they were.
pub elem-map-left :
    {A K : Type 0} ⦃e : Eq K⦄ (f : A → K) (k : K) (xs ys : List A)
    → elem k (map f xs) ≡ true
    → elem k (map f (xs ++ ys)) ≡ true
elem-map-left f k xs ys h = rw (map-append f xs ys) (elem_left k (map f xs) (map f ys) h)

pub elem-map-right :
    {A K : Type 0} ⦃e : Eq K⦄ (f : A → K) (k : K) (xs ys : List A)
    → elem k (map f ys) ≡ true
    → elem k (map f (xs ++ ys)) ≡ true
elem-map-right f k xs ys h =
    rw (map-append f xs ys) (ground (arith, elem-append k (map f xs) (map f ys)))

abbrev pub member_row : String → String → MemberRow
member_row id email = record { workspace_id = id; email = email }

abbrev pub membership : MemberRow → String × String
membership row = (row.workspace_id, row.email)

membership-added :
    (id email : String) (xs : List String)
    → elem email xs ≡ true
    → elem (id, email) (map membership (map (member_row id) xs)) ≡ true
membership-added id email [] h = h
membership-added id email (x ∷ xs) h =
    ground (arith, membership-added id email xs, string_eq.same_iff id id)

added-belong :
    (id : String) (known : List String) (xs : List String)
    → elem id known ≡ true
    → All (λ row. elem row.workspace_id known ≡ true) (map (member_row id) xs)
added-belong id known [] h = tt
added-belong id known (x ∷ xs) h = (h, added-belong id known xs h)

pub with_workspace-IsValid :
    (row : WorkspaceRow) (members : List String) {t : Tables}
    → elem row.id (ids t) ≡ false
    → IsValid t
    → IsValid (with_workspace row members t)
unfolding with_workspace
with_workspace-IsValid row members {t} fresh v =
    let people = set_of (row.owner_email ∷ members) in
    let added = map (member_row row.id) people in
    let id_of = λ (r : WorkspaceRow). r.id in
    let known : (k : String)
        → elem k (ids t) ≡ true
        → elem k (map id_of (t.workspaces ++ row ∷ [])) ≡ true =
      λ k. elem-map-left id_of k t.workspaces (row ∷ []) in
    let here : elem row.id (map id_of (t.workspaces ++ row ∷ [])) ≡ true =
      elem-map-right id_of row.id t.workspaces (row ∷ []) (ground (arith, ==_refl row.id)) in
    record {
      workspaces_apart =
          subst Distinct (sym (map-append id_of t.workspaces (row ∷ [])))
            (Distinct-concat row.id (ids t) v.workspaces_apart fresh);
      items_apart = v.items_apart;
      owners_in =
          All-append (λ r. elem (r.id, r.owner_email) (map membership (t.members ++ added)) ≡ true)
            t.workspaces (row ∷ [])
            (All-map_imp (λ r. elem (r.id, r.owner_email) (memberships t) ≡ true)
              (λ r. elem (r.id, r.owner_email) (map membership (t.members ++ added)) ≡ true)
              (λ r. elem-map-left membership (r.id, r.owner_email) t.members added) t.workspaces
              v.owners_in)
            (
              elem-map-right membership (row.id, row.owner_email) t.members added
                  (membership-added row.id row.owner_email people (
                    elem-set_of row.owner_email (row.owner_email ∷ members)
                    ∙ ground (arith, ==_refl row.owner_email))),
              tt,
            );
      members_belong =
          All-append (λ r. elem r.workspace_id (map id_of (t.workspaces ++ row ∷ [])) ≡ true)
            t.members added
            (All-map_imp (λ r. elem r.workspace_id (ids t) ≡ true)
              (λ r. elem r.workspace_id (map id_of (t.workspaces ++ row ∷ [])) ≡ true)
              (λ r. known r.workspace_id) t.members v.members_belong)
            (added-belong row.id (map id_of (t.workspaces ++ row ∷ [])) people here);
      items_belong =
          All-map_imp (λ r. elem r.workspace_id (ids t) ≡ true)
            (λ r. elem r.workspace_id (map id_of (t.workspaces ++ row ∷ [])) ≡ true)
            (λ r. known r.workspace_id) t.items v.items_belong;
    }
