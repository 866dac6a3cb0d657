-- ===== src/Workspaces/Access.antt =====
-- Who changes a workspace, and who sees it.
use mathlib.Core.List.{append-nil}
use coruscant.Prelude.{
  ◌≡◌, refl, sym, ap, ◌∙◌, subst, String, Bool, true, false, not, some, List, [], ◌∷◌, ◌++◌, map,
  keep, keep-append, elem, Distinct, arith, ◌==◌, string_eq, pair_eq, Option-cases, Bool-cases, inl,
  inr,
}
use coruscant.Prelude.Groups.{set_of}
use coruscant.Workspaces.Store.{
  WorkspaceRow, MemberRow, WorkspaceItem, ItemRow, Tables, find_row, find_item, emails, items_of,
  members_of, listed_items, to_workspace, can_access, get_workspace, with_workspace,
  without_workspace,
}
use coruscant.Workspaces.Invariant.{known_id, member_row, IsValid, find_row-some}
use coruscant.Workspaces.Effects.{
  Op, create, join, post, unpost, close, apply, new_row, Effect, apply-Effect,
}

-- The workspace that a transaction is about.
abbrev pub target : Op → String
target (create id owner name members date) = id
target (join email id member) = id
target (post email id item) = id
target (unpost email id item_id) = id
target (close email id) = id

-- Whether its caller may make it on a workspace that is there.
abbrev pub IsAllowed : Op → Tables → WorkspaceRow → Type 0
IsAllowed (create id owner name members date) t row = false ≡ true
IsAllowed (join email id member) t row = row.owner_email ≡ email
IsAllowed (post email id item) t row = can_access t row email ≡ true
IsAllowed (unpost email id item_id) t row = can_access t row email ≡ true
IsAllowed (close email id) t row = row.owner_email ≡ email

members_of-emails :
    (t u : Tables) (id : String)
    → emails id t.members ≡ emails id u.members
    → members_of t id ≡ members_of u id
unfolding members_of
members_of-emails t u id same = rw same refl

listed_items-items_of :
    (t u : Tables) (id : String)
    → items_of id t.items ≡ items_of id u.items
    → listed_items t id ≡ listed_items u id
unfolding listed_items
listed_items-items_of t u id same = rw same refl

-- What a caller gets depends on nothing else.
get_workspace-view :
    (t u : Tables) (email id : String)
    → find_row id t.workspaces ≡ find_row id u.workspaces
    → emails id t.members ≡ emails id u.members
    → items_of id t.items ≡ items_of id u.items
    → get_workspace t email id ≡ get_workspace u email id
unfolding get_workspace to_workspace can_access
get_workspace-view t u email id rows people items = elim (Option-cases (find_row id t.workspaces)) [
  | inl missing ↦ ground (arith, missing, rows)
  | inr (row, found) ↦
      let key : row.id ≡ id = (find_row-some id t.workspaces found).0 in
      let same : members_of t row.id ≡ members_of u row.id =
        rw key (members_of-emails t u id people) in
      let listed : listed_items t row.id ≡ listed_items u row.id =
        rw key (listed_items-items_of t u id items) in
      let found' : find_row id u.workspaces ≡ some row = sym rows ∙ found in
      ground (arith, found, found', same, listed)
]

find_row-append :
    (id : String) (rows more : List WorkspaceRow) {row : WorkspaceRow}
    → find_row id rows ≡ some row
    → find_row id (rows ++ more) ≡ some row
unfolding find_row
find_row-append id [] more {row} h = absurd (cc h)
find_row-append id (r ∷ rows) more {row} h =
    ground (arith, λ (p : find_row id rows ≡ some row). find_row-append id rows more p)

find_row-keep :
    (id gone : String) (rows : List WorkspaceRow)
    → (gone == id) ≡ false
    → find_row id (keep (λ r. not (r.id == gone)) rows) ≡ find_row id rows
unfolding find_row
find_row-keep id gone [] other = refl
find_row-keep id gone (r ∷ rows) other = ground (
  arith,
  find_row-keep id gone rows other,
  string_eq.same_iff r.id id,
  string_eq.same_iff r.id gone,
  string_eq.same_iff gone id,
)

-- Two choices one after the other, where the second is the narrower.
keep_narrow :
    {A : Type 0} (p q : A → Bool) (xs : List A)
    → ((x : A) → p x ≡ true → q x ≡ true)
    → keep p (keep q xs) ≡ keep p xs
keep_narrow p q [] h = refl
keep_narrow p q (x ∷ xs) h = ground (arith, keep_narrow p q xs h, h x)

added_elsewhere :
    (id other : String) (xs : List String)
    → (other == id) ≡ false
    → keep (λ (m : MemberRow). m.workspace_id == id) (map (member_row other) xs) ≡ []
added_elsewhere id other [] h = refl
added_elsewhere id other (x ∷ xs) h = ground (arith, h, added_elsewhere id other xs h)

keep_absent :
    (k : String) (xs : List ItemRow)
    → elem k (map (λ x. x.item.id) xs) ≡ false
    → keep (λ x. not (x.item.id == k)) xs ≡ xs
keep_absent k [] h = refl
keep_absent k (x ∷ xs) h =
    ground (arith, keep_absent k xs, string_eq.same_iff x.item.id k, string_eq.same_iff k x.item.id)

-- An item of another workspace can go.
other_item :
    (id k : String) (xs : List ItemRow) {x : ItemRow}
    → Distinct (map (λ x. x.item.id) xs)
    → find_item k xs ≡ some x
    → (x.workspace_id == id) ≡ false
    → keep (λ y. y.workspace_id == id) (keep (λ y. not (y.item.id == k)) xs)
      ≡ keep (λ y. y.workspace_id == id) xs
unfolding find_item
other_item id k [] {x} d h other = refl
other_item id k (y ∷ ys) {x} d h other = elim (Bool-cases (y.item.id == k)) [
  | inl is ↦
      let same : y ≡ x = ground (arith, is, h) in
      let key : y.item.id ≡ k = (string_eq.same_iff y.item.id k).0 is in
      let absent : elem k (map (λ z. z.item.id) ys) ≡ false =
        ap (λ i. elem i (map (λ (z : ItemRow). z.item.id) ys)) (sym key) ∙ d.0 in
      let elsewhere : (y.workspace_id == id) ≡ false =
        ap (λ (z : ItemRow). z.workspace_id == id) same ∙ other in
      ground (arith, is, elsewhere, keep_absent k ys absent)
  | inr apart ↦
      let later : find_item k ys ≡ some x = ground (arith, apart, h) in
      ground (arith, apart, other_item id k ys d.1 later other)
]

keep_added :
    {A : Type 0} (p : A → Bool) (xs ys : List A) → keep p ys ≡ [] → keep p (xs ++ ys) ≡ keep p xs
keep_added p xs ys h = keep-append p xs ys ∙ ap (λ zs. keep p xs ++ zs) h ∙ append-nil (keep p xs)

-- The tables hold the same of a workspace.
abbrev IsSame : Tables → String → Tables → Type 0
IsSame t id after =
    (find_row id after.workspaces ≡ find_row id t.workspaces)
    × (emails id after.members ≡ emails id t.members)
    × (items_of id after.items ≡ items_of id t.items)

module _ (id there : String) (other : (there == id) ≡ false) where
  emails_added :
      (rows : List MemberRow) (people : List String)
      → emails id (rows ++ map (member_row there) people) ≡ emails id rows
  unfolding emails
  emails_added rows people = ap (map (λ (m : MemberRow). m.email)) (
      keep_added (λ m. m.workspace_id == id) rows (map (member_row there) people)
        (added_elsewhere id there people other))

  items_added :
      (rows : List ItemRow) (item : WorkspaceItem)
      → items_of id (rows ++ record { workspace_id = there; item = item } ∷ []) ≡ items_of id rows
  unfolding items_of
  items_added rows item = ap (map (λ (x : ItemRow). x.item)) (
      keep_added (λ x. x.workspace_id == id) rows
        (record { workspace_id = there; item = item } ∷ []) (ground (arith, other)))

  not_there : (k : String) → (k == id) ≡ true → not (k == there) ≡ true
  not_there k h = ground (
    arith,
    h,
    other,
    string_eq.same_iff k id,
    string_eq.same_iff k there,
    string_eq.same_iff there id,
  )

  without-IsSame : (t : Tables) → IsSame t id (without_workspace there t)
  unfolding emails items_of without_workspace
  without-IsSame t = (
    find_row-keep id there t.workspaces other,
    ap (map (λ (m : MemberRow). m.email)) (
        keep_narrow (λ m. m.workspace_id == id) (λ m. not (m.workspace_id == there)) t.members
          (λ m. not_there m.workspace_id)),
    ap (map (λ (x : ItemRow). x.item)) (
        keep_narrow (λ x. x.workspace_id == id) (λ x. not (x.workspace_id == there)) t.items
          (λ x. not_there x.workspace_id)),
  )

-- An effect on another workspace.
Effect-elsewhere :
    (op : Op) (id : String) (t after : Tables) {row : WorkspaceRow}
    → IsValid t
    → find_row id t.workspaces ≡ some row
    → (target op == id) ≡ false
    → Effect op t after
    → IsSame t id after
unfolding items_of with_workspace
Effect-elsewhere (create new owner name members date) id t after {row} v found other (fresh, is) =
    subst (IsSame t id) (sym is) (
      find_row-append id t.workspaces (new_row new owner name date ∷ []) found ∙ sym found,
      emails_added id new other t.members (set_of (owner ∷ members)),
      refl,
    )
Effect-elsewhere (join email there member) id t after {row} v found other (r, _, _, is) =
    subst (IsSame t id) (sym is) (refl, emails_added id there other t.members (member ∷ []), refl)
Effect-elsewhere (post email there item) id t after {row} v found other (r, _, _, _, is) =
    subst (IsSame t id) (sym is) (refl, refl, items_added id there other t.items item)
Effect-elsewhere (unpost email there item_id) id t after {row} v found other
      (r, x, _, _, held, at, is) =
    subst (IsSame t id) (sym is) (
      refl,
      refl,
      ap (map (λ (y : ItemRow). y.item))
          (other_item id item_id t.items v.items_apart held (ap (λ k. k == id) at ∙ other)),
    )
Effect-elsewhere (close email there) id t after {row} v found other (r, _, _, is) =
    subst (IsSame t id) (sym is) (without-IsSame id there other t)

-- A transaction with an effect on a workspace that is there is allowed.
Effect-IsAllowed :
    (op : Op) (t after : Tables) {row : WorkspaceRow}
    → find_row (target op) t.workspaces ≡ some row
    → Effect op t after
    → IsAllowed op t row
Effect-IsAllowed (create new owner name members date) t after {row} found (fresh, is) =
    let known = known_id new t found in absurd (cc (sym known ∙ fresh))
Effect-IsAllowed (join email there member) t after {row} found (r, here, owner, is) =
    ground (arith, found, here, owner)
Effect-IsAllowed (post email there item) t after {row} found (r, here, access, _, is) =
    ground (arith, found, here, access)
Effect-IsAllowed (unpost email there item_id) t after {row} found (r, x, here, access, _, _, is) =
    ground (arith, found, here, access)
Effect-IsAllowed (close email there) t after {row} found (r, here, owner, is) =
    ground (arith, found, here, owner)

-- In valid tables, a transaction that is on another workspace, or whose caller may not make it on this
-- one, leaves what anybody gets of the workspace as it was.
pub outsider_changes_nothing :
    (op : Op) (id caller : String) {t : Tables} {row : WorkspaceRow}
    → IsValid t
    → find_row id t.workspaces ≡ some row
    → ¬ ((target op ≡ id) × IsAllowed op t row)
    → get_workspace (apply op t) caller id ≡ get_workspace t caller id
outsider_changes_nothing op id caller {t} {row} v found outside = elim (apply-Effect op t) [
  | inl same ↦ ap (λ u. get_workspace u caller id) same
  | inr effect ↦ elim (Bool-cases (target op == id)) [
    | inr other ↦
        let (rows, people, items) = Effect-elsewhere op id t (apply op t) v found other effect in
        get_workspace-view (apply op t) t caller id rows people items
    | inl here ↦
        let at : target op ≡ id = (string_eq.same_iff (target op) id).0 here in
        let there : find_row (target op) t.workspaces ≡ some row =
          ap (λ k. find_row k t.workspaces) at ∙ found in
        absurd (outside (at, Effect-IsAllowed op t (apply op t) there effect))
  ]
]
