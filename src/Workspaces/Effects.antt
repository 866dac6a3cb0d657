-- ===== src/Workspaces/Effects.antt =====
-- The transactions that write, and what each does to the tables.
use coruscant.Prelude.{
  ◌≡◌, ◌⊎◌, String, true, false, not, some, List, [], ◌∷◌, ◌++◌, keep, elem, arith, ◌==◌, string_eq,
  pair_eq, Option-cases, Bool-cases, inl, inr,
}
use coruscant.Workspaces.Store.{
  WorkspaceRow, WorkspaceItem, ItemRow, Tables, find_row, find_item, can_access, members_of,
  without_workspace, create_workspace, add_member, add_item, delete_item, delete_workspace,
  with_workspace,
}
use coruscant.Workspaces.Invariant.{ids, item_ids, member_row, find_row-none, find_item-none}

-- The transactions that write.
pub data Op : Type 0 where
  -- id, owner, name, members, date
  create : String → String → String → List String → String → Op
  -- caller, workspace, and what is added or deleted
  join : String → String → String → Op
  post : String → String → WorkspaceItem → Op
  unpost : String → String → String → Op
  close : String → String → Op

abbrev pub apply : Op → Tables → Tables
apply (create id owner name members date) t = (create_workspace id owner name members date t).1
apply (join email id member) t = (add_member email id member t).1
apply (post email id item) t = (add_item email id item t).1
apply (unpost email id item_id) t = (delete_item email id item_id t).1
apply (close email id) t = (delete_workspace email id t).1

abbrev pub new_row : String → String → String → String → WorkspaceRow
new_row id owner name date = record { id = id; owner_email = owner; name = name; created_at = date }

-- What a transaction that changes the tables needs, and what it makes of them.
abbrev pub Effect : Op → Tables → Tables → Type 0
Effect (create id owner name members date) t after =
    (elem id (ids t) ≡ false) × (after ≡ with_workspace (new_row id owner name date) members t)
Effect (join email id member) t after =
    (row : WorkspaceRow) × (find_row id t.workspaces ≡ some row)
    × (row.owner_email ≡ email)
    × (after ≡ record t { members = t.members ++ member_row id member ∷ [] })
Effect (post email id item) t after =
    (row : WorkspaceRow) × (find_row id t.workspaces ≡ some row)
    × (can_access t row email ≡ true)
    × (elem item.id (item_ids t) ≡ false)
    × (after ≡ record t { items = t.items ++ record { workspace_id = id; item = item } ∷ [] })
Effect (unpost email id item_id) t after =
    (row : WorkspaceRow) × (found : ItemRow) × (find_row id t.workspaces ≡ some row)
    × (can_access t row email ≡ true)
    × (find_item item_id t.items ≡ some found)
    × (found.workspace_id ≡ id)
    × (after ≡ record t { items = keep (λ x. not (x.item.id == item_id)) t.items })
Effect (close email id) t after =
    (row : WorkspaceRow) × (find_row id t.workspaces ≡ some row)
    × (row.owner_email ≡ email)
    × (after ≡ without_workspace id t)

create-Effect :
    (id owner name : String) (members : List String) (date : String) (t : Tables)
    → let op = create id owner name members date in (apply op t ≡ t) ⊎ Effect op t (apply op t)
unfolding create_workspace
create-Effect id owner name members date t = elim (Option-cases (find_row id t.workspaces)) [
  | inl fresh ↦ inr (find_row-none id t.workspaces fresh, ground (arith, fresh))
  | inr (row, taken) ↦ inl (ground (arith, taken))
]

join-Effect :
    (email id member : String) (t : Tables)
    → let op = join email id member in (apply op t ≡ t) ⊎ Effect op t (apply op t)
unfolding add_member
join-Effect email id member t = elim (Option-cases (find_row id t.workspaces)) [
  | inl missing ↦ inl (ground (arith, missing))
  | inr (row, found) ↦ elim (Bool-cases (row.owner_email == email)) [
    | inr other ↦ inl (ground (arith, found, other))
    | inl owner ↦ elim (Bool-cases (elem member (members_of t id))) [
      | inl already ↦ inl (ground (arith, found, owner, already))
      | inr new ↦ inr (
        row,
        found,
        (string_eq.same_iff row.owner_email email).0 owner,
        ground (arith, found, owner, new),
      )
    ]
  ]
]

post-Effect :
    (email id : String) (item : WorkspaceItem) (t : Tables)
    → let op = post email id item in (apply op t ≡ t) ⊎ Effect op t (apply op t)
unfolding add_item
post-Effect email id item t = elim (Option-cases (find_row id t.workspaces)) [
  | inl missing ↦ inl (ground (arith, missing))
  | inr (row, found) ↦ elim (Bool-cases (can_access t row email)) [
    | inr refused ↦ inl (ground (arith, found, refused))
    | inl access ↦ elim (Option-cases (find_item item.id t.items)) [
      | inr (x, taken) ↦ inl (ground (arith, found, access, taken))
      | inl fresh ↦ inr (
        row,
        found,
        access,
        find_item-none item.id t.items fresh,
        ground (arith, found, access, fresh),
      )
    ]
  ]
]

unpost-Effect :
    (email id item_id : String) (t : Tables)
    → let op = unpost email id item_id in (apply op t ≡ t) ⊎ Effect op t (apply op t)
unfolding delete_item
unpost-Effect email id item_id t = elim (Option-cases (find_row id t.workspaces)) [
  | inl missing ↦ inl (ground (arith, missing))
  | inr (row, found) ↦ elim (Bool-cases (can_access t row email)) [
    | inr refused ↦ inl (ground (arith, found, refused))
    | inl access ↦ elim (Option-cases (find_item item_id t.items)) [
      | inl none_there ↦ inl (ground (arith, found, access, none_there))
      | inr (x, there) ↦ elim (Bool-cases (x.workspace_id == id)) [
        | inr elsewhere ↦ inl (ground (arith, found, access, there, elsewhere))
        | inl here ↦ inr (
          row,
          x,
          found,
          access,
          there,
          (string_eq.same_iff x.workspace_id id).0 here,
          ground (arith, found, access, there, here),
        )
      ]
    ]
  ]
]

close-Effect :
    (email id : String) (t : Tables)
    → let op = close email id in (apply op t ≡ t) ⊎ Effect op t (apply op t)
unfolding delete_workspace
close-Effect email id t = elim (Option-cases (find_row id t.workspaces)) [
  | inl missing ↦ inl (ground (arith, missing))
  | inr (row, found) ↦ elim (Bool-cases (row.owner_email == email)) [
    | inr other ↦ inl (ground (arith, found, other))
    | inl owner ↦ inr (
      row,
      found,
      (string_eq.same_iff row.owner_email email).0 owner,
      ground (arith, found, owner),
    )
  ]
]

-- A transaction leaves the tables alone, or has its effect.
pub apply-Effect : (op : Op) (t : Tables) → (apply op t ≡ t) ⊎ Effect op t (apply op t)
apply-Effect (create id owner name members date) t = create-Effect id owner name members date t
apply-Effect (join email id member) t = join-Effect email id member t
apply-Effect (post email id item) t = post-Effect email id item t
apply-Effect (unpost email id item_id) t = unpost-Effect email id item_id t
apply-Effect (close email id) t = close-Effect email id t
