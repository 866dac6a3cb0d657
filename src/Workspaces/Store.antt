-- ===== src/Workspaces/Store.antt =====
-- `SqliteWorkspaceStore`.
use coruscant.Prelude.{
  String, Bool, true, false, not, ◌||◌, Option, none, some, List, [], ◌∷◌, ◌++◌, map, keep, elem,
  is_nil, ◌==◌, if◌then◌else◌, string_eq, pair_eq, string_ord, Result, ok, raise, integrity_error,
}
use coruscant.Prelude.Sort.{sort_by}
use coruscant.Prelude.Groups.{set_of}

pub record WorkspaceRow : Type 0 where
  pub id : String
  pub owner_email : String
  pub name : String
  pub created_at : String

pub record MemberRow : Type 0 where
  pub workspace_id : String
  pub email : String

pub record WorkspaceItem : Type 0 where
  pub id : String
  pub type : String
  pub title : String
  pub body : String
  pub reference : Option String
  pub author_email : String
  pub created_at : String

-- A row of the table of items is an item with the workspace that it belongs to.
pub record ItemRow : Type 0 where
  pub workspace_id : String
  pub item : WorkspaceItem

pub record Workspace : Type 0 where
  pub id : String
  pub name : String
  pub owner_email : String
  pub members : List String
  pub created_at : String
  pub items : List WorkspaceItem

pub record Tables : Type 0 where
  pub workspaces : List WorkspaceRow
  pub members : List MemberRow
  pub items : List ItemRow

abbrev pub empty : Tables
empty = record { workspaces = []; members = []; items = [] }

-- `session.get(WorkspaceRow, id)`
unfoldable pub find_row : String → List WorkspaceRow → Option WorkspaceRow
find_row id [] = none
find_row id (row ∷ rows) = let rest = find_row id rows in if row.id == id then some row else rest

-- `session.get(ItemRow, id)`
unfoldable pub find_item : String → List ItemRow → Option ItemRow
find_item id [] = none
find_item id (row ∷ rows) =
    let rest = find_item id rows in if row.item.id == id then some row else rest

-- the emails of a workspace's members' rows
unfoldable pub emails : String → List MemberRow → List String
emails id rows = map (λ row. row.email) (keep (λ row. row.workspace_id == id) rows)

-- the items of a workspace
unfoldable pub items_of : String → List ItemRow → List WorkspaceItem
items_of id rows = map (λ row. row.item) (keep (λ row. row.workspace_id == id) rows)

module _ (t : Tables) where
  -- `_members`
  unfoldable pub members_of : String → List String
  unfolding emails
  members_of id = sort_by (λ email. email) (set_of (emails id t.members))

  -- `_items`
  unfoldable pub listed_items : String → List WorkspaceItem
  unfolding items_of
  listed_items id = sort_by (λ item. item.created_at) (items_of id t.items)

  -- `_to_workspace`
  unfoldable pub to_workspace : WorkspaceRow → Bool → Workspace
  unfolding members_of listed_items
  to_workspace row with_items = record {
    id = row.id;
    name = row.name;
    owner_email = row.owner_email;
    members = members_of row.id;
    created_at = row.created_at;
    items = if with_items then listed_items row.id else [];
  }

  -- `_can_access`
  unfoldable pub can_access : WorkspaceRow → String → Bool
  unfolding members_of
  can_access row email = row.owner_email == email || elem email (members_of row.id)

  unfoldable pub get_workspace : String → String → Option Workspace
  unfolding find_row can_access to_workspace
  get_workspace email id = elim (find_row id t.workspaces) [
    | none ↦ none
    | some row ↦ if can_access row email then some (to_workspace row true) else none
  ]

  -- the ids of the workspaces that an email is a member of
  unfoldable pub member_ids : String → List String
  member_ids email =
      set_of (map (λ row. row.workspace_id) (keep (λ row. row.email == email) t.members))

  unfoldable pub list_workspaces : String → List Workspace
  unfolding member_ids to_workspace
  list_workspaces email =
      if is_nil (member_ids email)
      then []
      else map (λ row. to_workspace row false)
          (sort_by (λ row. row.created_at)
            (keep (λ row. elem row.id (member_ids email)) t.workspaces))

-- The rows that `create_workspace` adds: the owner and the members, each once.
unfoldable pub with_workspace : WorkspaceRow → List String → Tables → Tables
with_workspace row members t = record t {
  workspaces = t.workspaces ++ row ∷ [];
  members =
      t.members
      ++ map (λ email. record { workspace_id = row.id; email = email })
          (set_of (row.owner_email ∷ members));
}

-- The id comes from `secrets`. One that is taken breaks the primary key, and the transaction is rolled
-- back.
unfoldable pub create_workspace :
    String → String → String → List String → String → Tables → Result Workspace × Tables
unfolding find_row to_workspace with_workspace
create_workspace id owner_email name members created_at t =
    let row : WorkspaceRow = record {
      id = id;
      owner_email = owner_email;
      name = name;
      created_at = created_at;
    } in
    let after = with_workspace row members t in
    elim (find_row id t.workspaces) [
      | some taken ↦ (raise integrity_error, t)
      | none ↦ (ok (to_workspace after row true), after)
    ]

-- Only the owner adds members.
unfoldable pub add_member : String → String → String → Tables → Bool × Tables
unfolding find_row members_of
add_member email id member_email t = elim (find_row id t.workspaces) [
  | none ↦ (false, t)
  | some row ↦
      if not (row.owner_email == email)
      then (false, t)
      else if elem member_email (members_of t id)
      then (true, t)
      else (
        true,
        record t { members = t.members ++ record { workspace_id = id; email = member_email } ∷ [] },
      )
]

-- An item's id that is taken breaks the primary key.
unfoldable pub add_item :
    String → String → WorkspaceItem → Tables → Result (Option WorkspaceItem) × Tables
unfolding find_row find_item can_access
add_item email id item t = elim (find_row id t.workspaces) [
  | none ↦ (ok none, t)
  | some row ↦
      if not (can_access t row email) then (ok none, t) else elim (find_item item.id t.items) [
        | some taken ↦ (raise integrity_error, t)
        | none ↦ (
          ok (some item),
          record t { items = t.items ++ record { workspace_id = id; item = item } ∷ [] },
        )
      ]
]

unfoldable pub delete_item : String → String → String → Tables → Bool × Tables
unfolding find_row find_item can_access
delete_item email id item_id t = elim (find_row id t.workspaces) [
  | none ↦ (false, t)
  | some row ↦
      if not (can_access t row email) then (false, t) else elim (find_item item_id t.items) [
        | none ↦ (false, t)
        | some found ↦
            if not (found.workspace_id == id)
            then (false, t)
            else (true, record t { items = keep (λ x. not (x.item.id == item_id)) t.items })
      ]
]

-- The tables without a workspace.
unfoldable pub without_workspace : String → Tables → Tables
without_workspace id t = record {
  workspaces = keep (λ row. not (row.id == id)) t.workspaces;
  members = keep (λ row. not (row.workspace_id == id)) t.members;
  items = keep (λ row. not (row.workspace_id == id)) t.items;
}

-- Only the owner deletes.
unfoldable pub delete_workspace : String → String → Tables → Bool × Tables
unfolding find_row without_workspace
delete_workspace email id t = elim (find_row id t.workspaces) [
  | none ↦ (false, t)
  | some row ↦ if not (row.owner_email == email) then (false, t) else (true, without_workspace id t)
]
