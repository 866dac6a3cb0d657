-- ===== src/Workspaces/Transactions.antt =====
-- Each transaction keeps the tables valid.
use coruscant.Prelude.{
  ◌≡◌, sym, ap, ◌∙◌, subst, String, true, false, not, [], ◌∷◌, ◌++◌, map, map-append, keep, elem,
  All-append, All-map_imp, Distinct, Distinct-concat, ◌==◌, string_eq, pair_eq, inl, inr,
}
use coruscant.Workspaces.Store.{WorkspaceRow, WorkspaceItem, ItemRow, Tables, without_workspace}
use coruscant.Prelude.Groups.{keep-Distinct}
use coruscant.Workspaces.Invariant.{
  known_id, ids, item_ids, memberships, membership, member_row, IsValid, elem-map-left, All-keep,
  elem-map-kept, with_workspace-IsValid,
}
use coruscant.Workspaces.Effects.{
  Op, create, join, post, unpost, close, apply, new_row, Effect, apply-Effect,
}

without_workspace-IsValid :
    (id : String) {t : Tables} → IsValid t → IsValid (without_workspace id t)
unfolding without_workspace
without_workspace-IsValid id {t} v =
    let other = λ (k : String). not (k == id) in
    let id_of = λ (r : WorkspaceRow). r.id in
    let belongs : (k : String)
        → elem k (ids t) ≡ true
        → other k ≡ true
        → elem k (map id_of (keep (λ r. other r.id) t.workspaces)) ≡ true =
      λ k m kept.
        elem-map-kept id_of (λ r. other r.id) k t.workspaces (λ r same. ap other same ∙ kept) m in
    record {
      workspaces_apart = keep-Distinct id_of (λ r. other r.id) t.workspaces v.workspaces_apart;
      items_apart =
          keep-Distinct (λ (r : ItemRow). r.item.id) (λ r. other r.workspace_id) t.items
            v.items_apart;
      owners_in =
          All-map_imp
            (λ r. (elem (r.id, r.owner_email) (memberships t) ≡ true) × (other r.id ≡ true))
            (λ r.
              elem (r.id, r.owner_email)
                (map membership (keep (λ m. other m.workspace_id) t.members))
              ≡ true)
            (λ r h.
              elem-map-kept membership (λ m. other m.workspace_id) (r.id, r.owner_email) t.members
                (λ m same. ap (λ (p : String × String). other p.0) same ∙ h.1) h.0)
            (keep (λ r. other r.id) t.workspaces)
            (All-keep (λ r. elem (r.id, r.owner_email) (memberships t) ≡ true) (λ r. other r.id)
              t.workspaces v.owners_in);
      members_belong =
          All-map_imp (λ r. (elem r.workspace_id (ids t) ≡ true) × (other r.workspace_id ≡ true))
            (λ r. elem r.workspace_id (map id_of (keep (λ x. other x.id) t.workspaces)) ≡ true)
            (λ r h. belongs r.workspace_id h.0 h.1) (keep (λ r. other r.workspace_id) t.members)
            (All-keep (λ r. elem r.workspace_id (ids t) ≡ true) (λ r. other r.workspace_id)
              t.members v.members_belong);
      items_belong =
          All-map_imp (λ r. (elem r.workspace_id (ids t) ≡ true) × (other r.workspace_id ≡ true))
            (λ r. elem r.workspace_id (map id_of (keep (λ x. other x.id) t.workspaces)) ≡ true)
            (λ r h. belongs r.workspace_id h.0 h.1) (keep (λ r. other r.workspace_id) t.items)
            (All-keep (λ r. elem r.workspace_id (ids t) ≡ true) (λ r. other r.workspace_id) t.items
              v.items_belong);
    }

module _ (id : String) {t : Tables} (v : IsValid t) (known : elem id (ids t) ≡ true) where
  with_member-IsValid :
      (email : String) → IsValid (record t { members = t.members ++ member_row id email ∷ [] })
  with_member-IsValid email =
      let more = t.members ++ member_row id email ∷ [] in
      record {
        workspaces_apart = v.workspaces_apart;
        items_apart = v.items_apart;
        owners_in =
            All-map_imp (λ r. elem (r.id, r.owner_email) (memberships t) ≡ true)
              (λ r. elem (r.id, r.owner_email) (map membership more) ≡ true)
              (λ r.
                elem-map-left membership (r.id, r.owner_email) t.members (member_row id email ∷ []))
              t.workspaces v.owners_in;
        members_belong =
            All-append (λ r. elem r.workspace_id (ids t) ≡ true) t.members
              (member_row id email ∷ []) v.members_belong (known, tt);
        items_belong = v.items_belong;
      }

  with_item-IsValid :
      (item : WorkspaceItem)
      → elem item.id (item_ids t) ≡ false
      → IsValid (record t { items = t.items ++ record { workspace_id = id; item = item } ∷ [] })
  with_item-IsValid item fresh =
      let row : ItemRow = record { workspace_id = id; item = item } in
      record {
        workspaces_apart = v.workspaces_apart;
        items_apart =
            subst Distinct (sym (map-append (λ (r : ItemRow). r.item.id) t.items (row ∷ [])))
              (Distinct-concat item.id (item_ids t) v.items_apart fresh);
        owners_in = v.owners_in;
        members_belong = v.members_belong;
        items_belong =
            All-append (λ r. elem r.workspace_id (ids t) ≡ true) t.items (row ∷ []) v.items_belong
              (known, tt);
      }

without_item-IsValid :
    (item_id : String) {t : Tables}
    → IsValid t
    → IsValid (record t { items = keep (λ x. not (x.item.id == item_id)) t.items })
without_item-IsValid item_id {t} v =
    let kept = λ (x : ItemRow). not (x.item.id == item_id) in
    record {
      workspaces_apart = v.workspaces_apart;
      items_apart = keep-Distinct (λ (r : ItemRow). r.item.id) kept t.items v.items_apart;
      owners_in = v.owners_in;
      members_belong = v.members_belong;
      items_belong =
          All-map_imp (λ r. (elem r.workspace_id (ids t) ≡ true) × (kept r ≡ true))
            (λ r. elem r.workspace_id (ids t) ≡ true) (λ r h. h.0) (keep kept t.items)
            (All-keep (λ r. elem r.workspace_id (ids t) ≡ true) kept t.items v.items_belong);
    }

Effect-IsValid : (op : Op) {t after : Tables} → Effect op t after → IsValid t → IsValid after
Effect-IsValid (create id owner name members date) {t} (fresh, is) v =
    subst IsValid (sym is) (with_workspace-IsValid (new_row id owner name date) members fresh v)
Effect-IsValid (join email id member) {t} (row, found, _, is) v =
    subst IsValid (sym is) (with_member-IsValid id v (known_id id t found) member)
Effect-IsValid (post email id item) {t} (row, found, _, fresh, is) v =
    subst IsValid (sym is) (with_item-IsValid id v (known_id id t found) item fresh)
Effect-IsValid (unpost email id item_id) {t} (row, x, _, _, _, _, is) v =
    subst IsValid (sym is) (without_item-IsValid item_id v)
Effect-IsValid (close email id) {t} (row, _, _, is) v =
    subst IsValid (sym is) (without_workspace-IsValid id v)

-- Every transaction keeps the tables valid: ids stay apart, each owner stays a member, and no row of a
-- member or of an item stands without its workspace.
pub apply-IsValid : (op : Op) {t : Tables} → IsValid t → IsValid (apply op t)
apply-IsValid op {t} v = elim (apply-Effect op t) [
  | inl same ↦ subst IsValid (sym same) v
  | inr effect ↦ Effect-IsValid op effect v
]
