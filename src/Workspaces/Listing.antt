-- ===== src/Workspaces/Listing.antt =====
-- Which workspaces a caller is shown.
use coruscant.Prelude.{
  ◌⊎◌, ◌≡◌, ◌↔◌, refl, sym, ap, ◌∙◌, String, true, false, some, List, [], ◌∷◌, map, keep, is_nil,
  elem, elem_iff, All-mem, Memᴰ, Memᴰ-map, Memᴰ-keep, arith, ◌==◌, string_eq, pair_eq, string_ord,
  Bool-cases, inl, inr,
}
use coruscant.Prelude.Sort.{sort_by, Memᴰ-sort_by}
use coruscant.Prelude.Groups.{set_of, elem-set_of}
use coruscant.Workspaces.Store.{
  WorkspaceRow, MemberRow, Tables, find_row, emails, members_of, can_access, member_ids,
  to_workspace, get_workspace, list_workspaces,
}
use coruscant.Workspaces.Invariant.{memberships, IsValid, find_row-some}

emails_iff :
    (id email : String) (rows : List MemberRow)
    → elem email (map (λ (row : MemberRow). row.email) (keep (λ row. row.workspace_id == id) rows))
      ≡ elem {A = String × String}
          (id, email)
          (map (λ (row : MemberRow). (row.workspace_id, row.email)) rows)
emails_iff id email [] = refl
emails_iff id email (row ∷ rows) = ground (
  arith,
  emails_iff id email rows,
  string_eq.same_iff row.workspace_id id,
  string_eq.same_iff id row.workspace_id,
)

workspaces_iff :
    (id email : String) (rows : List MemberRow)
    → elem id (map (λ (row : MemberRow). row.workspace_id) (keep (λ row. row.email == email) rows))
      ≡ elem {A = String × String}
          (id, email)
          (map (λ (row : MemberRow). (row.workspace_id, row.email)) rows)
workspaces_iff id email [] = refl
workspaces_iff id email (row ∷ rows) = ground (
  arith,
  workspaces_iff id email rows,
  string_eq.same_iff row.email email,
  string_eq.same_iff email row.email,
)

elem-sort_by :
    (k : String) (xs : List String) → (elem k (sort_by (λ x. x) xs) ≡ true) ↔ (elem k xs ≡ true)
elem-sort_by k xs = (
  λ h. (elem_iff k xs).1 ((Memᴰ-sort_by (λ x. x) k xs).0 ((elem_iff k (sort_by (λ x. x) xs)).0 h)),
  λ h. (elem_iff k (sort_by (λ x. x) xs)).1 ((Memᴰ-sort_by (λ x. x) k xs).1 ((elem_iff k xs).0 h)),
)

module _ (t : Tables) (email id : String) where
  elem-members_of :
      (elem email (members_of t id) ≡ true) ↔ (elem (id, email) (memberships t) ≡ true)
  unfolding members_of emails
  elem-members_of =
      let people =
        map (λ (row : MemberRow). row.email) (keep (λ row. row.workspace_id == id) t.members) in
      ground (
        arith,
        elem-sort_by email (set_of people),
        elem-set_of email people,
        emails_iff id email t.members,
      )

  elem-member_ids : elem id (member_ids t email) ≡ elem (id, email) (memberships t)
  unfolding member_ids
  elem-member_ids =
      elem-set_of id
        (map (λ (row : MemberRow). row.workspace_id) (keep (λ row. row.email == email) t.members))
      ∙ workspaces_iff id email t.members

  can_access_iff :
      (row : WorkspaceRow)
      → row.id ≡ id
      → (can_access t row email ≡ true)
        ↔ ((row.owner_email ≡ email) ⊎ (elem (id, email) (memberships t) ≡ true))
  unfolding can_access
  can_access_iff row key =
      let same : elem email (members_of t row.id) ≡ elem email (members_of t id) =
        ap (λ k. elem email (members_of t k)) key in
      ground (arith, same, elem-members_of, string_eq.same_iff row.owner_email email)

-- The rows that are listed.
abbrev listed_rows : Tables → String → List WorkspaceRow
listed_rows t email =
    sort_by (λ row. row.created_at) (keep (λ row. elem row.id (member_ids t email)) t.workspaces)

ids-to_workspace :
    (t : Tables) (rows : List WorkspaceRow)
    → map (λ w. w.id) (map (λ row. to_workspace t row false) rows) ≡ map (λ row. row.id) rows
unfolding to_workspace
ids-to_workspace t [] = refl
ids-to_workspace t (row ∷ rows) = ap (◌∷◌ row.id) (ids-to_workspace t rows)

keep_nothing :
    (rows : List WorkspaceRow) (known : List String)
    → is_nil known ≡ true
    → keep (λ row. elem row.id known) rows ≡ []
keep_nothing [] known h = refl
keep_nothing (row ∷ rows) [] h = keep_nothing rows [] h
keep_nothing (row ∷ rows) (k ∷ known) h = absurd (cc h)

list_workspaces-rows :
    (t : Tables) (email : String)
    → map (λ w. w.id) (list_workspaces t email) ≡ map (λ row. row.id) (listed_rows t email)
unfolding list_workspaces sort_by
list_workspaces-rows t email = elim (Bool-cases (is_nil (member_ids t email))) [
  | inl nowhere ↦ rw (nowhere, keep_nothing t.workspaces (member_ids t email) nowhere) refl
  | inr somewhere ↦ rw somewhere (ids-to_workspace t (listed_rows t email))
]

listed_rows_iff :
    (t : Tables) (email : String) (row : WorkspaceRow)
    → Memᴰ row (listed_rows t email)
      ↔ (Memᴰ row t.workspaces × (elem row.id (member_ids t email) ≡ true))
listed_rows_iff t email row = ground (
  arith,
  Memᴰ-sort_by (λ (r : WorkspaceRow). r.created_at) row
      (keep (λ r. elem r.id (member_ids t email)) t.workspaces),
  Memᴰ-keep (λ (r : WorkspaceRow). elem r.id (member_ids t email)) row t.workspaces,
)

get_workspace_iff :
    (t : Tables) (email id : String) {row : WorkspaceRow}
    → find_row id t.workspaces ≡ some row
    → (can_access t row email ≡ true) ↔ (get_workspace t email id ≡ some (to_workspace t row true))
unfolding get_workspace
get_workspace_iff t email id {row} found = ground (arith, found)

-- In valid tables, a workspace that is there is listed for an email exactly if `get_workspace` gives it to
-- that email: the members' rows alone decide, since the owner is a member.
pub list_workspaces_iff :
    (email id : String) {t : Tables} {row : WorkspaceRow}
    → IsValid t
    → find_row id t.workspaces ≡ some row
    → (elem id (map (λ w. w.id) (list_workspaces t email)) ≡ true)
      ↔ (get_workspace t email id ≡ some (to_workspace t row true))
list_workspaces_iff email id {t} {row} v found =
    let (key, there) = find_row-some id t.workspaces found in
    let shown = map (λ (r : WorkspaceRow). r.id) (listed_rows t email) in
    let access = can_access_iff t email id row key in
    let got = get_workspace_iff t email id found in
    (
      λ h.
          let (r, m, same) =
            (Memᴰ-map (λ (r : WorkspaceRow). r.id) id (listed_rows t email)).0
              ((elem_iff id shown).0 (ap (elem id) (sym (list_workspaces-rows t email)) ∙ h)) in
          let (_, member) = (listed_rows_iff t email r).0 m in
          got.0 (
            access.1 (
              inr (
                sym (elem-member_ids t email id)
                ∙ ap (λ k. elem k (member_ids t email)) same
                ∙ member))),
      λ h.
          let member : elem (id, email) (memberships t) ≡ true = elim (access.0 (got.1 h)) [
            | inl owner ↦
                ap (λ (p : String × String). elem p (memberships t)) (λ i. (sym key i, sym owner i))
                ∙ All-mem (λ (r : WorkspaceRow). elem (r.id, r.owner_email) (memberships t) ≡ true)
                    v.owners_in there
            | inr m ↦ m
          ] in
          let listed : elem row.id (member_ids t email) ≡ true =
            ap (λ k. elem k (member_ids t email)) key ∙ elem-member_ids t email id ∙ member in
          ap (elem id) (list_workspaces-rows t email)
          ∙ (elem_iff id shown).1 (
              (Memᴰ-map (λ (r : WorkspaceRow). r.id) id (listed_rows t email)).1
                (row, (listed_rows_iff t email row).1 (there, listed), sym key)),
    )
