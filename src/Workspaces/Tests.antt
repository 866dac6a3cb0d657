-- ===== src/Workspaces/Tests.antt =====
-- Runs of the store, and each theorem at concrete tables.
use coruscant.Prelude.{
  ◌≡◌, ◌↔◌, refl, String, true, false, some, [], ◌∷◌, map, elem, add, str_le, string_eq, pair_eq,
  string_ord,
}
use coruscant.Prelude.Sort.{sort_by}
use coruscant.Prelude.Groups.{set_of}
use coruscant.Workspaces.Store.{
  Tables, empty, find_row, find_item, emails, items_of, members_of, listed_items, to_workspace,
  can_access, get_workspace, member_ids, list_workspaces, with_workspace, without_workspace,
  create_workspace, add_member, add_item, delete_item, delete_workspace,
}
use coruscant.Workspaces.Invariant.{IsValid}
use coruscant.Workspaces.Effects.{Op, create, join, apply, new_row}
use coruscant.Workspaces.Transactions.{apply-IsValid}
use coruscant.Workspaces.Access.{outsider_changes_nothing}
use coruscant.Workspaces.Listing.{list_workspaces_iff}

program : Unit {0}
unfolding find_row find_item emails items_of members_of listed_items to_workspace can_access
    get_workspace member_ids list_workspaces with_workspace without_workspace create_workspace
    add_member add_item delete_item delete_workspace set_of add sort_by str_le
program = tt

abbrev made : Op
made = create "w1" "ann" "Rates" ("bob" ∷ []) "2026-01-01"

abbrev tables : Tables
tables = record {
  workspaces = new_row "w1" "ann" "Rates" "2026-01-01" ∷ [];
  members =
      record { workspace_id = "w1"; email = "ann" }
      ∷ record { workspace_id = "w1"; email = "bob" }
      ∷ [];
  items = [];
}

create_test : apply made empty ≡ tables
unfolding program
create_test = refl

empty-IsValid : IsValid empty
empty-IsValid = record {
  workspaces_apart = tt;
  items_apart = tt;
  owners_in = tt;
  members_belong = tt;
  items_belong = tt;
}

tables-IsValid : IsValid tables
tables-IsValid = record {
  workspaces_apart = (refl, tt);
  items_apart = tt;
  owners_in = (refl, tt);
  members_belong = (refl, (refl, tt));
  items_belong = tt;
}

apply-IsValid_example : IsValid (apply made empty)
apply-IsValid_example = apply-IsValid made {t = empty} empty-IsValid

found : find_row "w1" tables.workspaces ≡ some (new_row "w1" "ann" "Rates" "2026-01-01")
unfolding program
found = refl

abbrev takeover : Op
takeover = join "bob" "w1" "carl"

bob_refused : ¬ ((◌≡◌ {A = String} "w1" "w1") × (◌≡◌ {A = String} "ann" "bob"))
bob_refused (_, owner) =
    let same : false ≡ true = (string_eq.same_iff "ann" "bob").1 owner in absurd (cc same)

-- A member who is not the owner adds nobody.
outsider_changes_nothing_example :
    get_workspace (apply takeover tables) "carl" "w1" ≡ get_workspace tables "carl" "w1"
outsider_changes_nothing_example =
    outsider_changes_nothing takeover "w1" "carl" tables-IsValid found bob_refused

list_workspaces_iff_example :
    (elem "w1" (map (λ w. w.id) (list_workspaces tables "ann")) ≡ true) ↔ (
      get_workspace tables "ann" "w1"
      ≡ some (to_workspace tables (new_row "w1" "ann" "Rates" "2026-01-01") true))
list_workspaces_iff_example = list_workspaces_iff "ann" "w1" tables-IsValid found
