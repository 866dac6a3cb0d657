-- ===== src/Exposure/Queries/People.antt =====
-- `co_executives` of exposure/queries.py.
use coruscant.Prelude.{String, List, [], ◌++◌, map, keep, length, leb, string_eq, string_ord}
use coruscant.Prelude.Dict.{Dict}
use coruscant.Prelude.Sort.{sort_by}
use coruscant.Prelude.Groups.{group}
use coruscant.Graph.Memory.{Store, edges_by_relation}
use coruscant.Exposure.Ownership.{EntityRef, ref}

pub record CoExecutiveGroup : Type 0 where
  pub company : EntityRef
  pub people : List EntityRef

pub record BridgePerson : Type 0 where
  pub person : EntityRef
  pub companies : List EntityRef

pub record CoExecutiveResult : Type 0 where
  pub shared_company_groups : List CoExecutiveGroup
  pub multi_company_people : List BridgePerson

module _ (s : Store) where
  -- (company, person), in the order of the two loops
  unfoldable pub posts : List (String × String)
  posts =
      map (λ e. (e.source_key, e.target_key)) (edges_by_relation s "employs")
      ++ map (λ e. (e.target_key, e.source_key)) (edges_by_relation s "previously_at")

  unfoldable pub company_people : Dict String (List String)
  unfolding posts
  company_people = group [] posts

  unfoldable pub person_companies : Dict String (List String)
  unfolding posts
  person_companies = group [] (map (λ post. (post.1, post.0)) posts)

  -- `sorted(d.items())`, with two members or more: the keys are distinct, so that they decide the order
  unfoldable pub shared : Dict String (List String) → List (String × List String)
  shared d = keep (λ entry. leb 2 (length entry.1)) (sort_by (λ entry. entry.0) d)

  unfoldable pub people_at : String × List String → CoExecutiveGroup
  people_at (company, people) = record {
    company = ref s ("Company", company);
    people = map (λ p. ref s ("Person", p)) (sort_by (λ p. p) people);
  }

  unfoldable pub companies_with : String × List String → BridgePerson
  companies_with (person, companies) = record {
    person = ref s ("Person", person);
    companies = map (λ c. ref s ("Company", c)) (sort_by (λ c. c) companies);
  }

  unfoldable pub co_executives : CoExecutiveResult
  unfolding company_people person_companies shared people_at companies_with
  co_executives = record {
    shared_company_groups = map people_at (shared company_people);
    multi_company_people = map companies_with (shared person_companies);
  }
