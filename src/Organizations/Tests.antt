-- ===== src/Organizations/Tests.antt =====
-- Organizations on the sample database, and the theorems applied to it.
use gym_saas_be.Prelude.{
  ◌↔◌, true, none, ℕ, ◌≡◌, refl, ◌≤◌, true, Option, none, some, codes, Unicode, trim, is_space,
  strip, strip_start, strip_end,
}
use gym_saas_be.Samples.{organization, tables, sample, sample_runs}
use gym_saas_be.Errors.{Result, ok, err, domain, permission_denied, entity_not_found}
use gym_saas_be.Entities.{Db, Organization}
use gym_saas_be.Sessions.ListSessions.{run_transaction, settle}
use gym_saas_be.Organizations.{create_organization, first_free, find_by_slug, has_slug}
use gym_saas_be.Organizations.UseCases.{
  delete_organization, update_organization, patch_name, patch_columns, UpdateOrganizationCommand,
  missing, null, given,
}
use gym_saas_be.Organizations.Updated.{AfterUpdate, update_organization_lem}
use gym_saas_be.Organizations.Deleted.{AfterDelete, delete_organization_lem}
use gym_saas_be.Organizations.Created.{AfterCreate}
use gym_saas_be.Organizations.UseCases.{
  MyOrganization, list_my_organizations, get_onboarding_status,
}
use gym_saas_be.Organizations.Listed.{IsMine, get_onboarding_status_iff}
use mathlib.Core.List.{Memᴰ}
use gym_saas_be.Organizations.Finished.{create_organization_ends}

abbrev plain : Unicode
plain = record { nfd = λ s. s; to_lower = λ s. s }

-- The outcome of creating another "gym".
created : Option (Result Organization × Db tables)
unfolding sample_runs create_organization settle
created = create_organization tables run_transaction plain 5 8 (codes " gym ") 100 sample

abbrev outcome : Option (Result Organization × Db tables) → Result Organization × Db tables
outcome none = (err entity_not_found, sample)
outcome (some o) = o

runs : Unit {0}
unfolding update_organization patch_name trim is_space strip strip_start strip_end
    delete_organization created sample_runs create_organization settle first_free find_by_slug
    has_slug
runs = tt

second_slug : first_free tables 5 (codes "gym") 0 sample ≡ some (codes "gym-2")
unfolding runs
second_slug = refl

spent : first_free tables 1 (codes "gym") 0 sample ≡ none
unfolding runs
spent = refl

deleted : (delete_organization tables 7 9 50 sample).0 ≡ ok tt
unfolding runs
deleted = refl

not_permitted : (delete_organization tables 8 9 50 sample).0 ≡ err (domain permission_denied)
unfolding runs
not_permitted = refl

abbrev rename : UpdateOrganizationCommand
rename = record {
  name = given (codes " Gym 2 ");
  primary_color = null;
  secondary_color = missing;
  font_family = missing;
}

renamed : update_organization tables 7 9 rename sample ≡ (
  ok (patch_columns rename (codes "Gym 2") (organization 9 (codes "gym"))),
  (update_organization tables 7 9 rename sample).1,
)
unfolding runs
renamed = refl

update_organization_lem_example :
    AfterUpdate tables 7 9 rename sample (update_organization tables 7 9 rename sample)
update_organization_lem_example = update_organization_lem tables 7 9 rename sample

delete_organization_lem_example :
    AfterDelete tables 7 9 sample (delete_organization tables 7 9 50 sample)
delete_organization_lem_example = delete_organization_lem tables 7 9 50 sample

create_organization_ends_example :
    (turns : ℕ) × ((fuel : ℕ)
      → turns ≤ fuel
      → (r : Result Organization) × (db' : Db tables) × (create_organization tables run_transaction
            plain fuel 8
            (codes " gym ")
            100
            sample
          ≡ some (r, db'))
        × AfterCreate tables 8 (codes " gym ") 100 sample r db')
create_organization_ends_example =
    create_organization_ends tables run_transaction plain 8 (codes " gym ") 100 sample

get_onboarding_status_iff_example :
    ((x : MyOrganization)
      → Memᴰ x (list_my_organizations tables 8 sample) ↔ IsMine tables 8 sample x)
    × ((get_onboarding_status tables 8 none sample).needs_onboarding ≡ true
        ↔ ((x : MyOrganization) → ¬ IsMine tables 8 sample x))
get_onboarding_status_iff_example = get_onboarding_status_iff tables 8 none sample

one_organization : (get_onboarding_status tables 8 none sample).organizations_count ≡ 1
unfolding runs get_onboarding_status
one_organization = refl
