-- ===== src/Seeder/Tests.antt =====
-- Seeding an empty catalog.
use gym_saas_be.Prelude.{◌≡◌, refl, [], text_eq}
use gym_saas_be.Samples.{tables}
use gym_saas_be.Store.ListTable.{list_table_runs}
use gym_saas_be.Errors.{ok}
use gym_saas_be.Entities.{Db}
use gym_saas_be.Sessions.ListSessions.{run_transaction, settle}
use gym_saas_be.Seeder.{seed_catalog}
use gym_saas_be.Seeder.Grown.{Grows}
use gym_saas_be.Seeder.Seeded.{seed_catalog-twice}

abbrev empty : Db tables
empty = record {
  users = ([], tt);
  organizations = ([], tt);
  memberships = ([], tt);
  roles = ([], tt);
  permissions = ([], tt);
  role_permissions = ([], tt);
}

seeded : Db tables
unfolding seed_catalog settle list_table_runs text_eq
seeded = (seed_catalog tables run_transaction empty).1

seed_catalog-twice_example :
    (seed_catalog tables run_transaction seeded ≡ (ok tt, seeded)) × Grows tables empty seeded
unfolding seeded seed_catalog settle list_table_runs text_eq
seed_catalog-twice_example = seed_catalog-twice tables run_transaction empty seeded tt refl
