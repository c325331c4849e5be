-- ===== src/Lifetime/Tests.antt =====
-- An organization that is created and then loses a member.
use gym_saas_be.Prelude.{refl, Option, none, some, [], codes, Unicode}
use gym_saas_be.Samples.{tables, sample, sample_runs, organization}
use gym_saas_be.Errors.{Result, ok, err, entity_not_found}
use gym_saas_be.Entities.{Db, Organization}
use gym_saas_be.Sessions.ListSessions.{run_transaction, settle}
use gym_saas_be.Memberships.{RemoveMemberCommand}
use gym_saas_be.Memberships.Owners.{HasOwner}
use gym_saas_be.Memberships.UseCases.{remove_member}
use gym_saas_be.Organizations.{create_organization}
use gym_saas_be.Lifetime.{here, next, removes, create_organization-HasOwner}

abbrev plain : Unicode
plain = record { nfd = λ s. s; to_lower = λ s. s }

abbrev outcome : Option (Result Organization × Db tables) → Result Organization × Db tables
outcome none = (err entity_not_found, sample)
outcome (some o) = o

-- Bob founds a second gym, and then tries to leave it.
founded : Db tables
unfolding sample_runs create_organization settle
founded =
    (outcome (create_organization tables run_transaction plain 5 8 (codes "gym") 100 sample)).1

abbrev leave : RemoveMemberCommand
leave = record { caller_user_id = 8; organization_id = 10; target_user_id = 8 }

abbrev found : Result Organization → Organization → Organization
found (ok o) d = o
found (err e) d = d

second : Organization
unfolding sample_runs create_organization settle
second =
    found
      (outcome (create_organization tables run_transaction plain 5 8 (codes "gym") 100 sample)).0
      (organization 0 [])

create_organization-HasOwner_example :
    HasOwner tables (remove_member tables leave 200 founded).1 second.id
unfolding founded second sample_runs create_organization settle
create_organization-HasOwner_example =
    create_organization-HasOwner tables run_transaction plain 5 8 (codes "gym") 100 sample founded
      (remove_member tables leave 200 founded).1 second refl (next here (removes leave 200 founded))
