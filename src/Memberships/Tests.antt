-- ===== src/Memberships/Tests.antt =====
-- Memberships on the sample database, and the theorems applied to it.
use gym_saas_be.Prelude.{◌≡◌, refl, ◌≢◌, ◌⊎◌, true, false, some, [], ◌∷◌}
use gym_saas_be.Samples.{tables, sample, sample_runs}
use gym_saas_be.Errors.{ok, err, domain, sole_owner, owner_role_not_assignable}
use gym_saas_be.Permissions.{members_remove}
use gym_saas_be.Memberships.{
  RemoveMemberCommand, ChangeMemberRoleCommand, is_active_member, find_by_user_and_org,
}
use gym_saas_be.Memberships.UseCases.{remove_member, change_member_role}
use gym_saas_be.Store.{Uuid}
use gym_saas_be.Entities.{Membership}
use gym_saas_be.Permissions.Granted.{IsPermitted}
use gym_saas_be.Memberships.Removal.{remove_member_lem}
use gym_saas_be.Memberships.Endings.{AfterChange}
use gym_saas_be.Memberships.Answered.{change_member_role_lem}

abbrev remove_bob : RemoveMemberCommand
remove_bob = record { caller_user_id = 7; organization_id = 9; target_user_id = 8 }

abbrev remove_ann : RemoveMemberCommand
remove_ann = record { caller_user_id = 7; organization_id = 9; target_user_id = 7 }

abbrev promote_bob : ChangeMemberRoleCommand
promote_bob = record {
  target_is_canonical = true;
  caller_user_id = 7;
  organization_id = 9;
  target_user_id = 8;
  role_id = 3;
}

runs : Unit {0}
unfolding sample_runs remove_member change_member_role is_active_member
runs = tt

removal_works :
    ((remove_member tables remove_bob 50 sample).0 ≡ ok tt)
    × (is_active_member tables 8 9 sample ≡ true)
    × (is_active_member tables 8 9 (remove_member tables remove_bob 50 sample).1 ≡ false)
unfolding runs
removal_works = (refl, refl, refl)

last_owner_stays : (remove_member tables remove_ann 50 sample).0 ≡ err (domain sole_owner)
unfolding runs
last_owner_stays = refl

owner_by_change :
    (change_member_role tables (record promote_bob { role_id = 1 }) sample).0
    ≡ err (domain owner_role_not_assignable)
unfolding runs
owner_by_change = refl

change_member_role_lem_example :
    AfterChange tables promote_bob sample (change_member_role tables promote_bob sample)
change_member_role_lem_example = change_member_role_lem tables promote_bob sample

remove_member_lem_example :
    let (result, db') = remove_member tables remove_bob 50 sample in
    ((result ≡ ok tt)
      × IsPermitted tables sample 7 9 (members_remove ∷ [])
      × (is_active_member tables 8 9 db' ≡ false)
      × (target : Membership) × (find_by_user_and_org tables 8 9 sample ≡ some target)
      × ((i : Uuid)
          → i ≢ target.id
          → tables.memberships.row db'.memberships i ≡ tables.memberships.row sample.memberships i))
    ⊎ ((result ≢ ok tt) × (db' ≡ sample))
remove_member_lem_example = remove_member_lem tables remove_bob 50 sample
