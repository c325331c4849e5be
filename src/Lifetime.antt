-- ===== src/Lifetime.antt =====
-- Organizations over time: any sequence of the calls of Organizations, Memberships and Roles that
-- write the database, with those that give an organization an image, and the owners that it leaves.
mod Tests
use gym_saas_be.Prelude.{
  ℕ, ◌≡◌, refl, ◌≢◌, ◌⊎◌, inl, inr, Option, none, some, Text, arith, ◌==◌, sym, ◌∙◌, subst, Unicode,
}
use gym_saas_be.Store.{Uuid, Time}
use gym_saas_be.Errors.{Result, ok, err}
use gym_saas_be.Entities.{Organization, Membership, Role, Tables, Db, Transactions}
use gym_saas_be.Memberships.{ChangeMemberRoleCommand, RemoveMemberCommand, owner_role_key}
use gym_saas_be.Memberships.Owners.{HasOwner, remove_member-HasOwner}
use gym_saas_be.Memberships.Reassigned.{change_member_role-HasOwner}
use gym_saas_be.Memberships.UseCases.{change_member_role, remove_member}
use gym_saas_be.Organizations.{create_organization}
use gym_saas_be.Organizations.Created.{IsCreated, AfterCreate, create_organization_lem}
use gym_saas_be.Organizations.UseCases.{
  UpdateOrganizationCommand, update_organization, delete_organization,
}
use gym_saas_be.Organizations.Updated.{AfterUpdate, update_organization_lem}
use gym_saas_be.Organizations.Deleted.{delete_organization_lem}
use gym_saas_be.Storage.{
  FileStorage, OrganizationImageTarget, UploadCandidate, set_organization_image,
}
use gym_saas_be.Storage.Images.{AfterImage, set_organization_image_lem}
use gym_saas_be.Roles.{
  UpdateRoleCommand, CreateRoleCommand, ReplaceRolePermissionsCommand, create_role, update_role,
  delete_role, replace_role_permissions,
}
use gym_saas_be.Roles.Granting.{replace_role_permissions-SameButGrants}
use gym_saas_be.Roles.Catalog.{IsDeletable, delete_role_lem, update_role_lem, create_role_kept}

module _ (t : Tables) (d : Transactions (Db t)) (u : Unicode) where
  -- One call, whether it succeeds or fails.
  pub data Step : Db t → Db t → Type 0 where
    creates :
        (fuel : ℕ) (owner_user_id : Uuid) (name : Text) (now : Time) (db db' : Db t)
        (r : Result Organization)
        → create_organization t d u fuel owner_user_id name now db ≡ some (r, db')
        → Step db db'
    changes : (c : ChangeMemberRoleCommand) (db : Db t) → Step db (change_member_role t c db).1
    removes :
        (c : RemoveMemberCommand) (now : Time) (db : Db t) → Step db (remove_member t c now db).1
    creates_role : (c : CreateRoleCommand) (db : Db t) → Step db (create_role t c db).1
    updates_role : (c : UpdateRoleCommand) (db : Db t) → Step db (update_role t c db).1
    deletes_role :
        (role_id : Uuid) (now : Time) (db : Db t) → Step db (delete_role t role_id now db).1
    replaces_permissions :
        (c : ReplaceRolePermissionsCommand) (now : Time) (db : Db t)
        → Step db (replace_role_permissions t d c now db).1
    updates :
        (caller_user_id organization_id : Uuid) (patch : UpdateOrganizationCommand) (db : Db t)
        → Step db (update_organization t caller_user_id organization_id patch db).1
    pictures :
        (storage : FileStorage) (caller_user_id organization_id : Uuid)
        (target : OrganizationImageTarget) (file : Option UploadCandidate) (uuid : Text) (db : Db t)
        → Step db
            (set_organization_image t storage caller_user_id organization_id target file uuid db).1
    deletes :
        (caller_user_id organization_id : Uuid) (now : Time) (db : Db t)
        → Step db (delete_organization t caller_user_id organization_id now db).1

  pub data Reach (db : Db t) : Db t → Type 0 where
    here : Reach db db
    next : {db1 db2 : Db t} → Reach db db1 → Step db1 db2 → Reach db db2

  created_kept :
      (owner : Uuid) (name : Text) (now : Time) (r : Result Organization) (db db' : Db t) (o : Uuid)
      → AfterCreate t owner name now db r db'
      → HasOwner t db o
      → HasOwner t db' o
  created_kept owner name now (err e) db db' o a h = subst (λ (x : Db t). HasOwner t x o) (sym a) h
  created_kept owner name now (ok org) db db' o a h = record {
    member = h.member;
    member_row = a.memberships_kept h.member.id h.member h.member_row;
    member_live = h.member_live;
    of_organization = h.of_organization;
    role = h.role;
    role_row = ground (arith, a.same_roles, h.role_row);
    role_live = h.role_live;
    role_key = h.role_key;
  }

  -- The owner stays where the memberships are as before and the owners' role is still there.
  role_kept :
      (db db' : Db t) (o : Uuid) (h : HasOwner t db o) (role : Role)
      → db'.memberships ≡ db.memberships
      → t.roles.row db'.roles h.member.cols.role_id ≡ some role
      → role.deleted_at ≡ none
      → role.cols.key ≡ owner_role_key
      → HasOwner t db' o
  role_kept db db' o h role same row live key = record {
    member = h.member;
    member_row = ground (arith, same, h.member_row);
    member_live = h.member_live;
    of_organization = h.of_organization;
    role = role;
    role_row = row;
    role_live = live;
    role_key = key;
  }

  deleted_kept :
      (role_id : Uuid) (now : Time) (db : Db t) (o : Uuid)
      → HasOwner t db o
      → HasOwner t (delete_role t role_id now db).1 o
  deleted_kept role_id now db o h = elim (delete_role_lem t role_id now db) [
    | inr (failed, same) ↦ subst (λ (x : Db t). HasOwner t x o) (sym same) h
    | inl (done, deletable, gone, others, same) ↦
        let n = deletable.unused h.member.id h.member h.member_row h.member_live in
        role_kept db _ o h h.role same (others h.member.cols.role_id n ∙ h.role_row) h.role_live
          h.role_key
  ]

  -- Nothing is asked of the other tables.
  unchanged_kept :
      (db db' : Db t) (o : Uuid)
      → db'.memberships ≡ db.memberships
      → db'.roles ≡ db.roles
      → HasOwner t db o
      → HasOwner t db' o
  unchanged_kept db db' o members roles h =
      role_kept db db' o h h.role members (ground (arith, roles, h.role_row)) h.role_live h.role_key

  updated_kept :
      (caller id : Uuid) (patch : UpdateOrganizationCommand) (db : Db t)
      (end : Result Organization × Db t) (o : Uuid)
      → AfterUpdate t caller id patch db end
      → HasOwner t db o
      → HasOwner t end.1 o
  updated_kept caller id patch db (err x, db') o a h =
      subst (λ (y : Db t). HasOwner t y o) (sym a) h
  updated_kept caller id patch db (ok r, db') o a h =
      unchanged_kept db db' o (ground (arith, a.rest)) (ground (arith, a.rest)) h

  pictured_kept :
      (storage : FileStorage) (caller id : Uuid) (target : OrganizationImageTarget)
      (file : Option UploadCandidate) (uuid : Text) (db : Db t) (end : Result Organization × Db t)
      (o : Uuid)
      → AfterImage t storage caller id target file uuid db end
      → HasOwner t db o
      → HasOwner t end.1 o
  pictured_kept storage caller id target file uuid db (err x, db') o a h =
      subst (λ (y : Db t). HasOwner t y o) (sym a) h
  pictured_kept storage caller id target file uuid db (ok r, db') o a h =
      unchanged_kept db db' o (ground (arith, a.rest)) (ground (arith, a.rest)) h

  organization_deleted_kept :
      (caller id : Uuid) (now : Time) (db : Db t) (o : Uuid)
      → HasOwner t db o
      → HasOwner t (delete_organization t caller id now db).1 o
  organization_deleted_kept caller id now db o h =
      elim (delete_organization_lem t caller id now db) [
        | inr (failed, same) ↦ subst (λ (x : Db t). HasOwner t x o) (sym same) h
        | inl (done, (granted, found, gone, others, members, users, roles)) ↦
            unchanged_kept db _ o members roles h
      ]

  Step-HasOwner : {db db' : Db t} (o : Uuid) → Step db db' → HasOwner t db o → HasOwner t db' o
  Step-HasOwner o (creates fuel owner name now db db' r e) h =
      created_kept owner name now r db db' o
        (create_organization_lem t d u fuel owner name now db db' r e) h
  Step-HasOwner o (changes c db) h = change_member_role-HasOwner t c db o h
  Step-HasOwner o (removes c now db) h = remove_member-HasOwner t c now db o h
  Step-HasOwner o (creates_role c db) h =
      let (row, same) = create_role_kept t c db h.member.cols.role_id h.role h.role_row in
      role_kept db _ o h h.role same row h.role_live h.role_key
  Step-HasOwner o (updates_role c db) h =
      let ((role, row, key, del), same) =
        update_role_lem t c db h.member.cols.role_id h.role h.role_row in
      role_kept db _ o h role same row (del ∙ h.role_live) (key ∙ h.role_key)
  Step-HasOwner o (deletes_role role_id now db) h = deleted_kept role_id now db o h
  Step-HasOwner o (replaces_permissions c now db) h =
      let (members, roles) = replace_role_permissions-SameButGrants t d c now db in
      unchanged_kept db _ o members roles h
  Step-HasOwner o (updates caller id patch db) h =
      updated_kept caller id patch db _ o (update_organization_lem t caller id patch db) h
  Step-HasOwner o (pictures storage caller id target file uuid db) h =
      pictured_kept storage caller id target file uuid db _ o
        (set_organization_image_lem t storage caller id target file uuid db) h
  Step-HasOwner o (deletes caller id now db) h = organization_deleted_kept caller id now db o h

  pub Reach-HasOwner :
      {db db' : Db t} (o : Uuid) → Reach db db' → HasOwner t db o → HasOwner t db' o
  Reach-HasOwner o here h = h
  Reach-HasOwner o (next r st) h = Step-HasOwner o st (Reach-HasOwner o r h)

  -- An organization that was created has an owner, and keeps one through any later calls, whether
  -- they succeed or fail, that create, update, illustrate or delete an organization, change a
  -- member's role or remove a member, or create, update or delete a role or replace its permissions.
  pub create_organization-HasOwner :
      (fuel : ℕ) (owner_user_id : Uuid) (name : Text) (now : Time) (db db1 db2 : Db t)
      (o : Organization)
      → create_organization t d u fuel owner_user_id name now db ≡ some (ok o, db1)
      → Reach db1 db2
      → HasOwner t db2 o.id
  create_organization-HasOwner fuel owner name now db db1 db2 o e reach =
      let c = create_organization_lem t d u fuel owner name now db db1 (ok o) e in
      Reach-HasOwner o.id reach (record {
        member = c.is_member.member;
        member_row = c.is_member.member_row;
        member_live = c.is_member.member_live;
        of_organization = c.is_member.of_organization;
        role = c.role;
        role_row = c.is_member.role_row;
        role_live = c.is_member.role_live;
        role_key = c.role_key;
      })
