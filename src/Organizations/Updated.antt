-- ===== src/Organizations/Updated.antt =====
-- What updating an organization changes.
use gym_saas_be.Prelude.{
  ◌≡◌, refl, ◌≢◌, ◌⊎◌, inl, inr, true, Text, Option, none, some, [], ◌∷◌, arith, Option-cases,
  Bool-cases, subst, sym, trim,
}
use gym_saas_be.Store.{Uuid}
use gym_saas_be.Errors.{
  Result, ok, err, domain, type_error, permission_denied, organization_not_found,
}
use gym_saas_be.Entities.{Organization, OrganizationColumns, Tables, Db}
use gym_saas_be.Permissions.{organization_update}
use gym_saas_be.Permissions.Service.{check_permission, require_permission}
use gym_saas_be.Organizations.{find_by_id, save_organization}
use gym_saas_be.Organizations.Saved.{AfterSave, save_organization_lem}
use gym_saas_be.Organizations.UseCases.{
  Field, missing, null, given, UpdateOrganizationCommand, patch_column, patch_columns, patch_name,
  update_organization,
}

-- What a field of a patch says of a column that may be NULL.
abbrev pub Patches : {A : Type 0} → Field A → (old new : Option A) → Type 0
Patches missing old new = new ≡ old
Patches null old new = new ≡ none
Patches (given a) old new = new ≡ some a

-- What it says of the name.
abbrev pub Renames : Field Text → (old new : Text) → Type 0
Renames missing old new = new ≡ old
Renames null old new = ⊥
Renames (given name) old new = new ≡ trim name

patch_column-Patches :
    {A : Type 0} (f : Field A) (old : Option A) → Patches f old (patch_column f old)
patch_column-Patches missing old = refl
patch_column-Patches null old = refl
patch_column-Patches (given a) old = refl

-- The columns of an organization after a patch, one by one.
pub record IsPatched (patch : UpdateOrganizationCommand) (old new : OrganizationColumns)
    : Type 0 where
  pub name : Renames patch.name old.name new.name
  pub slug : new.slug ≡ old.slug
  pub trial_ends_at : new.trial_ends_at ≡ old.trial_ends_at
  pub primary_color : Patches patch.primary_color old.primary_color new.primary_color
  pub secondary_color : Patches patch.secondary_color old.secondary_color new.secondary_color
  pub font_family : Patches patch.font_family old.font_family new.font_family
  pub logo_url : new.logo_url ≡ old.logo_url
  pub banner_url : new.banner_url ≡ old.banner_url

-- The name after a patch that has one, or none.
abbrev pub patched_name : Field Text → Text → Text
patched_name (given name) old = trim name
patched_name _ old = old

patched_name-Renames : (f : Field Text) (old : Text) → f ≢ null → Renames f old (patched_name f old)
patched_name-Renames missing old n = refl
patched_name-Renames null old n = n refl
patched_name-Renames (given name) old n = refl

patch_columns-IsPatched :
    (patch : UpdateOrganizationCommand) (o : Organization)
    → patch.name ≢ null
    → IsPatched patch o.cols (patch_columns patch (patched_name patch.name o.cols.name) o).cols
patch_columns-IsPatched patch o n = record {
  name = patched_name-Renames patch.name o.cols.name n;
  slug = refl;
  trial_ends_at = refl;
  primary_color = patch_column-Patches patch.primary_color o.cols.primary_color;
  secondary_color = patch_column-Patches patch.secondary_color o.cols.secondary_color;
  font_family = patch_column-Patches patch.font_family o.cols.font_family;
  logo_url = refl;
  banner_url = refl;
}

module _ (t : Tables) where
  -- What an update that went through changed, and what it took.
  pub record IsUpdated (caller_user_id organization_id : Uuid) (patch : UpdateOrganizationCommand)
      (db db' : Db t) (updated : Organization) : Type 0 where
    pub organization : Organization
    pub found : find_by_id t organization_id db ≡ some organization
    pub permitted :
        check_permission t caller_user_id organization_id (organization_update ∷ []) db ≡ true
    pub columns : IsPatched patch organization.cols updated.cols
    pub stored : t.organizations.row db'.organizations organization_id ≡ some updated
    pub others :
        (i : Uuid)
        → i ≢ organization_id
        → t.organizations.row db'.organizations i ≡ t.organizations.row db.organizations i
    pub rest : db' ≡ record db { organizations = db'.organizations }

  abbrev pub AfterUpdate :
      (caller_user_id organization_id : Uuid)
      → UpdateOrganizationCommand
      → Db t
      → Result Organization × Db t
      → Type 0
  AfterUpdate caller id patch db (ok updated, db') = IsUpdated caller id patch db db' updated
  AfterUpdate caller id patch db (err x, db') = db' ≡ db

  IsSaved-AfterUpdate :
      (caller id : Uuid) (patch : UpdateOrganizationCommand) (db : Db t) (o : Organization)
      (end : Result Organization × Db t)
      → check_permission t caller id (organization_update ∷ []) db ≡ true
      → find_by_id t id db ≡ some o
      → patch.name ≢ null
      → AfterSave t id (patch_columns patch (patched_name patch.name o.cols.name) o) db end
      → AfterUpdate caller id patch db end
  IsSaved-AfterUpdate caller id patch db o (err x, db') granted q named a = a
  IsSaved-AfterUpdate caller id patch db o (ok r, db') granted q named a = record {
    organization = o;
    found = q;
    permitted = granted;
    columns =
        subst (IsPatched patch o.cols) (sym a.columns) (patch_columns-IsPatched patch o named);
    stored = a.stored;
    others = a.others;
    rest = a.rest;
  }

  patch_name-cases :
      (f : Field Text) (old : Text) (db : Db t)
      → ((f ≢ null) × (patch_name f old db ≡ (ok (patched_name f old), db)))
        ⊎ (patch_name f old db ≡ (err type_error, db))
  unfolding patch_name
  patch_name-cases missing old db = inl (ground arith, refl)
  patch_name-cases null old db = inr refl
  patch_name-cases (given name) old db = inl (ground arith, refl)

  -- Updating an organization succeeds only for a caller with the permission to update it there, for
  -- an organization that is found, and for a body whose name is not null; then its name
  -- is the trimmed one of the body, if that has one, each colour and the font is what the body gives
  -- for it, if anything, its slug, its trial and its images are as they were, and so is every
  -- other row of the database. A call that fails changes nothing.
  pub update_organization_lem :
      (caller_user_id organization_id : Uuid) (patch : UpdateOrganizationCommand) (db : Db t)
      → AfterUpdate caller_user_id organization_id patch db
          (update_organization t caller_user_id organization_id patch db)
  unfolding update_organization require_permission
  update_organization_lem caller id patch db =
      let call = update_organization t caller id patch db in
      elim (Bool-cases (check_permission t caller id (organization_update ∷ []) db)) [
        | inr refused ↦
            let after : call ≡ (err (domain permission_denied), db) = ground arith in
            subst (AfterUpdate caller id patch db) (sym after) refl
        | inl granted ↦ elim (Option-cases (find_by_id t id db)) [
          | inl n ↦
              let after : call ≡ (err (domain (organization_not_found id)), db) = ground arith in
              subst (AfterUpdate caller id patch db) (sym after) refl
          | inr (o, q) ↦ elim (patch_name-cases patch.name o.cols.name db) [
            | inl (named, e) ↦
                let name = patched_name patch.name o.cols.name in
                let after : call ≡ save_organization t (patch_columns patch name o) db =
                  ground arith in
                subst (AfterUpdate caller id patch db) (sym after) (
                  IsSaved-AfterUpdate caller id patch db o
                    (save_organization t (patch_columns patch name o) db) granted q named
                    (save_organization_lem t id o (patch_columns patch name o) db q refl))
            | inr e ↦
                let after : call ≡ (err type_error, db) = ground arith in
                subst (AfterUpdate caller id patch db) (sym after) refl
          ]
        ]
      ]
