-- ===== src/Entities.antt =====
-- The entities of src/modules, their unique indexes, the database that holds their tables, and the
-- actions that handlers perform on it.
use gym_saas_be.Prelude.{
  ℕ, Bool, true, false, ◌&&◌, Option, none, some, Text, text_eq, ◌==◌, ◌≡◌, refl, sym, ◌∙◌, arith,
}
use gym_saas_be.Store.{Uuid, Time, Stored, Table}
use gym_saas_be.Errors.{Exception, query_failed, Result, ok, err}

pub data AuthProvider : Type 0 where
  local google : AuthProvider

pub record UserColumns : Type 0 where
  pub email : Text
  pub name : Text
  pub password_hash : Option Text
  pub google_id : Option Text
  pub provider : AuthProvider
  pub avatar_url : Option Text
  pub is_platform_admin : Bool

pub record OrganizationColumns : Type 0 where
  pub name : Text
  pub slug : Text
  pub trial_ends_at : Option Time
  pub primary_color : Option Text
  pub secondary_color : Option Text
  pub font_family : Option Text
  pub logo_url : Option Text
  pub banner_url : Option Text

pub record MembershipColumns : Type 0 where
  pub user_id : Uuid
  pub organization_id : Uuid
  pub role_id : Uuid

pub record RoleColumns : Type 0 where
  pub key : Text
  pub name : Text
  pub description : Option Text
  pub hierarchy_level : ℕ

pub record PermissionColumns : Type 0 where
  pub code : Text
  pub name : Text
  pub description : Text
  pub is_active : Bool

pub record RolePermissionColumns : Type 0 where
  pub role_id : Uuid
  pub permission_code : Text

pub record SessionColumns : Type 0 where
  pub user_id : Uuid
  pub family_id : Uuid
  pub refresh_token_hash : Text
  pub expires_at : Time
  pub last_used_at : Option Time
  pub revoked_at : Option Time
  pub replaced_by_session_id : Option Uuid
  pub user_agent : Option Text
  pub ip_address : Option Text

abbrev pub User : Type 0
User = Stored UserColumns

abbrev pub Organization : Type 0
Organization = Stored OrganizationColumns

abbrev pub Membership : Type 0
Membership = Stored MembershipColumns

abbrev pub Role : Type 0
Role = Stored RoleColumns

abbrev pub Permission : Type 0
Permission = Stored PermissionColumns

abbrev pub RolePermission : Type 0
RolePermission = Stored RolePermissionColumns

abbrev pub Session : Type 0
Session = Stored SessionColumns

-- The columns of the unique indexes.
abbrev pub same_email : UserColumns → UserColumns → Bool
same_email a b = text_eq a.email b.email

abbrev pub same_slug : OrganizationColumns → OrganizationColumns → Bool
same_slug a b = text_eq a.slug b.slug

abbrev pub same_user_org : MembershipColumns → MembershipColumns → Bool
same_user_org a b = a.user_id == b.user_id && a.organization_id == b.organization_id

abbrev pub same_key : RoleColumns → RoleColumns → Bool
same_key a b = text_eq a.key b.key

abbrev pub same_code : PermissionColumns → PermissionColumns → Bool
same_code a b = text_eq a.code b.code

abbrev pub same_role_code : RolePermissionColumns → RolePermissionColumns → Bool
same_role_code a b = a.role_id == b.role_id && text_eq a.permission_code b.permission_code

-- The tables; `true` marks a partial index (`WHERE deleted_at IS NULL`).
pub record Tables : Type 1 where
  pub users : Table same_email false
  pub organizations : Table same_slug true
  pub memberships : Table same_user_org true
  pub roles : Table same_key true
  pub permissions : Table same_code false
  pub role_permissions : Table same_role_code true

-- The contents of the database, but for the sessions, which stand on their own.
pub record Db (t : Tables) : Type 0 where
  pub users : t.users.Store
  pub organizations : t.organizations.Store
  pub memberships : t.memberships.Store
  pub roles : t.roles.Store
  pub permissions : t.permissions.Store
  pub role_permissions : t.role_permissions.Store

-- A handler returns or throws; what it wrote before stays written.
abbrev pub Action : Type 0 → Type 0 → Type 0
Action S A = S → Result A × S

abbrev pub pure : {S A : Type 0} → A → Action S A
pure a s = (ok a, s)

abbrev pub throw : {S A : Type 0} → Exception → Action S A
throw e s = (err e, s)

-- A query.
abbrev pub reads : {S A : Type 0} → (S → A) → Action S A
reads f s = (ok (f s), s)

abbrev pub throw_if : {S : Type 0} → Bool → Exception → Action S (Unit {0})
throw_if true e s = (err e, s)
throw_if false e s = (ok tt, s)

abbrev pub or_throw : {S A : Type 0} → Option A → Exception → Action S A
or_throw none e s = (err e, s)
or_throw (some a) e s = (ok a, s)

infixl 5 ◌>>=◌ ◌>>◌
abbrev pub ◌>>=◌ : {S A B : Type 0} → Action S A → (A → Action S B) → Action S B
◌>>=◌ m f s = let (r, s') = m s in elim r [ ok a ↦ f a s' | err e ↦ (err e, s') ]

abbrev pub ◌>>◌ : {S A B : Type 0} → Action S A → Action S B → Action S B
m >> k = m >>= λ _. k

-- `save` on one table of the database, with a way to write the table back.
abbrev pub saving :
    {C : Type 0} {same : C → C → Bool} {partial : Bool} {S : Type 0} (t : Table same partial)
    → (S → t.Store)
    → (t.Store → S → S)
    → Stored C
    → Action S (Stored C)
saving t get put r s = elim (t.save r (get s)) [
  | none ↦ (err (query_failed (t.save_error r (get s))), s)
  | some (r', store) ↦ (ok r', put store s)
]

-- `DataSource.transaction`: what the body wrote is kept if it returns, and undone if it throws.
pub record Transactions (S : Type 0) : Type 1 where
  pub transaction : (A : Type 0) → Action S A → Action S A
  pub commit :
      (A : Type 0) (m : Action S A) (s s' : S) (a : A)
      → m s ≡ (ok a, s')
      → transaction A m s ≡ (ok a, s')
  pub rollback :
      (A : Type 0) (m : Action S A) (s s' : S) (e : Exception)
      → m s ≡ (err e, s')
      → transaction A m s ≡ (err e, s)

-- What a transaction says of its body.
module _ {S : Type 0} (d : Transactions S) {A : Type 0} (m : Action S A) (s s' : S) where
  pub transaction_ok : (a : A) → d.transaction A m s ≡ (ok a, s') → m s ≡ (ok a, s')
  transaction_ok a e = by_outcome (m s) refl
    where
      by_outcome : (o : Result A × S) → m s ≡ o → m s ≡ (ok a, s')
      by_outcome (ok b, s1) q = q ∙ sym (d.commit A m s s1 b q) ∙ e
      by_outcome (err x, s1) q = absurd (ground (arith, d.rollback A m s s1 x q, e))

  pub transaction_err : (x : Exception) → d.transaction A m s ≡ (err x, s') → s' ≡ s
  transaction_err x e = by_outcome (m s) refl
    where
      by_outcome : (o : Result A × S) → m s ≡ o → s' ≡ s
      by_outcome (ok b, s1) q = absurd (ground (arith, d.commit A m s s1 b q, e))
      by_outcome (err y, s1) q = ground (arith, d.rollback A m s s1 y q, e)
