-- ===== src/Errors.antt =====
-- Exceptions (src/common/errors/domain-error.ts and the */domain/*.errors.ts files), and what a
-- handler returns.
use gym_saas_be.Prelude.{ℕ, Option, Text, ◌≡◌, refl, ◌⊎◌, inl, inr}
use gym_saas_be.Store.{Uuid}

-- Subclasses of `DomainError`, each with the arguments of its constructor.
pub data DomainError : Type 0 where
  duplicate_membership : (user_id organization_id : Uuid) → DomainError
  -- The identifier is `<user>@<organization>`, or `<user>@membership` with `none`.
  membership_not_found : (user_id : Uuid) → (organization_id : Option Uuid) → DomainError
  sole_owner : DomainError
  cannot_change_own_role : DomainError
  unknown_role : (role_id : Uuid) → DomainError
  owner_role_not_assignable : DomainError
  organization_not_found : (identifier : Uuid) → DomainError
  slug_taken : (slug : Text) → DomainError
  permission_denied : DomainError
  unknown_permission : (code : Text) → DomainError
  role_not_found : (identifier : Uuid) → DomainError
  role_key_conflict : (key : Text) → DomainError
  role_in_use : DomainError
  owner_role_protected : DomainError
  invalid_file_type : (received : Text) → DomainError
  file_too_large : (size_bytes max_bytes : ℕ) → DomainError
  missing_file : DomainError

-- The `status` that each subclass declares.
unfoldable pub status : DomainError → ℕ
status (duplicate_membership u o) = 409
status (membership_not_found u o) = 404
status sole_owner = 409
status cannot_change_own_role = 409
status (unknown_role r) = 404
status owner_role_not_assignable = 409
status (organization_not_found i) = 404
status (slug_taken s) = 409
status permission_denied = 403
status (unknown_permission c) = 400
status (role_not_found i) = 404
status (role_key_conflict k) = 409
status role_in_use = 409
status owner_role_protected = 409
status (invalid_file_type r) = 400
status (file_too_large s m) = 413
status missing_file = 400

-- Everything that the code throws or lets through.
pub data Exception : Type 0 where
  domain : DomainError → Exception
  duplicate_email : (email : Text) → Exception
  user_not_found : (identifier : Uuid) → Exception
  unauthorized : (message : Text) → Exception
  forbidden : (message : Text) → Exception
  not_found : (message : Text) → Exception
  -- TypeORM's exceptions; `QueryFailedError` carries the driver's code.
  entity_not_found : Exception
  query_failed : (code : Option Text) → Exception
  -- `new Error(message)`, and the `TypeError` of the runtime.
  plain_error : (message : Text) → Exception
  type_error : Exception

pub data Result (A : Type 0) : Type 0 where
  ok : A → Result A
  err : Exception → Result A

-- How a call has ended.
pub ended :
    {A S : Type 0} (o : Result A × S)
    → ((a : A) × (s : S) × (o ≡ (ok a, s))) ⊎ ((x : Exception) × (s : S) × (o ≡ (err x, s)))
ended (ok a, s) = inl (a, s, refl)
ended (err x, s) = inr (x, s, refl)

pub returned :
    {A : Type 0} (r : Result A) → ((a : A) × (r ≡ ok a)) ⊎ ((x : Exception) × (r ≡ err x))
returned (ok a) = inl (a, refl)
returned (err x) = inr (x, refl)
