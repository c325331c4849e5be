-- ===== src/Storage.antt =====
-- Images: modules/storage (the validator of uploads) and the use cases of modules/users and
-- modules/organizations that store one. To the use cases the storage
-- is an argument, with `none` where `put` throws; a generated part of a key is an argument too.
pub mod Images
pub mod Minio
mod Tests
use gym_saas_be.Prelude.{
  ℕ, ◌++◌, ◌≡◌, refl, ◌≤◌, ◌≢◌, inl, inr, Bool, true, false, not, Option, none, some, List, [], ◌∷◌,
  Text, codes, text_eq, text_eq_iff, ltb, any, if◌then◌else◌, arith, Bool-cases,
}
use gym_saas_be.Store.{Uuid}
use gym_saas_be.Errors.{
  Result, ok, err, domain, missing_file, invalid_file_type, file_too_large, user_not_found,
  organization_not_found, plain_error,
}
use gym_saas_be.Entities.{
  User, Organization, Tables, Db, Action, pure, reads, or_throw, ◌>>=◌, ◌>>◌,
}
use gym_saas_be.Users.Repository
use gym_saas_be.Users.Repository.{save_user}
use gym_saas_be.Permissions.{organization_update}
use gym_saas_be.Permissions.Service.{require_permission}
use gym_saas_be.Organizations
use gym_saas_be.Organizations.{save_organization}

pub record UploadCandidate : Type 0 where
  pub mimetype : Text
  pub size : ℕ
  pub buffer : List ℕ

abbrev pub allowed_image_mime_types : List Text
allowed_image_mime_types =
    codes "image/png" ∷ codes "image/jpeg" ∷ codes "image/webp" ∷ codes "image/svg+xml" ∷ []

abbrev pub max_image_size_bytes : ℕ
max_image_size_bytes = 2097152

unfoldable pub validate_image : Option UploadCandidate → Result UploadCandidate
unfolding text_eq
validate_image none = err (domain missing_file)
validate_image (some file) =
    if not (any allowed_image_mime_types (text_eq file.mimetype))
    then err (domain (invalid_file_type file.mimetype))
    else if ltb max_image_size_bytes file.size
    then err (domain (file_too_large file.size max_image_size_bytes))
    else ok file

unfoldable pub extension_for : Text → Text
unfolding text_eq
extension_for mimetype =
    if text_eq mimetype (codes "image/png")
    then codes "png"
    else if text_eq mimetype (codes "image/jpeg")
    then codes "jpg"
    else if text_eq mimetype (codes "image/webp")
    then codes "webp"
    else if text_eq mimetype (codes "image/svg+xml")
    then codes "svg"
    else codes "bin"

-- An upload that the validator accepts is at most of the maximal size, and its type has an
-- extension of its own.
pub validate_image_lem :
    (file accepted : UploadCandidate)
    → validate_image (some file) ≡ ok accepted
    → (accepted ≡ file)
      × (file.size ≤ max_image_size_bytes)
      × (extension_for file.mimetype ≢ codes "bin")
unfolding validate_image extension_for
validate_image_lem file accepted e = (ground arith, ground arith, λ q. ground arith)

-- `put` answers the address of an upload, or throws (`none`); what the storage holds is not kept.
pub record FileStorage : Type 0 where
  pub put : (key : Text) → (buffer : List ℕ) → (content_type : Text) → Option Text
  pub print_id : Uuid → Text

pub data OrganizationImageTarget : Type 0 where
  logo banner : OrganizationImageTarget

abbrev pub target_name : OrganizationImageTarget → Text
target_name logo = codes "logo"
target_name banner = codes "banner"

abbrev pub put_failed : Text
put_failed = codes "storage"

abbrev pub with_avatar : Text → User → User
with_avatar url user = record user { cols = record (user.cols) { avatar_url = some url } }

unfoldable pub with_image : OrganizationImageTarget → Text → Organization → Organization
with_image logo url o = record o { cols = record (o.cols) { logo_url = some url } }
with_image banner url o = record o { cols = record (o.cols) { banner_url = some url } }

-- The key `<folder>/<owner>/<name>-<uuid>.<extension>`.
unfoldable pub image_key : (folder owner name uuid mimetype : Text) → Text
unfolding extension_for
image_key folder owner name uuid mimetype =
    folder ++ owner ++ codes "/" ++ name ++ codes "-" ++ uuid ++ codes "." ++ extension_for mimetype

module _ (t : Tables) (storage : FileStorage) where
  abbrev pub checked : {S : Type 0} → Option UploadCandidate → Action S UploadCandidate
  checked file s = (validate_image file, s)

  -- Stored under its key and its content type.
  unfoldable pub put_image : (folder owner name uuid : Text) → UploadCandidate → Action (Db t) Text
  unfolding image_key
  put_image folder owner name uuid file =
      or_throw
        (storage.put (image_key folder owner name uuid file.mimetype) file.buffer file.mimetype)
        (plain_error put_failed)

  unfoldable pub set_user_avatar :
      Uuid → Option UploadCandidate → (uuid : Text) → Action (Db t) User
  unfolding validate_image put_image save_user Repository.find_by_id
  set_user_avatar user_id file uuid = checked file >>= λ image.
      reads (Repository.find_by_id t user_id) >>= λ found.
      or_throw found (user_not_found user_id) >>= λ user.
      put_image (codes "users/") (storage.print_id user_id) (codes "avatar") uuid image >>= λ url.
      save_user t (with_avatar url user)

  unfoldable pub set_organization_image :
      Uuid
      → Uuid
      → OrganizationImageTarget
      → Option UploadCandidate
      → (uuid : Text) → Action (Db t) Organization
  unfolding require_permission validate_image put_image save_organization Organizations.find_by_id
  set_organization_image caller_user_id organization_id target file uuid =
      require_permission t caller_user_id organization_id (organization_update ∷ [])
      >> checked file
      >>= λ image. reads (Organizations.find_by_id t organization_id) >>= λ found.
          or_throw found (domain (organization_not_found organization_id)) >>= λ organization.
          put_image (codes "org/") (storage.print_id organization_id) (target_name target) uuid
            image
          >>= λ url. save_organization t (with_image target url organization)
