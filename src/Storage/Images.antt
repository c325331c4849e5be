-- ===== src/Storage/Images.antt =====
-- organizations/application/set-organization-image.use-case.ts: what giving an organization an
-- image takes and changes.
use gym_saas_be.Prelude.{
  ◌≡◌, refl, ◌≤◌, ◌≢◌, inl, inr, true, Option, some, [], ◌∷◌, Text, codes, arith, Option-cases,
  Bool-cases, subst, sym, ap, none, ◌++◌, ◌∙◌, any, text_eq, text_eq_iff,
}
use gym_saas_be.Store.{Uuid}
use gym_saas_be.Errors.{
  returned, Result, ok, err, domain, permission_denied, organization_not_found, plain_error,
}
use gym_saas_be.Entities.{Organization, OrganizationColumns, Tables, Db}
use gym_saas_be.Permissions.{organization_update}
use gym_saas_be.Permissions.Service.{check_permission, require_permission}
use gym_saas_be.Organizations.{find_by_id, save_organization}
use gym_saas_be.Organizations.Saved.{AfterSave, save_organization_lem}
use gym_saas_be.Storage.{
  UploadCandidate, allowed_image_mime_types, max_image_size_bytes, validate_image,
  validate_image_lem, extension_for, FileStorage, OrganizationImageTarget, logo, banner,
  target_name, with_image, image_key, put_image, put_failed, set_organization_image,
}

validate_image-some :
    (file : Option UploadCandidate) (image : UploadCandidate)
    → validate_image file ≡ ok image
    → (file ≡ some image)
      × (image.size ≤ max_image_size_bytes)
      × (extension_for image.mimetype ≢ codes "bin")
unfolding validate_image
validate_image-some none image e = cc
validate_image-some (some f) image e =
    let (same, size, known) = validate_image_lem f image e in
    (ap (λ (x : UploadCandidate). some x) (sym same), rw same size, rw same known)

with_image-id :
    (target : OrganizationImageTarget) (url : Text) (o : Organization)
    → (with_image target url o).id ≡ o.id
unfolding with_image
with_image-id logo url o = refl
with_image-id banner url o = refl

-- The columns of an organization with a new image: one of its two addresses, and all else the same.
pub record IsImaged (target : OrganizationImageTarget) (url : Text) (old new : OrganizationColumns)
    : Type 0 where
  pub logo_url : new.logo_url ≡ elim target [ logo ↦ some url | banner ↦ old.logo_url ]
  pub banner_url : new.banner_url ≡ elim target [ logo ↦ old.banner_url | banner ↦ some url ]
  pub name : new.name ≡ old.name
  pub slug : new.slug ≡ old.slug
  pub trial_ends_at : new.trial_ends_at ≡ old.trial_ends_at
  pub primary_color : new.primary_color ≡ old.primary_color
  pub secondary_color : new.secondary_color ≡ old.secondary_color
  pub font_family : new.font_family ≡ old.font_family

with_image-IsImaged :
    (target : OrganizationImageTarget) (url : Text) (o : Organization)
    → IsImaged target url o.cols (with_image target url o).cols
unfolding with_image
with_image-IsImaged logo url o = record {
  logo_url = refl;
  banner_url = refl;
  name = refl;
  slug = refl;
  trial_ends_at = refl;
  primary_color = refl;
  secondary_color = refl;
  font_family = refl;
}
with_image-IsImaged banner url o = record {
  logo_url = refl;
  banner_url = refl;
  name = refl;
  slug = refl;
  trial_ends_at = refl;
  primary_color = refl;
  secondary_color = refl;
  font_family = refl;
}

-- The four types of images, each with the extension of its key.
pub data HasExtension : (mimetype extension : Text) → Type 0 where
  png : HasExtension (codes "image/png") (codes "png")
  jpeg : HasExtension (codes "image/jpeg") (codes "jpg")
  webp : HasExtension (codes "image/webp") (codes "webp")
  svg : HasExtension (codes "image/svg+xml") (codes "svg")

extension_for-HasExtension :
    (m : Text) → any allowed_image_mime_types (text_eq m) ≡ true → HasExtension m (extension_for m)
unfolding extension_for text_eq
extension_for-HasExtension m e =
    let is = λ (c : Text) (q : text_eq m c ≡ true). sym ((text_eq_iff m c).0 q) in
    let at = λ (x : Text). HasExtension x (extension_for x) in
    elim (Bool-cases (text_eq m (codes "image/png"))) [
      | inl q ↦ subst at (is _ q) png
      | inr n1 ↦ elim (Bool-cases (text_eq m (codes "image/jpeg"))) [
        | inl q ↦ subst at (is _ q) jpeg
        | inr n2 ↦ elim (Bool-cases (text_eq m (codes "image/webp"))) [
          | inl q ↦ subst at (is _ q) webp
          | inr n3 ↦ elim (Bool-cases (text_eq m (codes "image/svg+xml"))) [
            | inl q ↦ subst at (is _ q) svg
            | inr n4 ↦ absurd (ground (arith, n1, n2, n3, n4, e))
          ]
        ]
      ]
    ]

validate_image-HasExtension :
    (file : Option UploadCandidate) (image : UploadCandidate)
    → validate_image file ≡ ok image
    → HasExtension image.mimetype (extension_for image.mimetype)
unfolding validate_image
validate_image-HasExtension none image e = cc
validate_image-HasExtension (some f) image e =
    elim (Bool-cases (any allowed_image_mime_types (text_eq f.mimetype))) [
      | inr n ↦ absurd (ground arith)
      | inl known ↦
          let same : f ≡ image = ground arith in
          subst (λ (x : UploadCandidate). HasExtension x.mimetype (extension_for x.mimetype)) same
            (extension_for-HasExtension f.mimetype known)
    ]

module _ (t : Tables) (storage : FileStorage) where
  -- The address that the storage gave for the key.
  abbrev pub stored_at :
      (organization_id : Uuid) → OrganizationImageTarget → Text → UploadCandidate → Option Text
  stored_at id target uuid image =
      storage.put
        (image_key (codes "org/") (storage.print_id id) (target_name target) uuid image.mimetype)
        image.buffer image.mimetype

  -- The same with the key written out.
  stored_at-key :
      (id : Uuid) (target : OrganizationImageTarget) (uuid : Text) (image : UploadCandidate)
      → storage.put
          (codes "org/"
            ++ storage.print_id id
            ++ codes "/"
            ++ elim target [ logo ↦ codes "logo" | banner ↦ codes "banner" ]
            ++ codes "-"
            ++ uuid
            ++ codes "."
            ++ extension_for image.mimetype)
          image.buffer
          image.mimetype
        ≡ stored_at id target uuid image
  unfolding image_key
  stored_at-key id logo uuid image = refl
  stored_at-key id banner uuid image = refl

  -- The image is one, the caller may change the organization, the storage answers an address for the
  -- key, and that is the organization's; nothing else of the database has changed.
  pub record IsPictured (caller_user_id organization_id : Uuid) (target : OrganizationImageTarget)
      (file : Option UploadCandidate) (uuid : Text) (db db' : Db t) (saved : Organization)
      : Type 0 where
    pub permitted :
        check_permission t caller_user_id organization_id (organization_update ∷ []) db ≡ true
    pub organization : Organization
    pub found : find_by_id t organization_id db ≡ some organization
    pub image : UploadCandidate
    pub uploaded : file ≡ some image
    pub size : image.size ≤ max_image_size_bytes
    pub extension : Text
    pub known_type : HasExtension image.mimetype extension
    pub url : Text
    pub put :
        storage.put
          (codes "org/"
            ++ storage.print_id organization_id
            ++ codes "/"
            ++ elim target [ logo ↦ codes "logo" | banner ↦ codes "banner" ]
            ++ codes "-"
            ++ uuid
            ++ codes "."
            ++ extension)
          image.buffer
          image.mimetype
        ≡ some url
    pub columns : IsImaged target url organization.cols saved.cols
    pub stored : t.organizations.row db'.organizations organization_id ≡ some saved
    pub others :
        (i : Uuid)
        → i ≢ organization_id
        → t.organizations.row db'.organizations i ≡ t.organizations.row db.organizations i
    pub rest : db' ≡ record db { organizations = db'.organizations }

  abbrev pub AfterImage :
      (caller_user_id organization_id : Uuid)
      → OrganizationImageTarget
      → Option UploadCandidate
      → Text
      → Db t
      → Result Organization × Db t
      → Type 0
  AfterImage caller id target file uuid db (ok saved, db') =
      IsPictured caller id target file uuid db db' saved
  AfterImage caller id target file uuid db (err x, db') = db' ≡ db

  IsSaved-AfterImage :
      (caller id : Uuid) (target : OrganizationImageTarget) (file : Option UploadCandidate)
      (uuid : Text) (db : Db t) (o : Organization) (image : UploadCandidate) (url : Text)
      (end : Result Organization × Db t)
      → check_permission t caller id (organization_update ∷ []) db ≡ true
      → find_by_id t id db ≡ some o
      → validate_image file ≡ ok image
      → stored_at id target uuid image ≡ some url
      → AfterSave t id (with_image target url o) db end
      → AfterImage caller id target file uuid db end
  IsSaved-AfterImage caller id target file uuid db o image url (err x, db') p q v s a = a
  IsSaved-AfterImage caller id target file uuid db o image url (ok r, db') p q v s a =
      let (uploaded, size, known) = validate_image-some file image v in
      record {
        permitted = p;
        organization = o;
        found = q;
        image = image;
        uploaded = uploaded;
        size = size;
        extension = extension_for image.mimetype;
        known_type = validate_image-HasExtension file image v;
        url = url;
        put = stored_at-key id target uuid image ∙ s;
        columns =
            subst (IsImaged target url o.cols) (sym a.columns) (with_image-IsImaged target url o);
        stored = a.stored;
        others = a.others;
        rest = a.rest;
      }

  -- Setting the image of an organization succeeds only for a caller with the permission to update
  -- it there, an organization that is found, and an upload of a known image type that is not too
  -- large; then the storage has answered an address for the key
  -- `org/<id>/<logo or banner>-<uuid>.<extension>` with the file's content and type, and this
  -- address is the new logo or banner, the one asked for; the other image, every other column of
  -- the organization and every other row of the database is as it was. A call that fails leaves the
  -- database as it was.
  pub set_organization_image_lem :
      (caller_user_id organization_id : Uuid) (target : OrganizationImageTarget)
      (file : Option UploadCandidate) (uuid : Text) (db : Db t)
      → AfterImage caller_user_id organization_id target file uuid db
          (set_organization_image t storage caller_user_id organization_id target file uuid db)
  unfolding set_organization_image require_permission put_image
  set_organization_image_lem caller id target file uuid db =
      let call = set_organization_image t storage caller id target file uuid db in
      elim (Bool-cases (check_permission t caller id (organization_update ∷ []) db)) [
        | inr refused ↦
            let after : call ≡ (err (domain permission_denied), db) = ground arith in
            subst (AfterImage caller id target file uuid db) (sym after) refl
        | inl granted ↦ elim (returned (validate_image file)) [
          | inr (x, v) ↦
              let after : call ≡ (err x, db) = ground arith in
              subst (AfterImage caller id target file uuid db) (sym after) refl
          | inl (image, v) ↦ elim (Option-cases (find_by_id t id db)) [
            | inl n ↦
                let after : call ≡ (err (domain (organization_not_found id)), db) = ground arith in
                subst (AfterImage caller id target file uuid db) (sym after) refl
            | inr (o, q) ↦ elim (Option-cases (stored_at id target uuid image)) [
              | inl n ↦
                  let after : call ≡ (err (plain_error put_failed), db) = ground arith in
                  subst (AfterImage caller id target file uuid db) (sym after) refl
              | inr (url, s) ↦
                  let changed = with_image target url o in
                  let after : call ≡ save_organization t changed db = ground arith in
                  subst (AfterImage caller id target file uuid db) (sym after) (
                    IsSaved-AfterImage caller id target file uuid db o image url
                      (save_organization t changed db) granted q v s
                      (save_organization_lem t id o changed db q (with_image-id target url o)))
            ]
          ]
        ]
      ]
