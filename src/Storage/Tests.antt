-- ===== src/Storage/Tests.antt =====
-- Uploads of some types, and the logo of the sample organization.
use gym_saas_be.Prelude.{◌≡◌, refl, some, none, [], ◌∷◌, codes, Option, Text, ◌++◌}
use gym_saas_be.Errors.{Result, ok, err, domain, invalid_file_type}
use gym_saas_be.Samples.{tables, sample, sample_runs}
use gym_saas_be.Entities.{Db, Organization}
use gym_saas_be.Storage.{
  with_image, UploadCandidate, validate_image, FileStorage, logo, set_organization_image,
}
use gym_saas_be.Storage.Images.{AfterImage, set_organization_image_lem}

abbrev png : UploadCandidate
png = record { mimetype = codes "image/png"; size = 2097152; buffer = [] }

not_an_image :
    validate_image (some (record { mimetype = codes "text/plain"; size = 1; buffer = [] }))
    ≡ err (domain (invalid_file_type (codes "text/plain")))
unfolding validate_image
not_an_image = refl

abbrev bucket : FileStorage
bucket = record { put = λ key buffer kind. some key; print_id = λ i. i ∷ [] }

with_logo : Result Organization × Db tables
unfolding set_organization_image
with_logo = set_organization_image tables bucket 7 9 logo (some png) (codes "u1") sample

logo_of : Result Organization → Option Text
logo_of (ok o) = o.cols.logo_url
logo_of (err x) = none

logo_set : logo_of with_logo.0 ≡ some (codes "org/" ++ (9 ∷ codes "/logo-u1.png"))
unfolding with_logo logo_of set_organization_image sample_runs with_image
logo_set = refl

set_organization_image_lem_example :
    AfterImage tables bucket 7 9 logo (some png) (codes "u1") sample with_logo
unfolding with_logo
set_organization_image_lem_example =
    set_organization_image_lem tables bucket 7 9 logo (some png) (codes "u1") sample
