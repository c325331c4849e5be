-- ===== src/Storage/Minio.antt =====
-- storage/infrastructure/minio-file-storage.ts: the bucket at the start of the server, and storing
-- a file in it. The client of MinIO, whose store of objects the calls change, is an argument, as is
-- the JSON of the policy.
use gym_saas_be.Prelude.{ℕ, Bool, false, List, [], ◌∷◌, ◌++◌, Text, codes, length, if◌then◌else◌}
use gym_saas_be.Errors.{ok, err}
use gym_saas_be.Entities.{Action, pure, ◌>>=◌, ◌>>◌}
use gym_saas_be.Config.Environment.{Ports, StorageConfig}

pub record StorableFile : Type 0 where
  pub key : Text
  pub buffer : List ℕ
  pub content_type : Text

-- A policy with one statement.
pub record Policy : Type 0 where
  pub version : Text
  pub effect : Text
  pub principal_aws : List Text
  pub action : List Text
  pub resource : List Text

pub record MinioClient : Type 1 where
  pub Store : Type 0
  pub bucket_exists : Text → Action Store Bool
  pub make_bucket : Text → Action Store (Unit {0})
  pub set_bucket_policy : Text → Text → Action Store (Unit {0})
  pub put_object :
      (bucket key : Text) → List ℕ → ℕ → (content_type : Text) → Action Store (Unit {0})
  pub stringify : Policy → Text

-- `.catch(() => false)`.
abbrev pub or_false : {S : Type 0} → Action S Bool → Action S Bool
or_false m s = let (r, s') = m s in elim r [ ok b ↦ (ok b, s') | err x ↦ (ok false, s') ]

unfoldable pub public_read_policy : Text → Policy
public_read_policy bucket = record {
  version = codes "2012-10-17";
  effect = codes "Allow";
  principal_aws = codes "*" ∷ [];
  action = codes "s3:GetObject" ∷ [];
  resource = (codes "arn:aws:s3:::" ++ bucket ++ codes "/*") ∷ [];
}

module _ (p : Ports) (m : MinioClient) (c : StorageConfig p) where
  unfoldable pub on_module_init : Action m.Store (Unit {0})
  unfolding public_read_policy
  on_module_init = or_false (m.bucket_exists c.bucket) >>= λ exists.
      (if exists then pure tt else m.make_bucket c.bucket)
      >> m.set_bucket_policy c.bucket (m.stringify (public_read_policy c.bucket))

  unfoldable pub put : StorableFile → Action m.Store Text
  put file =
      m.put_object c.bucket file.key file.buffer (length file.buffer) file.content_type
      >> pure (c.public_url ++ codes "/" ++ file.key)
