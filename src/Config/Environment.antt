-- ===== src/Config/Environment.antt =====
-- config/storage.config.ts and config/database.config.ts: the settings of the object storage and of
-- the database. `Number` and the way a number is printed are the language's and are arguments.
use gym_saas_be.Prelude.{
  Bool, true, false, Option, none, some, ◌++◌, Text, codes, text_eq, if◌then◌else◌, with_default,
}
use gym_saas_be.Config.{filled_or}

-- A variable of the environment, by its name.
abbrev pub Environment : Type 0
Environment = Text → Option Text

abbrev pub get : Environment → Text → Text → Text
get e name default = with_default default (e name)

abbrev pub is_true : Option Text → Bool
unfolding text_eq
is_true none = false
is_true (some s) = text_eq s (codes "true")

pub record Ports : Type 1 where
  pub Number : Type 0
  pub number : Text → Number
  pub print : Number → Text

module _ (p : Ports) where
  pub record StorageConfig : Type 0 where
    pub end_point : Text
    pub port : p.Number
    pub use_ssl : Bool
    pub access_key : Text
    pub secret_key : Text
    pub bucket : Text
    pub public_url : Text

  -- An empty public address counts as none.
  abbrev pub public_url_of : Option Text → Text → Text
  public_url_of none derived = derived
  public_url_of (some url) derived = filled_or url derived

  unfoldable pub build_storage_config : Environment → StorageConfig
  unfolding is_true
  build_storage_config e =
      let end_point = get e (codes "MINIO_ENDPOINT") (codes "localhost") in
      let port = p.number (get e (codes "MINIO_PORT") (codes "9000")) in
      let use_ssl = is_true (e (codes "MINIO_USE_SSL")) in
      let bucket = get e (codes "MINIO_BUCKET") (codes "generic-saas") in
      let scheme = if use_ssl then codes "https" else codes "http" in
      record {
        end_point = end_point;
        port = port;
        use_ssl = use_ssl;
        access_key = get e (codes "MINIO_ACCESS_KEY") (codes "admin");
        secret_key = get e (codes "MINIO_SECRET_KEY") (codes "adminadmin");
        bucket = bucket;
        public_url = public_url_of (e (codes "MINIO_PUBLIC_URL")) (
            scheme ++ codes "://" ++ end_point ++ codes ":" ++ p.print port ++ codes "/" ++ bucket);
      }

  -- The options of TypeORM; `ssl` is whether there is any, then without checking certificates.
  pub record TypeOrmOptions : Type 0 where
    pub host : Text
    pub port : p.Number
    pub username : Text
    pub password : Text
    pub database : Text
    pub auto_load_entities : Bool
    pub synchronize : Bool
    pub ssl : Bool

  unfoldable pub build_type_orm_config : Environment → TypeOrmOptions
  unfolding is_true
  build_type_orm_config e = record {
    host = get e (codes "DB_HOST") (codes "localhost");
    port = p.number (get e (codes "DB_PORT") (codes "5432"));
    username = get e (codes "DB_USER") (codes "postgres");
    password = get e (codes "DB_PASSWORD") (codes "postgres");
    database = get e (codes "DB_NAME") (codes "generic_saas");
    auto_load_entities = true;
    synchronize = is_true (e (codes "DB_SYNCHRONIZE"));
    ssl = is_true (e (codes "DB_SSL"));
  }
