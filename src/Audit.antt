-- ===== src/Audit.antt =====
-- common/entities/base-audit.entity.ts: the columns that are filled in before a row is written,
-- from the context of the request.
use gym_saas_be.Prelude.{Option, none, some, ◌==◌, if◌then◌else◌}
use gym_saas_be.Store.{Uuid, Time, BaseEntity, Author, account, default_by, unknown}
use gym_saas_be.Auth.Context.{AuthContext}

unfoldable pub get_by : Option AuthContext → Author
get_by none = default_by unknown
get_by (some context) = author_of context.account_id
  where
    author_of : Option Uuid → Author
    author_of none = default_by unknown
    author_of (some id) = account id

-- An author that is missing or empty is replaced.
abbrev pub created_by_or : Author → Option Author → Author
created_by_or author none = author
created_by_or author (some (account id)) = if id == 0 then author else account id
created_by_or author (some (default_by d)) = default_by d

unfoldable pub before_insert : Option AuthContext → Time → BaseEntity → BaseEntity
unfolding get_by
before_insert context now entity = record entity {
  created_by = some (created_by_or (get_by context) entity.created_by);
  created_at = now;
}

unfoldable pub before_update : Option AuthContext → BaseEntity → BaseEntity
unfolding get_by
before_update context entity = record entity { updated_by = some (get_by context) }
