-- ===== src/Lib.antt =====
-- A model of the backend of a software-as-a-service platform for gyms (src/, NestJS over TypeORM and
-- PostgreSQL), with the properties of its sessions, permissions, members, organizations, role
-- catalog and accounts.
--
-- The program. Users register or log in (src/modules/auth) and get a pair of tokens for a session
-- that is kept in the database (src/modules/sessions); a refresh token is exchanged once for the
-- next. A user belongs to organizations through memberships (src/modules/memberships), each with one
-- role of a global catalog (src/modules/roles, src/modules/permissions) that grants permission
-- codes. A request's context names an organization only after the membership was looked up
-- (src/common/context), and guards (src/common/guards) check it, the permissions and the ownership
-- of resources. Use cases read and write through repositories over one table each.
--
-- The files. Each component is a file of definitions with child modules for what is shown of it.
--   Prelude        numbers, lists and texts (UTF-16 code units), the string methods of the language
--   Store          rows with the columns of src/common/entities, and a table as a parameter
--   Errors         the errors of src/common/errors and of the domain folders
--   Entities       the columns of the entities, their unique indexes, the database, the actions
--   Sessions       session.service.ts and typeorm-session.repository.ts
--   Permissions    the services, repositories and ownership rules of src/modules/permissions, and
--                  permission.guard.ts and active-org.guard.ts
--   Memberships    change-member-role, remove-member and list-organization-members
--   Slugs          src/common/lib/slugify.ts
--   Organizations  the use cases of src/modules/organizations and typeorm-org-unit-of-work.ts
--   Roles          the use cases of src/modules/roles
--   Lifetime       sequences of the calls on organizations, members and roles
--   Users          email.vo.ts, the use cases of src/modules/users, and src/modules/platform-admin
--   Auth           the use cases of src/modules/auth, jwt.strategy.ts, jwt-token.service.ts and
--                  src/common/context; Auth/SignUp has registration and the sign-in with Google
--   Audit          the hooks of src/common/entities/base-audit.entity.ts
--   Storage        image-upload.validator.ts, the use cases that store an image, and
--                  minio-file-storage.ts
--   Seeder         src/modules/permissions/infrastructure/catalog.seeder.ts
--   Http           the controllers behind their guards (Requests has the guards and what the server
--                  is put together from; Auth, Sessions, Organizations, Members and Admin have the
--                  handlers, Views what they show, Bodies the rules for the bodies), the cookies, the
--                  exception filters (Failures, Logging) and http-logging.interceptor.ts
--   Config         cors.config.ts, storage.config.ts and database.config.ts of src/config
--   Health         src/modules/health/health.service.ts
--   Ratchet        scripts/coverage-ratchet.js
--   Durations      common/lib/duration.ts
--   Samples        a database for the tests; Store/ListTable and Sessions/ListSessions are tables
--                  kept in lists, which meet all that is asked of a table
--
-- How the code is written. A record stands for a row or a command, `Option` for a value that may be
-- null or undefined, and a handler is an action: a function from the state to a result, or an
-- exception, and the next state, so that what was written before an exception stays written. Guards
-- and early returns are `throw_if` and `or_throw`, in the order of the source. Names are the
-- source's, in snake case. An id is a number, 0 the empty string, so that two
-- spellings of one UUID are one id; where the source compares an id of a path with `===` to decide
-- (the guard against changing one's own role, and the revocation of the request's own session), an
-- argument tells whether the path spells it as the database does. A time is in milliseconds, and a
-- call reads the clock once. Numbers are unbounded: the code counts rows and adds milliseconds far
-- below 2^53.
--
-- Parameters. TypeORM with PostgreSQL is the record `Table`: its operations, a `save` that may fail,
-- and the documented facts of them (a row is found under its key, unique indexes hold, `find` returns
-- the visible rows). `DataSource.transaction` is `Transactions`: it keeps what a body wrote that
-- returns and undoes what one wrote that throws. Signing, hashing and storage are fields of `Keys`,
-- `Verifiers` and `FileStorage`, the verification of an access token at a time is one of `Backend`,
-- and the tables of Unicode are those of `Unicode`.
--
-- Fuel. `first_free`, the loop that looks for an unused slug, takes the number of its turns; a number
-- that suffices for the rows of the database is computed from the slugs in it. `digits` prints a
-- number with as much fuel as the number and one.
--
-- Not modelled: the order in which queries list rows, the conversion of request bodies and the
-- refusal of unknown fields, the limit on the rate of requests and the redirect to Google (libraries),
-- the documentation of OpenAPI, the wiring of modules and the settings of tools, which have no
-- behaviour of their own. Calls run one after the other. What a storage holds is no part of the
-- state: `put` answers an address or fails.
pub mod Prelude
pub mod Store
pub mod Errors
pub mod Http
pub mod Durations
pub mod Entities
pub mod Users
pub mod Slugs
pub mod Samples
pub mod Sessions
pub mod Permissions
pub mod Memberships
pub mod Organizations
pub mod Audit
pub mod Health
pub mod Config
pub mod Ratchet
pub mod Roles
pub mod Lifetime
pub mod Auth
pub mod Storage
pub mod Seeder
