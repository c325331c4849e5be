-- ===== src/Users.antt =====
-- The public view of a user (modules/users/application/user-public-profile.ts).
pub mod Repository
pub mod UseCases
use gym_saas_be.Prelude.{Option, Text}
use gym_saas_be.Store.{Uuid, Time}
use gym_saas_be.Entities.{AuthProvider, User}

pub record UserPublicProfile : Type 0 where
  pub id : Uuid
  pub email : Text
  pub name : Text
  pub provider : AuthProvider
  pub created_at : Time
  pub avatar_url : Option Text

unfoldable pub to_public_profile : User → UserPublicProfile
to_public_profile user = record {
  id = user.id;
  email = user.cols.email;
  name = user.cols.name;
  provider = user.cols.provider;
  created_at = user.created_at;
  avatar_url = user.cols.avatar_url;
}
