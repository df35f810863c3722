-- ===== src/Api/Types/Users.antt =====
-- frontend/src/api/types.ts: accounts.
use danmaku.Prelude.{Bool, Option}
use danmaku.Js.Text.{Text}
use danmaku.Js.Number.{Number}
use danmaku.Api.Types.Session.{Provider}

-- "administrator" | "danmaku_manager" | "user"
pub data ManagedRole : Type 0 where
  administrator danmaku_manager user : ManagedRole

pub record ManagedUser : Type 0 where
  pub id : Number
  pub name : Text
  pub display_name : Text
  pub role : ManagedRole
  pub super_admin : Bool
  pub enabled : Bool
  pub provider : Provider
  pub profile_mutable : Bool
  pub email : Option Text
  pub avatar : Option Text
  pub create_time : Text
  pub update_time : Text

pub record UserProfile : Type 0 where
  pub id : Number
  pub name : Text
  pub role : Number
  pub enabled : Bool
  pub phone_number : Option Text
  pub email : Option Text
  pub create_time : Text
  pub update_time : Text
