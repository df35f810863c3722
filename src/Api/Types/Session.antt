-- ===== src/Api/Types/Session.antt =====
-- frontend/src/api/types.ts: the session and the options of the login page.
use danmaku.Prelude.{Bool, Option}
use danmaku.Js.Text.{Text}
use danmaku.Js.Number.{Number}

-- "SuperAdmin" | "Admin" | "GeneralUser"
pub data SessionRole : Type 0 where
  super_admin admin general_user : SessionRole

-- "local" | "cas"
pub data Provider : Type 0 where
  local cas : Provider

pub record AuthOptions : Type 0 where
  pub cas_enabled : Bool
  pub default_cas : Bool
  pub cas_login_path : Text
  pub local_login_path : Text

pub record SessionData : Type 0 where
  pub id : Number
  pub name : Text
  pub username : Text
  pub role : SessionRole
  pub email : Option Text
  pub avatar : Option Text
  pub provider : Provider

-- `Session`: the data of a session with what the console derives from it.
pub record Session : Type 0 where
  pub session : SessionData
  pub open session use *
  pub cas_enabled : Bool
  pub can_manage_danmaku : Bool
  pub can_manage_users : Bool
  pub profile_editable : Bool
