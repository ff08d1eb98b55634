-- ===== src/Identity/Calls.antt =====
-- The calls of the service, one after another. services/identity/src/modules
use seapedia.Prelude.{ℕ, Option, List, [], ◌∷◌, String}
use seapedia.Platform.Monad.{Env}
use seapedia.Identity.Schema.{Role, IdentityDb, Config, Crypto}
use seapedia.Identity.Sessions.{refresh, logout, select_role}
use seapedia.Identity.Accounts.{Registration, register, login}
use seapedia.Identity.Profile.{onboard, update_profile}

pub data IdentityCall : Type 0 where
  registers : Registration → IdentityCall
  logins : (name password : String) → IdentityCall
  refreshes : (token : ℕ) → IdentityCall
  logouts : (session token : Option ℕ) → IdentityCall
  selects : (user session : ℕ) → Role → IdentityCall
  onboards : (user session : ℕ) → List Role → IdentityCall
  profiles : (user : ℕ) → Option String → Option (Option String) → IdentityCall

module _ (crypto : Crypto) (config : Config) where
  unfoldable pub call : Env → IdentityCall → IdentityDb → IdentityDb
  call env (registers input) d = (register crypto config env input d).1
  call env (logins name password) d = (login crypto config env name password d).1
  call env (refreshes token) d = (refresh crypto config env token d).1
  call env (logouts session token) d = logout crypto config env session token d
  call env (selects user session role) d = (select_role crypto config env user session role d).1
  call env (onboards user session roles) d = (onboard env crypto config user session roles d).1
  call env (profiles user name avatar) d = (update_profile env user name avatar d).1

  abbrev pub call_all : List (Env × IdentityCall) → IdentityDb → IdentityDb
  call_all [] d = d
  call_all ((env, c) ∷ cs) d = call_all cs (call env c d)
