-- ===== src/Identity/Profile.antt =====
-- The roles that a user chooses at onboarding, the profile, and what the other routes read.
-- services/identity/src/modules/auth/auth.service.ts,
-- services/identity/src/modules/users/users.service.ts
use mathlib.Core.Option
use seapedia.Prelude.{
  ℕ, suc, ◌+◌, Bool, true, false, not, ◌&&◌, ◌||◌, Option, none, some, List, [], ◌∷◌, ◌++◌, ltb,
  ◌==◌, String, if◌then◌else◌, find, update, delete,
}
use seapedia.Platform.Monad.{
  err, ok, forbidden, not_found, out_of_range, pure, throw, or_throw, transaction, throw_if, modify,
  ◌>>=◌, ◌>>◌, max_int, Env,
}
use seapedia.Identity.Schema.{
  same_text, Role, admin, buyer, same_role, User, UserRole, Session, updated, IdentityDb,
  user_missing, session_missing, already_onboarded, Action, Config, Crypto, AccessToken,
}
use seapedia.Identity.Roles.{is_user, roles_of, includes, first_role, insert_role}
use seapedia.Identity.Sessions.{is_session, is_live, access_for, active_of}
use seapedia.Identity.Accounts.{or_else, enqueue_user}

-- `Array.from(new Set(…))`: each value at its first place.
abbrev pub drop_role : Role → List Role → List Role
drop_role r [] = []
drop_role r (x ∷ xs) = let rest = drop_role r xs in if same_role x r then rest else x ∷ rest

abbrev pub unique_roles : List Role → List Role
unique_roles [] = []
unique_roles (r ∷ rs) = r ∷ drop_role r (unique_roles rs)

abbrev pub is_plain_role_of : ℕ → UserRole → Bool
is_plain_role_of user r = r.user_id == user && not (same_role r.role admin)

-- A write of the row that a select of the call found, if its `version` stays in the range.
unfoldable pub bump_user : User → (User → User) → Action User
bump_user u change d =
    if ltb u.version max_int
    then (ok (change u), record d { users = update (is_user u.id) change d.users })
    else (err out_of_range, d)

module _ (env : Env) where
  -- One insert for each role, `admin` skipped.
  abbrev pub insert_roles : (draw : ℕ) → ℕ → List Role → IdentityDb → IdentityDb
  insert_roles draw user [] d = d
  insert_roles draw user (r ∷ rs) d =
      insert_roles (suc draw) user rs
        (if same_role r admin then d else insert_role env draw user r d)

  abbrev pub clear_roles : ℕ → IdentityDb → IdentityDb
  clear_roles user d = record d { user_roles = delete (is_plain_role_of user) d.user_roles }

  abbrev pub onboarded : User → User
  onboarded u = record u { is_onboarded = true; updated_at = env.now; version = u.version + 1 }

  unfoldable pub onboard_found : List Role → Option User → Action (List Role)
  onboard_found chosen none = throw (not_found user_missing)
  onboard_found chosen (some u) = do
    throw_if u.is_onboarded (forbidden already_onboarded)
    modify (clear_roles u.id)
    modify (insert_roles 0 u.id (unique_roles (buyer ∷ chosen)))
    after ← bump_user u onboarded
    roles ← λ d. (ok (roles_of u.id d), d)
    modify (enqueue_user updated after roles)
    pure roles

  abbrev pub active_in : Option Session → List Role → Option Role
  active_in none roles = first_role roles
  active_in (some s) roles = active_of s.active_role roles

  unfoldable pub onboard : Crypto → Config → (user session : ℕ) → List Role → Action AccessToken
  onboard crypto config user session chosen = do
    roles ← transaction (λ d. onboard_found chosen (find (is_user user) d.users) d)
    found ← λ d. (ok (find (is_session session) d.sessions), d)
    pure (access_for crypto config env user session roles (active_in found roles))

  -- `name` and `avatarKey` of the input; a missing one keeps the value, `null` is `some none`.
  abbrev pub profile : Option String → Option (Option String) → User → User → User
  profile name avatar before u = record u {
    name = or_else (Option.map some name) before.name;
    avatar_key = or_else avatar before.avatar_key;
    updated_at = env.now;
    version = u.version + 1;
  }

  abbrev pub same_key : Option String → Option String → Bool
  same_key none none = true
  same_key (some a) (some b) = same_text a b
  same_key _ _ = false

  -- The avatar that the update leaves behind.
  abbrev pub old_object : Option (Option String) → Option String → List String
  old_object none old = []
  old_object (some _) none = []
  old_object (some new) (some old) =
      if same_text old "" || same_key (some old) new then [] else old ∷ []

  unfoldable pub publish_profile : Option String → Option (Option String) → User → Action User
  publish_profile name avatar u = do
    after ← bump_user u (profile name avatar u)
    roles ← λ d. (ok (roles_of u.id d), d)
    modify (enqueue_user updated after roles)
    pure after

  unfoldable pub update_found : Option String → Option (Option String) → Option User → Action User
  update_found name avatar none = throw (not_found user_missing)
  update_found name avatar (some u) = do
    after ← transaction (publish_profile name avatar u)
    modify (λ d. record d { deleted_objects = d.deleted_objects ++ old_object avatar u.avatar_key })
    pure after

  unfoldable pub update_profile : ℕ → Option String → Option (Option String) → Action User
  update_profile user name avatar d = update_found name avatar (find (is_user user) d.users) d

unfoldable pub get_user : ℕ → Action User
get_user user = do
  u ← λ d. (ok (find (is_user user) d.users), d)
  or_throw u (not_found user_missing)

pub record SessionInfo : Type 0 where
  pub user_id : ℕ
  pub active_role : Role
  pub roles : List Role

unfoldable pub get_session_info : ℕ → ℕ → Action SessionInfo
get_session_info user session = do
  found ← λ d. (ok (find (is_live session) d.sessions), d)
  s ← or_throw found (not_found session_missing)
  roles ← λ d. (ok (roles_of user d), d)
  pure (record { user_id = user; active_role = s.active_role; roles = roles })

-- Each part is there for a user with the role; the amounts are the constant 0.
pub record FinancialSummary : Type 0 where
  pub buyer : Option ℕ
  pub seller : Option ℕ
  pub driver : Option ℕ

unfoldable pub get_financial_summary : ℕ → IdentityDb → FinancialSummary
get_financial_summary user d =
    let roles = roles_of user d in
    record {
      buyer = if includes Role.buyer roles then some 0 else none;
      seller = if includes Role.seller roles then some 0 else none;
      driver = if includes Role.driver roles then some 0 else none;
    }
