-- ===== src/Identity/Accounts.antt =====
-- Accounts: registration, login, the roles chosen at onboarding and the profile.
-- services/identity/src/modules/auth/auth.service.ts,
-- services/identity/src/modules/users/users.service.ts, services/identity/src/modules/events/events.ts
use seapedia.Prelude.{
  Bool, false, not, ◌||◌, Option, none, some, List, [], ◌∷◌, ◌++◌, ◌==◌, String, if◌then◌else◌,
  is_some, find,
}
use seapedia.Platform.Monad.{
  err, ok, conflict, validation, constraint, pure, transaction, modify, ◌>>=◌, ◌>>◌, Env,
}
use seapedia.Identity.Schema.{
  same_text, Role, buyer, User, Session, UserKind, registered, user_event, IdentityEvent,
  IdentityDb, taken, invalid_credentials, Action, Config, Crypto, IssuedTokens,
}
use seapedia.Identity.Roles.{roles_of, insert_role}
use seapedia.Identity.Sessions.{insert_session, new_refresh_token, access_for, issued}

abbrev pub or_else {ℓ} : {A : Type ℓ} → Option A → A → A
or_else none a = a
or_else (some a) _ = a

abbrev pub event_of_user : UserKind → User → List Role → IdentityEvent
event_of_user kind u roles =
    user_event kind
      (record {
        id = u.id;
        username = u.username;
        display_name = or_else u.name u.username;
        roles = roles;
      })
      u.version

-- `user.name ?? user.username`, and the current roles.
unfoldable pub enqueue_user : UserKind → User → List Role → IdentityDb → IdentityDb
enqueue_user kind u roles d = record d { outbox = d.outbox ++ (event_of_user kind u roles ∷ []) }

abbrev pub is_named : String → String → User → Bool
is_named username email u = same_text u.username username || same_text u.email email

-- `input.name || null`: an empty text counts as none.
abbrev pub non_empty : Option String → Option String
non_empty none = none
non_empty (some s) = if same_text s "" then none else some s

pub record Registration : Type 0 where
  pub username : String
  pub email : String
  pub password : String
  pub name : Option String

pub record SignedIn : Type 0 where
  pub user : User
  pub session : Session
  pub roles : List Role
  pub tokens : IssuedTokens

module _ (crypto : Crypto) (config : Config) (env : Env) where
  abbrev pub new_user : Registration → User
  new_user input = record {
    id = env.uuid 0;
    username = input.username;
    email = input.email;
    password_hash = crypto.hash_password env.random input.password;
    name = non_empty input.name;
    is_onboarded = false;
    avatar_key = none;
    version = 1;
    created_at = env.now;
    updated_at = env.now;
  }

  abbrev pub clashes_with : User → User → Bool
  clashes_with n u = u.id == n.id || is_named n.username n.email u

  -- The primary key and the unique columns of `users`.
  unfoldable pub insert_user : User → Action User
  insert_user u d =
      if is_some (find (clashes_with u) d.users)
      then (err constraint, d)
      else (ok u, record d { users = d.users ++ (u ∷ []) })

  -- The session and its tokens; the draws of its uuids are 2 and 3.
  unfoldable pub sign_in : User → Role → List Role → Action SignedIn
  sign_in u first roles = do
    session ← insert_session env 2 u.id first
    (_, refresh) ← new_refresh_token crypto config env 3 session.id
    pure (record {
      user = u;
      session = session;
      roles = roles;
      tokens =
          issued crypto config env (access_for crypto config env u.id session.id roles (some first))
            (some refresh);
    })

  -- Between the session and its refresh token the code enqueues the event: the order of writes to
  -- two tables is not seen.
  unfoldable pub register_user : Registration → Action SignedIn
  register_user input = do
    u ← insert_user (new_user input)
    modify (insert_role env 1 u.id buyer)
    modify (enqueue_user registered u (buyer ∷ []))
    sign_in u buyer (buyer ∷ [])

  unfoldable pub register : Registration → Action SignedIn
  register input d =
      if is_some (find (is_named input.username input.email) d.users)
      then (err (conflict taken), d)
      else transaction (register_user input) d

  -- The roles; a user without one becomes a buyer.
  unfoldable pub sign_in_as : User → List Role → Action SignedIn
  sign_in_as u [] = do modify (insert_role env 1 u.id buyer); sign_in u buyer (buyer ∷ [])
  sign_in_as u (r ∷ rs) = sign_in u r (r ∷ rs)

  unfoldable pub login_found : String → Option User → Action SignedIn
  login_found password none d = (err (validation invalid_credentials), d)
  login_found password (some u) d =
      if not (crypto.verify_password password u.password_hash)
      then (err (validation invalid_credentials), d)
      else transaction (λ d. sign_in_as u (roles_of u.id d) d) d

  unfoldable pub login : String → String → Action SignedIn
  login name password d = login_found password (find (is_named name name) d.users) d
