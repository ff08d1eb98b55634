-- ===== src/Tests/Accounts.antt =====
-- Accounts and sessions, at one user with a phone.
use mathlib.Core.List.{Permᴰ}
use seapedia.Prelude.{
  find, ◌++◌, ℕ, ◌≡◌, refl, arith, true, false, Option, none, some, [], ◌∷◌, String, ◌+◌, ◌*◌, ◌/◌,
  ltb, if◌then◌else◌,
}
use seapedia.Platform.Monad.{Env, err, validation}
use seapedia.Platform.Denylist.{revokes, asks, revoke, is_revoked, denylist_calls, revoked_until}
use seapedia.Platform.Auth.{UserIdentity, authenticate}
use seapedia.Identity.Schema.{
  same_text, same_text_refl, buyer, User, Session, RefreshToken, registered, user_event, IdentityDb,
  invalid_credentials, Crypto, Config,
}
use seapedia.Identity.Sessions.{
  presented_row, rotate, new_refresh_token, insert_session, refresh_found, refresh, logout,
  access_horizon,
}
use seapedia.Identity.Accounts.{
  Registration, new_user, insert_user, register_user, enqueue_user, sign_in, register, login,
}
use seapedia.Identity.Profile.{onboard, onboard_found, bump_user, update_profile}
use seapedia.Identity.Roles.{is_user, roles_of}
use seapedia.Identity.Calls.{refreshes, logouts, onboards, call, call_all}
use seapedia.Identity.Moves.{Moves, auth_of}
use seapedia.Identity.Refines.{call_all-Moves}
use seapedia.Identity.Rotation.{IsRotated, one_unused_token}
use seapedia.Identity.Ended.{IsRefused, reuse_ends_session, logout_ends_session}
use seapedia.Identity.Spent.{IsEmptyHanded, token_used_once}
use seapedia.Identity.Announced.{IsAnnounced, revocations-IsAnnounced}
use seapedia.Identity.Denied.{revoked_token_refused}
use seapedia.Identity.Folk.{folk_of, truth, IsTruthful}
use seapedia.Identity.Replicated.{replicas_agree, call_all-IsTruthful}
use seapedia.Identity.Logins.{register-login, shadowed_login, Welcomes}
use seapedia.Identity.Avatars.{foreign_avatar_deleted}
use seapedia.Identity.Clients.{ServiceClient, sync_clients, authenticate_client, token}
use seapedia.Identity.Sync.{IsGrant, sync_authenticates, token-IsGrant}
use seapedia.Replicas.Users.{UserEvent, known, replay}
use seapedia.Tests.Shop.{shop}

abbrev crypto : Crypto
crypto = record {
  hash_token = λ t. t + 1000;
  hash_password = λ _ p. p;
  verify_password = same_text;
}

abbrev config : Config
config = record { access_token_ttl_seconds = 600; refresh_token_ttl_days = 7 }

abbrev at : ℕ → Env
at n = record { now = n; uuid = λ k. 100 * n + k; random = n }

abbrev ana : User
ana = record {
  id = 1;
  username = "ana";
  email = "ana@mail";
  password_hash = "secret";
  name = none;
  is_onboarded = false;
  avatar_key = some "users/a";
  version = 1;
  created_at = 0;
  updated_at = 0;
}

abbrev phone : Session
phone = record {
  id = 7;
  user_id = 1;
  active_role = buyer;
  created_at = 0;
  last_used_at = 0;
  revoked_at = none;
}

abbrev first : RefreshToken
first = record {
  id = 8;
  session_id = 7;
  token_hash = 1001;
  expires_at = 604_800_000;
  used_at = some 1;
  replaced_by = some 9;
  created_at = 0;
}

abbrev second : RefreshToken
second = record first { id = 9; token_hash = 1002; used_at = none; replaced_by = none }

abbrev family : IdentityDb
family = record {
  users = ana ∷ [];
  user_roles = record { id = 2; user_id = 1; role = buyer; created_at = 0 } ∷ [];
  sessions = phone ∷ [];
  refresh_tokens = first ∷ second ∷ [];
  outbox =
      user_event registered
        (record { id = 1; username = "ana"; display_name = "ana"; roles = buyer ∷ [] }) 1
      ∷ [];
  deleted_objects = [];
}

reuse_ends_session_example :
    IsRefused crypto config
      (at 9)
      7
      (call_all crypto config ((at 6, refreshes 2) ∷ []) (refresh crypto config (at 5) 1 family).1)
unfolding presented_row refresh refresh_found
reuse_ends_session_example =
    reuse_ends_session crypto config (at 5) (at 9) 1 ((at 6, refreshes 2) ∷ []) first phone family
      refl refl

logout_ends_session_example : IsRefused crypto config (at 9) 7 (
    call_all crypto config
      ((at 6, refreshes 2) ∷ [])
      (logout crypto config (at 5) none (some 2) family))
logout_ends_session_example =
    logout_ends_session crypto config (at 5) (at 9) none (some 2) 7 ((at 6, refreshes 2) ∷ []) phone
      family refl refl

call_all-Moves_example :
    Moves (auth_of family) (auth_of (call_all crypto config ((at 6, refreshes 2) ∷ []) family))
call_all-Moves_example = call_all-Moves crypto config ((at 6, refreshes 2) ∷ []) family

token_used_once_example :
    IsEmptyHanded crypto config
      (refresh crypto config (at 9) 2 (
        call_all crypto config
          ((at 6, logouts (some 7) none) ∷ [])
          (refresh crypto config (at 5) 2 family).1)).0
unfolding refresh refresh_found presented_row rotate new_refresh_token roles_of
token_used_once_example =
    token_used_once crypto config (at 5) (at 9) 2 ((at 6, logouts (some 7) none) ∷ []) _ family refl

family-IsRotated : IsRotated (auth_of family)
family-IsRotated = record {
  one = λ session. ground arith;
  homed = (omega arith, (omega arith, tt));
}

one_unused_token_example :
    IsRotated
      (auth_of (call_all crypto config ((at 6, refreshes 2) ∷ (at 7, refreshes 2) ∷ []) family))
one_unused_token_example =
    one_unused_token crypto config ((at 6, refreshes 2) ∷ (at 7, refreshes 2) ∷ []) family
      family-IsRotated

family-IsAnnounced : IsAnnounced (auth_of family)
family-IsAnnounced = record { once = λ id. ground arith; told = λ id. ground arith }

revocations-IsAnnounced_example :
    IsAnnounced
      (auth_of (call_all crypto config ((at 6, refreshes 1) ∷ (at 7, refreshes 1) ∷ []) family))
revocations-IsAnnounced_example =
    revocations-IsAnnounced crypto config ((at 6, refreshes 1) ∷ (at 7, refreshes 1) ∷ []) family
      family-IsAnnounced

family-IsTruthful : IsTruthful (folk_of family)
family-IsTruthful = record {
  known = λ id. ground arith;
  told = (refl, tt);
  strangers = λ id e. ground arith;
  with_role = λ id u e. ground arith;
}

call_all-IsTruthful_example :
    IsTruthful (folk_of (call_all crypto config ((at 6, onboards 1 7 []) ∷ []) family))
call_all-IsTruthful_example =
    call_all-IsTruthful crypto config ((at 6, onboards 1 7 []) ∷ []) family family-IsTruthful

-- What identity tells of Ana.
abbrev told : ℕ → Env × UserEvent
told version = (at 10, record { id = 1; roles = "buyer" ∷ []; version = version })

replicas_agree_example :
    known 1 (replay (told 2 ∷ told 1 ∷ []) (record shop { user_refs = [] }))
    ≡ truth 1 (folk_of (call_all crypto config ((at 6, onboards 1 7 []) ∷ []) family))
unfolding call onboard onboard_found bump_user enqueue_user roles_of
replicas_agree_example =
    replicas_agree crypto config ((at 6, onboards 1 7 []) ∷ []) family (told 1 ∷ told 2 ∷ [])
      (told 2 ∷ told 1 ∷ []) 1 (record shop { user_refs = [] }) family-IsTruthful refl
      (Permᴰ.swap refl refl) refl

abbrev verify : ℕ → String → Option UserIdentity
verify now _ = if ltb (now / 1000) 660 then some identity else none
  where
    identity : UserIdentity
    identity = record {
      user_id = 1;
      session_id = 7;
      roles = "buyer" ∷ [];
      active_role = "buyer";
      expires_at = 660;
    }

revoked_token_refused_example :
    (authenticate verify 500_000 (some "token") none (
      denylist_calls
        ((400_000, asks 7) ∷ (450_000, revokes 8 4000) ∷ [])
        (revoke 300_000 7 (access_horizon (at 200_000)) []))).0
    ≡ none
revoked_token_refused_example =
    revoked_token_refused crypto config (at 60_000) (at 200_000) 1 (buyer ∷ []) (some buyer) verify
      "token" _ 300_000 500_000 ((400_000, asks 7) ∷ (450_000, revokes 8 4000) ∷ []) []
      (omega arith, omega arith, omega arith, omega arith) (λ now token u e. ground arith)
      (omega arith) refl refl (omega arith) (omega arith, ((omega arith, λ e. omega arith), tt))

revoked_until_example :
    (is_revoked 500_000 7 (denylist_calls ((400_000, asks 7) ∷ []) (revoke 300_000 7 3800 []))).0
    ≡ true
revoked_until_example =
    revoked_until 500_000 300_000 7 3800 ((400_000, asks 7) ∷ []) [] (omega arith) (omega arith)
      (omega arith, tt)

abbrev bayu : Registration
bayu = record { username = "bayu"; email = "bayu@mail"; password = "rahasia"; name = none }

register-login_example :
    Welcomes crypto config
      (new_user crypto config (at 5) bayu)
      (login crypto config (at 6) "bayu" "rahasia" (register crypto config (at 5) bayu family).1).0
unfolding register register_user insert_user enqueue_user sign_in insert_session new_refresh_token
    roles_of
register-login_example =
    register-login crypto config (at 5) (at 6) bayu _ family (λ _ p. same_text_refl p) refl refl
      refl refl refl

-- Ana's address as a username.
abbrev mallory : Registration
mallory = record {
  username = "ana@mail";
  email = "mallory@mail";
  password = "rahasia";
  name = none;
}

shadowed_login_example :
    (login crypto config
      (at 6)
      "ana@mail"
      "rahasia"
      (register crypto config (at 5) mallory family).1).0
    ≡ err (validation invalid_credentials)
unfolding register register_user insert_user enqueue_user sign_in insert_session new_refresh_token
shadowed_login_example =
    shadowed_login crypto config (at 5) (at 6) mallory _ ana family refl refl refl

abbrev eve : User
eve = record ana { id = 3; username = "eve"; email = "eve@mail"; avatar_key = none }

abbrev guests : IdentityDb
guests = record family { users = ana ∷ eve ∷ [] }

foreign_avatar_deleted_example :
    let named = (update_profile (at 5) 3 none (some (some "users/a")) guests).1 in
    let after = (update_profile (at 6) 3 none (some none) named).1 in
    (find (is_user 1) after.users ≡ some ana)
    × (after.deleted_objects ≡ named.deleted_objects ++ ("users/a" ∷ []))
foreign_avatar_deleted_example =
    foreign_avatar_deleted (at 5) (at 6) eve ana "users/a" guests refl refl refl refl refl
      (omega arith)

sync_authenticates_example :
    authenticate_client
      (λ s. s)
      "catalog"
      "old"
      (sync_clients (λ s. s) (at 5) (("catalog", "new") ∷ []) [])
    ≡ false
sync_authenticates_example =
    sync_authenticates (λ s. s) (at 5) (("catalog", "new") ∷ []) [] "catalog" "old"

abbrev catalog_client : ServiceClient
catalog_client = record { client_id = "catalog"; secret_hash = "new"; updated_at = 0 }

token-IsGrant_example :
    IsGrant "catalog" "search"
      ("search:query" ∷ [])
      (token (λ s. s) "catalog" "new" "search" ("search:query" ∷ []) (catalog_client ∷ []))
token-IsGrant_example =
    token-IsGrant (λ s. s) "catalog" "new" "search" ("search:query" ∷ []) (catalog_client ∷ [])
