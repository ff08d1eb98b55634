-- ===== src/Identity/Sessions.antt =====
-- Sessions: one for each device, with access tokens and refresh tokens that rotate.
-- services/identity/src/modules/auth/auth.service.ts, services/identity/src/lib/tokens.ts
use seapedia.Prelude.{
  ℕ, ◌+◌, ◌*◌, ◌/◌, Bool, not, ◌&&◌, ◌||◌, Option, none, some, List, [], ◌∷◌, ◌++◌, leb, ◌==◌,
  if◌then◌else◌, is_some, find, update,
}
use mathlib.Core.Option
use seapedia.Platform.Monad.{
  err, ok, unauthorized, forbidden, not_found, constraint, pure, transaction, modify, ◌>>=◌, ◌>>◌,
  Env,
}
use seapedia.Identity.Schema.{
  Role, Session, RefreshToken, session_revoked, IdentityDb, session_expired, session_missing,
  no_access, Action, Config, max_access_token_ttl, Crypto, AccessToken, Refresh, IssuedTokens,
}
use seapedia.Identity.Roles.{roles_of, includes, first_role}

abbrev pub seconds : ℕ → ℕ
seconds ms = ms / 1000

abbrev pub is_session : ℕ → Session → Bool
is_session id s = s.id == id

abbrev pub is_token : ℕ → RefreshToken → Bool
is_token id t = t.id == id

abbrev pub has_hash : ℕ → RefreshToken → Bool
has_hash h t = t.token_hash == h

abbrev pub is_live : ℕ → Session → Bool
is_live id s = s.id == id && not (is_some s.revoked_at)

abbrev pub new_session : Env → (draw : ℕ) → ℕ → Role → Session
new_session env draw user role = record {
  id = env.uuid draw;
  user_id = user;
  active_role = role;
  created_at = env.now;
  last_used_at = env.now;
  revoked_at = none;
}

-- The primary key of `sessions`.
unfoldable pub insert_session : Env → (draw : ℕ) → ℕ → Role → Action Session
insert_session env draw user role d =
    if is_some (find (is_session (env.uuid draw)) d.sessions) then (err constraint, d) else (
      ok (new_session env draw user role),
      record d { sessions = d.sessions ++ (new_session env draw user role ∷ []) },
    )

abbrev pub last_used : Env → Session → Session
last_used env s = record s { last_used_at = env.now }

abbrev pub revoked : Env → Session → Session
revoked env s = record s { revoked_at = some env.now }

abbrev pub used : Env → (replaced_by : ℕ) → RefreshToken → RefreshToken
used env next t = record t { used_at = some env.now; replaced_by = some next }

abbrev pub selected : Env → Role → Session → Session
selected env role s = record s { active_role = role; last_used_at = env.now }

abbrev pub access_horizon : Env → ℕ
access_horizon env = seconds env.now + max_access_token_ttl

unfoldable pub revoke_session : Env → ℕ → IdentityDb → IdentityDb
revoke_session env id d = elim (find (is_live id) d.sessions) [
  | none ↦ d
  | some _ ↦ record d {
    sessions = update (is_live id) (revoked env) d.sessions;
    outbox = d.outbox ++ (session_revoked id (access_horizon env) ∷ []);
  }
]

pub data Refreshed : Type 0 where
  reused : Refreshed
  rotated : IssuedTokens → Refreshed

-- The token of this hash, with its session: the inner join.
abbrev pub with_session : IdentityDb → Option RefreshToken → Option (RefreshToken × Session)
with_session d none = none
with_session d (some t) = Option.map (λ s. (t, s)) (find (is_session t.session_id) d.sessions)

-- `roles.includes(activeRole) ? activeRole : roles[0]`
abbrev pub active_of : Role → List Role → Option Role
active_of r roles = if includes r roles then some r else first_role roles

module _ (crypto : Crypto) (config : Config) (env : Env) where
  -- A signed token: the claims of it, since only identity has the key.
  abbrev pub access_for : ℕ → ℕ → List Role → Option Role → AccessToken
  access_for user session roles active = record {
    user_id = user;
    session_id = session;
    roles = roles;
    active_role = active;
    issued_at = seconds env.now;
    expires_at = seconds env.now + config.access_token_ttl_seconds;
  }

  abbrev pub issued : AccessToken → Option Refresh → IssuedTokens
  issued access refresh = record {
    access = access;
    access_ttl = config.access_token_ttl_seconds;
    refresh = refresh;
  }

  abbrev pub refresh_row : (draw : ℕ) → ℕ → RefreshToken
  refresh_row draw session = record {
    id = env.uuid draw;
    session_id = session;
    token_hash = crypto.hash_token env.random;
    expires_at = env.now + config.refresh_token_ttl_days * 86_400_000;
    used_at = none;
    replaced_by = none;
    created_at = env.now;
  }

  abbrev pub refresh_of : Refresh
  refresh_of = record { token = env.random; ttl = config.refresh_token_ttl_days * 86_400 }

  -- The primary key of `refresh_tokens`, and the unique column `token_hash`.
  abbrev pub clashes : (draw : ℕ) → RefreshToken → Bool
  clashes draw t = t.id == env.uuid draw || t.token_hash == crypto.hash_token env.random

  unfoldable pub new_refresh_token : (draw : ℕ) → ℕ → Action (ℕ × Refresh)
  new_refresh_token draw session d =
      if is_some (find (clashes draw) d.refresh_tokens) then (err constraint, d) else (
        ok (env.uuid draw, refresh_of),
        record d { refresh_tokens = d.refresh_tokens ++ (refresh_row draw session ∷ []) },
      )

  unfoldable pub presented_row : ℕ → IdentityDb → Option (RefreshToken × Session)
  presented_row token d =
      with_session d (find (has_hash (crypto.hash_token token)) d.refresh_tokens)

  unfoldable pub rotate : RefreshToken → Session → Action Refreshed
  rotate t s = do
    modify
        (λ d. record d { sessions = update (is_session t.session_id) (last_used env) d.sessions })
    roles ← λ d. (ok (roles_of s.user_id d), d)
    (next, refresh) ← new_refresh_token 0 t.session_id
    modify
        (λ d. record d { refresh_tokens = update (is_token t.id) (used env next) d.refresh_tokens })
    pure (
        rotated (
          issued (access_for s.user_id t.session_id roles (active_of s.active_role roles))
            (some refresh)))

  unfoldable pub refresh_found : Option (RefreshToken × Session) → Action Refreshed
  refresh_found none d = (err (unauthorized session_expired), d)
  refresh_found (some (t, s)) d =
      if is_some s.revoked_at || leb t.expires_at env.now
      then (err (unauthorized session_expired), d)
      else if is_some t.used_at
      then (ok reused, revoke_session env t.session_id d)
      else rotate t s d

  unfoldable pub refresh : ℕ → Action Refreshed
  refresh token = transaction (λ d. refresh_found (presented_row token d) d)

  abbrev pub session_by_token : IdentityDb → Option ℕ → Option ℕ
  session_by_token d none = none
  session_by_token d (some token) =
      Option.map (λ (t : RefreshToken). t.session_id)
        (find (has_hash (crypto.hash_token token)) d.refresh_tokens)

  abbrev pub session_of : IdentityDb → Option ℕ → Option ℕ → Option ℕ
  session_of d (some session) _ = some session
  session_of d none token = session_by_token d token

  abbrev pub revoke_found : Option ℕ → IdentityDb → IdentityDb
  revoke_found none d = d
  revoke_found (some session) d = revoke_session env session d

  unfoldable pub logout : Option ℕ → Option ℕ → IdentityDb → IdentityDb
  logout session token d = revoke_found (session_of d session token) d

  unfoldable pub select_role : ℕ → ℕ → Role → Action AccessToken
  select_role user session role d =
      if not (includes role (roles_of user d))
      then (err (forbidden (no_access role)), d)
      else if not (is_some (find (is_live session) d.sessions))
      then (err (not_found session_missing), d)
      else (
        ok (access_for user session (roles_of user d) (some role)),
        record d { sessions = update (is_live session) (selected env role) d.sessions },
      )
