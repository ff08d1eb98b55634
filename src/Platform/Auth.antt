-- ===== src/Platform/Auth.antt =====
-- Who makes a request: the middleware on access tokens and service tokens.
-- packages/platform/src/auth/tokens.ts, packages/platform/src/auth/middleware.ts
use text.Mathlib.Text.{◌==◌}
use seapedia.Prelude.{
  ℕ, ◌≡◌, ◌<◌, ◌/◌, Bool, true, false, ◌||◌, Option, none, some, List, [], ◌∷◌, String,
  if◌then◌else◌,
}
use seapedia.Platform.Denylist.{Entry, is_revoked}

-- `expires_at` in seconds.
pub record UserIdentity : Type 0 where
  pub user_id : ℕ
  pub session_id : ℕ
  pub roles : List String
  pub active_role : String
  pub expires_at : ℕ

pub record ServiceIdentity : Type 0 where
  pub client : String
  pub scopes : List String

-- What a middleware does: the next handler runs, or an HTTPException with its status.
pub data Passage : Type 0 where
  pass : Passage
  unauthorized forbidden : Passage

-- The cookie, else the header's bearer token.
abbrev pub token_of : Option String → Option String → Option String
token_of none bearer = bearer
token_of (some cookie) _ = some cookie

abbrev pub unless_revoked : UserIdentity → Bool × List Entry → Option UserIdentity × List Entry
unless_revoked u (true, es) = (none, es)
unless_revoked u (false, es) = (some u, es)

-- Verification is the signature check of `jose`, at a time in milliseconds.
module _ (verify : (now : ℕ) → String → Option UserIdentity) where
  abbrev pub admit : (now : ℕ) → Option UserIdentity → List Entry → Option UserIdentity × List Entry
  admit now none es = (none, es)
  admit now (some u) es = unless_revoked u (is_revoked now u.session_id es)

  abbrev pub admit_token : (now : ℕ) → Option String → List Entry → Option UserIdentity × List Entry
  admit_token now none es = (none, es)
  admit_token now (some token) es = admit now (verify now token) es

  -- The user that the request is left with, and the denylist.
  unfoldable pub authenticate :
      (now : ℕ) (cookie bearer : Option String) → List Entry → Option UserIdentity × List Entry
  authenticate now cookie bearer es = admit_token now (token_of cookie bearer) es

  -- What `jwtVerify` does with `exp`: a token that it accepts is not over, in whole seconds.
  abbrev pub HonoursExpiry : Type 0
  HonoursExpiry =
      (now : ℕ) (token : String) (u : UserIdentity)
      → verify now token ≡ some u
      → now / 1000 < u.expires_at

unfoldable pub require_session : Option UserIdentity → Passage
require_session none = unauthorized
require_session (some _) = pass

unfoldable pub require_role : String → Option UserIdentity → Passage
require_role role none = forbidden
require_role role (some u) = if u.active_role == role then pass else forbidden

abbrev pub has_scope : String → List String → Bool
has_scope scope [] = false
has_scope scope (s ∷ ss) = s == scope || has_scope scope ss

unfoldable pub require_service_scope : String → Option ServiceIdentity → Passage
require_service_scope scope none = unauthorized
require_service_scope scope (some caller) =
    if has_scope scope caller.scopes then pass else forbidden
