-- ===== src/Identity/Denied.antt =====
-- The end of a session reaches its access tokens: identity's event against a service's denylist.
-- services/identity/src/modules/auth/auth.service.ts, packages/platform/src/auth
use seapedia.Prelude.{
  ℕ, ◌≡◌, refl, ◌*◌, ◌≤◌, ◌<◌, arith, Bool, true, false, Option, none, some, List, String, All,
}
use seapedia.Platform.Monad.{Env}
use seapedia.Platform.Denylist.{
  Entry, DenylistCall, IsBefore, denylist_calls, revoke, is_revoked, revoked_until,
}
use seapedia.Platform.Auth.{UserIdentity, HonoursExpiry, unless_revoked, authenticate}
use seapedia.Identity.Schema.{Role, Config, IsConfig, Crypto}
use seapedia.Identity.Sessions.{access_for, access_horizon}

-- An access token that a session got before it was revoked is refused by every service that has handled
-- the revocation, at any time after: it is over, or the denylist has the session. This holds for each
-- configured lifetime, and whatever the service's denylist went through, if what came was before the
-- request and no event shortened the denial.
pub revoked_token_refused :
    (crypto : Crypto) (config : Config) (issue end : Env) (user : ℕ) (roles : List Role)
    (active : Option Role) (verify : ℕ → String → Option UserIdentity) (token : String)
    (u : UserIdentity) (handled now : ℕ) (calls : List (ℕ × DenylistCall)) (es : List Entry)
    → IsConfig config
    → HonoursExpiry verify
    → issue.now ≤ end.now
    → verify now token ≡ some u
    → u.expires_at ≡ (access_for crypto config issue user u.session_id roles active).expires_at
    → handled ≤ now
    → All (IsBefore now u.session_id (access_horizon end)) calls
    → (authenticate verify now
        (some token)
        none
        (denylist_calls calls (revoke handled u.session_id (access_horizon end) es))).0
      ≡ none
unfolding authenticate
revoked_token_refused crypto config issue end user roles active verify token u handled now calls es
      (low, high, _, _) honours order accepted until past all =
    let valid = honours now token u accepted in
    let early : now < access_horizon end * 1000 = omega arith in
    let denied =
      revoked_until now handled u.session_id (access_horizon end) calls es early past all in
    rw accepted (
      refused
        (is_revoked now u.session_id
          (denylist_calls calls (revoke handled u.session_id (access_horizon end) es)))
        denied)
  where
    refused : (r : Bool × List Entry) → r.0 ≡ true → (unless_revoked u r).0 ≡ none
    refused (true, _) _ = refl
    refused (false, _) e = cc
