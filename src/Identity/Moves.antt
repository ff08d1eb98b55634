-- ===== src/Identity/Moves.antt =====
-- What a call may do to the sessions and their tokens: the specification that the calls refine.
-- services/identity/src/modules/auth/auth.service.ts
use seapedia.Prelude.{
  ℕ, ◌≡◌, refl, ap, Bool, false, not, ◌||◌, none, some, List, [], ◌∷◌, ◌++◌, is_some, find, update,
  ◌==◌, if◌then◌else◌,
}
use seapedia.Platform.Monad.{Env}
use seapedia.Identity.Schema.{
  Role, Session, RefreshToken, IdentityEvent, user_event, session_revoked, IdentityDb,
}
use seapedia.Identity.Sessions.{
  is_session, is_live, is_token, has_hash, last_used, revoked, used, selected,
}

-- The events `identity.session.revoked`: the session, and until when its tokens are denied.
abbrev pub revocations : List IdentityEvent → List (ℕ × ℕ)
revocations [] = []
revocations (user_event _ _ _ ∷ es) = revocations es
revocations (session_revoked session expires_at ∷ es) = (session, expires_at) ∷ revocations es

pub revocations-append :
    (es fs : List IdentityEvent) → revocations (es ++ fs) ≡ revocations es ++ revocations fs
revocations-append [] fs = refl
revocations-append (user_event _ _ _ ∷ es) fs = revocations-append es fs
revocations-append (session_revoked session expires_at ∷ es) fs =
    ap (λ r. (session, expires_at) ∷ r) (revocations-append es fs)

pub record Auth : Type 0 where
  pub sessions : List Session
  pub tokens : List RefreshToken
  pub revoked_ids : List (ℕ × ℕ)

abbrev pub auth_of : IdentityDb → Auth
auth_of d = record {
  sessions = d.sessions;
  tokens = d.refresh_tokens;
  revoked_ids = revocations d.outbox;
}

-- A row of `refresh_tokens` may be inserted: neither its key nor its hash is there.
abbrev pub is_same_token : RefreshToken → RefreshToken → Bool
is_same_token t u = u.id == t.id || u.token_hash == t.token_hash

abbrev pub append_token : List RefreshToken → RefreshToken → List RefreshToken
append_token ts t = ts ++ (t ∷ [])

abbrev pub is_unused : ℕ → RefreshToken → Bool
is_unused session t = if t.session_id == session then not (is_some t.used_at) else false

pub data Move (a b : Auth) : Type 0 where
  idle : b ≡ a → Move a b
  -- A session with its first token.
  opened :
      (s : Session) (t : RefreshToken)
      → find (is_session s.id) a.sessions ≡ none
      → find (is_same_token t) a.tokens ≡ none
      → s.revoked_at ≡ none
      → t.session_id ≡ s.id
      → t.used_at ≡ none
      → b ≡ record a { sessions = a.sessions ++ (s ∷ []); tokens = append_token a.tokens t }
      → Move a b
  -- A token is used up, and replaced by the next one.
  turned :
      (env : Env) (hash : ℕ) (t next : RefreshToken) (s : Session)
      → find (has_hash hash) a.tokens ≡ some t
      → find (is_session t.session_id) a.sessions ≡ some s
      → s.revoked_at ≡ none
      → t.used_at ≡ none
      → find (is_same_token next) a.tokens ≡ none
      → next.session_id ≡ t.session_id
      → next.used_at ≡ none
      → b ≡ record a {
        sessions = update (is_session t.session_id) (last_used env) a.sessions;
        tokens = update (is_token t.id) (used env next.id) (append_token a.tokens next);
      }
      → Move a b
  -- A session ends, and the other services are told.
  ended :
      (env : Env) (s : Session) (id until : ℕ)
      → find (is_live id) a.sessions ≡ some s
      → b ≡ record a {
        sessions = update (is_live id) (revoked env) a.sessions;
        revoked_ids = a.revoked_ids ++ ((id, until) ∷ []);
      }
      → Move a b
  switched :
      (env : Env) (id : ℕ) (role : Role)
      → b ≡ record a { sessions = update (is_live id) (selected env role) a.sessions }
      → Move a b

-- Any number of moves.
pub data Moves : Auth → Auth → Type 0 where
  done : {a : Auth} → Moves a a
  then_move : {a b c : Auth} → Move a b → Moves b c → Moves a c
