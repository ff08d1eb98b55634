-- ===== src/Identity/Schema.antt =====
-- The identity service's tables, one record a row, its errors and what it takes from libraries.
-- services/identity/src/db/schema/auth-schema.ts, services/identity/src/config.ts,
-- services/identity/src/modules/events/events.ts
use text.Mathlib.Text.{◌==◌}
use text.Mathlib.TextPositions.{eq_refl}
use seapedia.Prelude.{ℕ, ◌≡◌, Bool, true, false, String, Option, List, ◌≤◌}
use seapedia.Platform.Monad

abbrev pub same_text : String → String → Bool
same_text a b = a == b

pub same_text_refl : (a : String) → same_text a a ≡ true
same_text_refl a = eq_refl a

-- The values of the column `role`.
pub data Role : Type 0 where
  admin seller buyer driver : Role

abbrev pub same_role : Role → Role → Bool
same_role admin admin = true
same_role seller seller = true
same_role buyer buyer = true
same_role driver driver = true
same_role _ _ = false

pub record User : Type 0 where
  pub id : ℕ
  pub username : String
  pub email : String
  pub password_hash : String
  pub name : Option String
  pub is_onboarded : Bool
  pub avatar_key : Option String
  pub version : ℕ
  pub created_at : ℕ
  pub updated_at : ℕ

pub record UserRole : Type 0 where
  pub id : ℕ
  pub user_id : ℕ
  pub role : Role
  pub created_at : ℕ

pub record Session : Type 0 where
  pub id : ℕ
  pub user_id : ℕ
  pub active_role : Role
  pub created_at : ℕ
  pub last_used_at : ℕ
  pub revoked_at : Option ℕ

pub record RefreshToken : Type 0 where
  pub id : ℕ
  pub session_id : ℕ
  pub token_hash : ℕ
  pub expires_at : ℕ
  pub used_at : Option ℕ
  pub replaced_by : Option ℕ
  pub created_at : ℕ

pub data UserKind : Type 0 where
  registered updated : UserKind

-- The data of `identity.user.registered` and `identity.user.updated`.
pub record UserData : Type 0 where
  pub id : ℕ
  pub username : String
  pub display_name : String
  pub roles : List Role

pub data IdentityEvent : Type 0 where
  user_event : UserKind → UserData → (version : ℕ) → IdentityEvent
  session_revoked : (session : ℕ) → (expires_at : ℕ) → IdentityEvent

-- `deleted_objects` are the keys that the storage was asked to delete.
pub record IdentityDb : Type 0 where
  pub users : List User
  pub user_roles : List UserRole
  pub sessions : List Session
  pub refresh_tokens : List RefreshToken
  pub outbox : List IdentityEvent
  pub deleted_objects : List String

pub data IdentityReason : Type 0 where
  taken invalid_credentials session_expired session_missing user_missing already_onboarded :
      IdentityReason
  no_access : Role → IdentityReason

abbrev pub Action : Type 0 → Type 0
Action A = Monad.Action IdentityDb IdentityReason A

-- `config`: lifetimes in seconds and in days.
pub record Config : Type 0 where
  pub access_token_ttl_seconds : ℕ
  pub refresh_token_ttl_days : ℕ

-- Upper bound of an access token's lifetime, in seconds.
abbrev pub max_access_token_ttl : ℕ
max_access_token_ttl = 3600

-- What the schema of the configuration admits.
abbrev pub IsConfig : Config → Type 0
IsConfig c =
    (60 ≤ c.access_token_ttl_seconds)
    × (c.access_token_ttl_seconds ≤ max_access_token_ttl)
    × (1 ≤ c.refresh_token_ttl_days)
    × (c.refresh_token_ttl_days ≤ 90)

-- The hashes of Node and of Bun: sha256 of a token, bcrypt of a password with its salt.
pub record Crypto : Type 0 where
  pub hash_token : ℕ → ℕ
  pub hash_password : (salt : ℕ) → String → String
  pub verify_password : String → String → Bool

-- The claims of a signed access token; `issued_at` and `expires_at` are in seconds.
pub record AccessToken : Type 0 where
  pub user_id : ℕ
  pub session_id : ℕ
  pub roles : List Role
  pub active_role : Option Role
  pub issued_at : ℕ
  pub expires_at : ℕ

-- A refresh token and its lifetime in seconds.
pub record Refresh : Type 0 where
  pub token : ℕ
  pub ttl : ℕ

pub record IssuedTokens : Type 0 where
  pub access : AccessToken
  pub access_ttl : ℕ
  pub refresh : Option Refresh
