-- ===== src/Identity/Clients.antt =====
-- Tokens for the calls of one service to another. services/identity/src/modules/oauth
use seapedia.Prelude.{
  ℕ, Bool, false, not, ◌&&◌, ◌||◌, none, some, List, [], ◌∷◌, ◌++◌, String, find, select, update,
  if◌then◌else◌, is_some, length, ◌==◌,
}
use seapedia.Identity.Schema.{same_text}
use seapedia.Platform.Monad.{Env}

-- A row of `service_clients`.
pub record ServiceClient : Type 0 where
  pub client_id : String
  pub secret_hash : String
  pub updated_at : ℕ

abbrev pub is_client : String → ServiceClient → Bool
is_client id c = same_text c.client_id id

-- A client of the environment: its id and its secret.
abbrev pub Client : Type 0
Client = String × String

abbrev pub is_listed : List Client → ServiceClient → Bool
is_listed [] c = false
is_listed ((id, _) ∷ cs) c = same_text c.client_id id || is_listed cs c

-- `sha256` of Node.
module _ (sha256 : String → String) where
  abbrev pub rehashed : Env → String → ServiceClient → ServiceClient
  rehashed env secret c = record c { secret_hash = sha256 secret; updated_at = env.now }

  -- An insert, or an update of the row with the key.
  abbrev pub upsert_client : Env → Client → List ServiceClient → List ServiceClient
  upsert_client env (id, secret) rows =
      if is_some (find (is_client id) rows)
      then update (is_client id) (rehashed env secret) rows
      else rows
        ++ (record { client_id = id; secret_hash = sha256 secret; updated_at = env.now } ∷ [])

  abbrev pub upsert_clients : Env → List Client → List ServiceClient → List ServiceClient
  upsert_clients env [] rows = rows
  upsert_clients env (c ∷ cs) rows = upsert_clients env cs (upsert_client env c rows)

  -- Rows of clients that the environment does not list go; with none listed, all go.
  unfoldable pub sync_clients : Env → List Client → List ServiceClient → List ServiceClient
  sync_clients env clients rows = upsert_clients env clients (select (is_listed clients) rows)

  unfoldable pub authenticate_client : String → String → List ServiceClient → Bool
  authenticate_client id secret rows = elim (find (is_client id) rows) [
    | none ↦ false
    | some c ↦ same_text c.secret_hash (sha256 secret)
  ]

-- SERVICE_POLICY: the scopes that a client may have for an audience.
unfoldable pub service_policy : String → String → List String
service_policy client audience =
    if (same_text client "catalog") && (same_text audience "search")
    then "search:query" ∷ []
    else if (same_text client "search") && (same_text audience "catalog")
    then "catalog:export" ∷ []
    else if (same_text client "seed") && (same_text audience "search")
    then "search:reindex" ∷ []
    else []

abbrev pub contains : List String → String → Bool
contains [] s = false
contains (x ∷ xs) s = same_text x s || contains xs s

pub data TokenAnswer : Type 0 where
  invalid_client invalid_scope : TokenAnswer
  granted : List String → TokenAnswer

-- `granted.length !== (requested.length || granted.length)`
abbrev pub answer_scopes : (requested scopes : List String) → TokenAnswer
answer_scopes requested [] = invalid_scope
answer_scopes [] (s ∷ ss) = granted (s ∷ ss)
answer_scopes (r ∷ rs) (s ∷ ss) =
    if length (s ∷ ss) == length (r ∷ rs) then granted (s ∷ ss) else invalid_scope

abbrev pub wanted : (requested allowed : List String) → List String
wanted [] allowed = allowed
wanted (r ∷ rs) allowed = select (contains allowed) (r ∷ rs)

-- `POST /token`: `requested` are the words of the scope.
unfoldable pub token :
    (String → String)
    → (id secret audience : String) → (requested : List String) → List ServiceClient
    → TokenAnswer
token sha256 id secret audience requested rows =
    if not (authenticate_client sha256 id secret rows)
    then invalid_client
    else answer_scopes requested (wanted requested (service_policy id audience))
