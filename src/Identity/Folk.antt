-- ===== src/Identity/Folk.antt =====
-- Users, their roles and the log of their events, and that the log tells the current roles.
-- services/identity/src/modules/auth/auth.service.ts
use mathlib.Core.Option
use seapedia.Prelude.{
  Bool, ℕ, ◌≡◌, suc, true, false, none, some, List, [], ◌∷◌, ◌++◌, map, find, select, update, All,
  ◌==◌,
}
use seapedia.Identity.Schema.{Role, buyer, User, UserRole, IdentityDb}
use seapedia.Identity.Roles.{is_user, is_role_of, role_of}
use seapedia.Replicas.Users.{UserEvent}
use seapedia.Identity.Chronicle.{names, user_log, Known, learn_log, IsTold}

pub record Folk : Type 0 where
  pub users : List User
  pub rows : List UserRole
  pub log : List UserEvent

abbrev pub folk_of : IdentityDb → Folk
folk_of d = record { users = d.users; rows = d.user_roles; log = user_log d.outbox }

abbrev pub roles_in : ℕ → List UserRole → List Role
roles_in id rows = map role_of (select (is_role_of id) rows)

abbrev pub has_role : List Role → Bool
has_role [] = false
has_role (_ ∷ _) = true

-- What is true of a user now: the roles and the version.
abbrev pub truth : ℕ → Folk → Known
truth id f =
    Option.map (λ (u : User). (names (roles_in id f.rows), u.version)) (find (is_user id) f.users)

-- The log tells the truth of every user, and one thing at each version; a user has a role, and nobody
-- else has one.
pub record IsTruthful (f : Folk) : Type 0 where
  pub known : (id : ℕ) → learn_log id f.log none ≡ truth id f
  pub told : All (IsTold f.log) f.log
  pub strangers : (id : ℕ) → find (is_user id) f.users ≡ none → roles_in id f.rows ≡ []
  pub with_role :
      (id : ℕ) (u : User)
      → find (is_user id) f.users ≡ some u
      → has_role (roles_in id f.rows) ≡ true

abbrev pub event_of : User → List UserRole → UserEvent
event_of u rows = record { id = u.id; roles = names (roles_in u.id rows); version = u.version }

pub data FolkMove (a b : Folk) : Type 0 where
  unchanged : b ≡ a → FolkMove a b
  -- A new user, who is a buyer.
  joined :
      (u : User) (row : UserRole)
      → find (is_user u.id) a.users ≡ none
      → row.user_id ≡ u.id
      → row.role ≡ buyer
      → b ≡ record {
        users = a.users ++ (u ∷ []);
        rows = a.rows ++ (row ∷ []);
        log = a.log ++ (record { id = u.id; roles = names (buyer ∷ []); version = u.version } ∷ []);
      }
      → FolkMove a b
  -- A user's row is written, and perhaps the roles; the event has the new facts.
  changed :
      (u : User) (f : User → User) (rows : List UserRole)
      → find (is_user u.id) a.users ≡ some u
      → ((x : User) → (f x).id ≡ x.id)
      → (f u).version ≡ suc u.version
      → ((id : ℕ) → (u.id == id) ≡ false → roles_in id rows ≡ roles_in id a.rows)
      → has_role (roles_in u.id rows) ≡ true
      → b ≡ record {
        users = update (is_user u.id) f a.users;
        rows = rows;
        log =
            a.log
            ++ (record { id = u.id; roles = names (roles_in u.id rows); version = (f u).version }
                ∷ []);
      }
      → FolkMove a b
