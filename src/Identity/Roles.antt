-- ===== src/Identity/Roles.antt =====
-- The roles of a user, in the order of their rows.
-- services/identity/src/modules/auth/auth.service.ts
use seapedia.Prelude.{
  ℕ, Bool, false, ◌||◌, List, [], ◌∷◌, ◌++◌, map, select, ◌==◌, Option, none, some,
}
use seapedia.Platform.Monad.{Env}
use seapedia.Identity.Schema.{Role, same_role, User, UserRole, IdentityDb}

abbrev pub is_user : ℕ → User → Bool
is_user id u = u.id == id

abbrev pub is_role_of : ℕ → UserRole → Bool
is_role_of user r = r.user_id == user

abbrev pub role_of : UserRole → Role
role_of r = r.role

unfoldable pub roles_of : ℕ → IdentityDb → List Role
roles_of user d = map role_of (select (is_role_of user) d.user_roles)

abbrev pub includes : Role → List Role → Bool
includes r [] = false
includes r (x ∷ xs) = same_role x r || includes r xs

-- `roles[0]`
abbrev pub first_role : List Role → Option Role
first_role [] = none
first_role (r ∷ _) = some r

abbrev pub new_role : Env → (draw : ℕ) → ℕ → Role → UserRole
new_role env draw user r = record {
  id = env.uuid draw;
  user_id = user;
  role = r;
  created_at = env.now;
}

abbrev pub insert_role : Env → (draw : ℕ) → ℕ → Role → IdentityDb → IdentityDb
insert_role env draw user r d = record d {
  user_roles = d.user_roles ++ (new_role env draw user r ∷ []);
}
