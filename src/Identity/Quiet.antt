-- ===== src/Identity/Quiet.antt =====
-- The calls that leave the sessions and the tokens: onboarding and the profile.
-- services/identity/src/modules/auth/auth.service.ts,
-- services/identity/src/modules/users/users.service.ts
use seapedia.Prelude.{
  append_nil, ℕ, ◌≡◌, refl, ◌∙◌, ap, inl, inr, Bool, true, false, suc, ltb, Option, none, some,
  List, [], ◌∷◌, String, find, update, Bool-cases, if◌then◌else◌,
}
use seapedia.Platform.Monad.{Env, transaction, max_int}
use seapedia.Platform.Rules.{OnOk, transaction_state, continue_state}
use seapedia.Identity.Schema.{
  Role, buyer, admin, same_role, updated, User, UserKind, IdentityDb, Config, Crypto,
}
use seapedia.Identity.Roles.{is_user, roles_of, insert_role}
use seapedia.Identity.Accounts.{enqueue_user, event_of_user}
use seapedia.Identity.Profile.{
  bump_user, insert_roles, clear_roles, unique_roles, onboarded, onboard_found, onboard, profile,
  publish_profile, update_found, update_profile,
}
use seapedia.Identity.Moves.{revocations, revocations-append, Auth, auth_of}

pub enqueue_user-auth :
    (kind : UserKind) (u : User) (roles : List Role) (d : IdentityDb)
    → auth_of (enqueue_user kind u roles d) ≡ auth_of d
unfolding enqueue_user
enqueue_user-auth kind u roles d =
    ap (λ r. record { sessions = d.sessions; tokens = d.refresh_tokens; revoked_ids = r })
      (revocations-append d.outbox (event_of_user kind u roles ∷ [])
        ∙ append_nil (revocations d.outbox))

-- The sessions, the tokens and the revocations are those of `a`.
abbrev pub Quiet : {A : Type 0} → Auth → A → IdentityDb → Type 0
Quiet a _ d = auth_of d ≡ a

insert_roles-auth :
    (env : Env) (draw user : ℕ) (roles : List Role) (d : IdentityDb)
    → auth_of (insert_roles env draw user roles d) ≡ auth_of d
insert_roles-auth env draw user [] d = refl
insert_roles-auth env draw user (r ∷ rs) d =
    insert_roles-auth env (suc draw) user rs
      (if same_role r admin then d else insert_role env draw user r d)
    ∙ skip (same_role r admin)
  where
    skip : (b : Bool) → auth_of (if b then d else insert_role env draw user r d) ≡ auth_of d
    skip true = refl
    skip false = refl

onboard_found-Quiet :
    (env : Env) (chosen : List Role) (o : Option User) (d : IdentityDb)
    → OnOk (Quiet (auth_of d)) (onboard_found env chosen o d)
unfolding onboard_found bump_user
onboard_found-Quiet env chosen none d = tt
onboard_found-Quiet env chosen (some u) d = elim (Bool-cases u.is_onboarded) [
  | inl e ↦ rw e tt
  | inr e ↦ rw e (elim (Bool-cases (ltb u.version max_int)) [
    | inr f ↦ rw f tt
    | inl f ↦ rw f (
        (enqueue_user-auth updated (onboarded env u) (roles_of u.id after) after
          ∙ insert_roles-auth env 0 u.id (unique_roles (buyer ∷ chosen)) (clear_roles env u.id d)))
  ])
]
  where
    before : IdentityDb
    before = insert_roles env 0 u.id (unique_roles (buyer ∷ chosen)) (clear_roles env u.id d)

    after : IdentityDb
    after = record before { users = update (is_user u.id) (onboarded env) before.users }

pub onboard-Quiet :
    (crypto : Crypto) (config : Config) (env : Env) (user session : ℕ) (chosen : List Role)
    (d : IdentityDb)
    → auth_of (onboard env crypto config user session chosen d).1 ≡ auth_of d
unfolding onboard
onboard-Quiet crypto config env user session chosen d =
    continue_state (Quiet (auth_of d) tt)
      (transaction (λ d'. onboard_found env chosen (find (is_user user) d'.users) d') d) _
      (transaction_state (Quiet (auth_of d) tt)
        (λ d'. onboard_found env chosen (find (is_user user) d'.users) d') d refl
        (onboard_found-Quiet env chosen (find (is_user user) d.users) d))
      (λ _ d' h. h)

publish_profile-Quiet :
    (env : Env) (name : Option String) (avatar : Option (Option String)) (u : User) (d : IdentityDb)
    → OnOk (Quiet (auth_of d)) (publish_profile env name avatar u d)
unfolding publish_profile bump_user
publish_profile-Quiet env name avatar u d = elim (Bool-cases (ltb u.version max_int)) [
  | inr f ↦ rw f tt
  | inl f ↦
      rw f (enqueue_user-auth updated (profile env name avatar u u) (roles_of u.id after) after)
]
  where
    after : IdentityDb
    after = record d { users = update (is_user u.id) (profile env name avatar u) d.users }

update_found-Quiet :
    (env : Env) (name : Option String) (avatar : Option (Option String)) (o : Option User)
    (d : IdentityDb)
    → auth_of (update_found env name avatar o d).1 ≡ auth_of d
unfolding update_found
update_found-Quiet env name avatar none d = refl
update_found-Quiet env name avatar (some u) d =
    continue_state (Quiet (auth_of d) tt) (transaction (publish_profile env name avatar u) d) _
      (transaction_state (Quiet (auth_of d) tt) (publish_profile env name avatar u) d refl
        (publish_profile-Quiet env name avatar u d))
      (λ _ d' h. h)

pub update_profile-Quiet :
    (env : Env) (user : ℕ) (name : Option String) (avatar : Option (Option String)) (d : IdentityDb)
    → auth_of (update_profile env user name avatar d).1 ≡ auth_of d
unfolding update_profile
update_profile-Quiet env user name avatar d =
    update_found-Quiet env name avatar (find (is_user user) d.users) d
