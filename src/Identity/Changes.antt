-- ===== src/Identity/Changes.antt =====
-- Onboarding and the profile write a user and tell it in the same transaction.
-- services/identity/src/modules/auth/auth.service.ts,
-- services/identity/src/modules/users/users.service.ts
use mathlib.Core.Path.{subst}
use seapedia.Prelude.{
  ℕ, suc, ◌≡◌, refl, sym, ap, ◌∙◌, arith, inl, inr, Bool, true, false, Option, none, some, List, [],
  ◌∷◌, ◌++◌, String, ltb, find, find_test, delete, update, Bool-cases, ◌==◌, eq_of_==, ==-refl,
  if◌then◌else◌,
}
use seapedia.Platform.Monad.{Env, transaction, max_int}
use seapedia.Platform.Rules.{OnOk, transaction_state, continue_state}
use seapedia.Identity.Schema.{
  Role, buyer, admin, same_role, updated, User, UserRole, UserKind, IdentityDb, Config, Crypto,
}
use seapedia.Identity.Roles.{is_user, is_role_of, roles_of, includes, new_role, insert_role}
use seapedia.Identity.Accounts.{enqueue_user, event_of_user}
use seapedia.Identity.Profile.{
  drop_role, unique_roles, is_plain_role_of, bump_user, insert_roles, clear_roles, onboarded,
  onboard_found, onboard, profile, publish_profile, update_found, update_profile,
}
use seapedia.Identity.Chronicle.{user_log, user_log-append}
use seapedia.Identity.Folk.{
  has_role, Folk, folk_of, roles_in, event_of, IsTruthful, FolkMove, unchanged, changed,
}
use seapedia.Replicas.Users.{UserEvent}
use seapedia.Identity.Truth.{roles_in-append, other_row}

abbrev MovesTo : {A : Type 0} → Folk → A → IdentityDb → Type 0
MovesTo a _ d = FolkMove a (folk_of d)

-- A published user, with the current roles.
enqueue_folk :
    (kind : UserKind) (u : User) (d : IdentityDb)
    → folk_of (enqueue_user kind u (roles_of u.id d) d) ≡ record {
      users = d.users;
      rows = d.user_roles;
      log = user_log d.outbox ++ (event_of u d.user_roles ∷ []);
    }
unfolding enqueue_user roles_of
enqueue_folk kind u d =
    ap (λ l. record { users = d.users; rows = d.user_roles; log = l })
      (user_log-append d.outbox (event_of_user kind u (roles_of u.id d) ∷ []))

-- Roles of another user, under the writes of onboarding.
cleared_others :
    (user id : ℕ) (rows : List UserRole)
    → (user == id) ≡ false
    → roles_in id (delete (is_plain_role_of user) rows) ≡ roles_in id rows
cleared_others user id [] n = refl
cleared_others user id (r ∷ rows) n = elim (Bool-cases (is_role_of id r)) [
  | inl t ↦
      let mine : is_plain_role_of user r ≡ false = ground arith in
      rw (mine, t) (ap (λ l. r.role ∷ l) (cleared_others user id rows n))
  | inr t ↦ elim (Bool-cases (is_plain_role_of user r)) [
    | inl k ↦ rw (k, t) (cleared_others user id rows n)
    | inr k ↦ rw (k, t) (cleared_others user id rows n)
  ]
]

includes-append :
    (r : Role) (xs ys : List Role) → includes r xs ≡ true → includes r (xs ++ ys) ≡ true
includes-append r [] ys h = cc
includes-append r (x ∷ xs) ys h = elim (Bool-cases (same_role x r)) [
  | inl t ↦ rw t
  | inr t ↦ rw t (includes-append r xs ys (rw t at h))
]

includes_last :
    (r : Role) (xs : List Role) → same_role r r ≡ true → includes r (xs ++ (r ∷ [])) ≡ true
includes_last r [] e = rw e
includes_last r (x ∷ xs) e = elim (Bool-cases (same_role x r)) [
  | inl t ↦ rw t
  | inr t ↦ rw t (includes_last r xs e)
]

includes-has_role : (r : Role) (xs : List Role) → includes r xs ≡ true → has_role xs ≡ true
includes-has_role r [] e = cc
includes-has_role r (x ∷ xs) e = refl

found_there :
    (user : ℕ) (d : IdentityDb) (u : User)
    → find (is_user user) d.users ≡ some u
    → find (is_user u.id) d.users ≡ some u
found_there user d u e =
    let own : u.id ≡ user = eq_of_== u.id user (find_test (is_user user) d.users e) in
    subst (λ k. find (is_user k) d.users ≡ some u) (sym own) e

module _ (env : Env) where
  inserted_others :
      (draw user id : ℕ) (roles : List Role) (d : IdentityDb)
      → (user == id) ≡ false
      → roles_in id (insert_roles env draw user roles d).user_roles ≡ roles_in id d.user_roles
  inserted_others draw user id [] d n = refl
  inserted_others draw user id (r ∷ rs) d n =
      inserted_others (suc draw) user id rs
        (if same_role r admin then d else insert_role env draw user r d) n
      ∙ either (same_role r admin)
    where
      either :
          (b : Bool)
          → roles_in id (if b then d else insert_role env draw user r d).user_roles
            ≡ roles_in id d.user_roles
      either true = refl
      either false = other_row id d.user_roles (new_role env draw user r) n

  inserted_keeps :
      (draw user : ℕ) (roles : List Role) (d : IdentityDb)
      → includes buyer (roles_in user d.user_roles) ≡ true
      → includes buyer (roles_in user (insert_roles env draw user roles d).user_roles) ≡ true
  inserted_keeps draw user [] d h = h
  inserted_keeps draw user (r ∷ rs) d h =
      inserted_keeps (suc draw) user rs
        (if same_role r admin then d else insert_role env draw user r d)
        (either (same_role r admin))
    where
      either :
          (b : Bool)
          → includes buyer
              (roles_in user (if b then d else insert_role env draw user r d).user_roles)
            ≡ true
      either true = h
      either false = rw (roles_in-append user d.user_roles (new_role env draw user r)) (
          includes-append buyer (roles_in user d.user_roles)
            (roles_in user (new_role env draw user r ∷ [])) h)

  -- The first role that onboarding inserts is the buyer's.
  onboarded_buys :
      (user : ℕ) (chosen : List Role) (d : IdentityDb)
      → includes buyer
          (roles_in user (insert_roles env 0 user (unique_roles (buyer ∷ chosen)) d).user_roles)
        ≡ true
  onboarded_buys user chosen d =
      inserted_keeps 1 user (drop_role buyer (unique_roles chosen)) (insert_role env 0 user buyer d)
        (rw (roles_in-append user d.user_roles (new_role env 0 user buyer), ==-refl user)
          (includes_last buyer (roles_in user d.user_roles) refl))

  inserted_rest :
      (draw user : ℕ) (roles : List Role) (d : IdentityDb)
      → ((insert_roles env draw user roles d).users ≡ d.users)
        × ((insert_roles env draw user roles d).outbox ≡ d.outbox)
  inserted_rest draw user [] d = (refl, refl)
  inserted_rest draw user (r ∷ rs) d =
      let (a, b) =
        inserted_rest (suc draw) user rs
          (if same_role r admin then d else insert_role env draw user r d) in
      (a ∙ (either (same_role r admin)).0, b ∙ (either (same_role r admin)).1)
    where
      either :
          (b : Bool)
          → ((if b then d else insert_role env draw user r d).users ≡ d.users)
            × ((if b then d else insert_role env draw user r d).outbox ≡ d.outbox)
      either true = (refl, refl)
      either false = (refl, refl)

  onboard_found-Changes :
      (chosen : List Role) (o : Option User) (d : IdentityDb)
      → ((u : User) → o ≡ some u → find (is_user u.id) d.users ≡ some u)
      → OnOk (MovesTo (folk_of d)) (onboard_found env chosen o d)
  unfolding onboard_found bump_user
  onboard_found-Changes chosen none d there = tt
  onboard_found-Changes chosen (some u) d there = elim (Bool-cases u.is_onboarded) [
    | inl e ↦ rw e tt
    | inr e ↦ rw e (elim (Bool-cases (ltb u.version max_int)) [
      | inr f ↦ rw f tt
      | inl f ↦ rw f (
          changed u (onboarded env) before.user_roles (there u refl) (λ _. refl) (omega arith)
            (λ id n.
              inserted_others 0 u.id id (unique_roles (buyer ∷ chosen)) (clear_roles env u.id d) n
              ∙ cleared_others u.id id d.user_roles n)
            (includes-has_role buyer (roles_in u.id before.user_roles)
              (onboarded_buys u.id chosen (clear_roles env u.id d)))
            (enqueue_folk updated (onboarded env u) after
              ∙ ap
                  (λ us. record {
                    users = update (is_user u.id) (onboarded env) us;
                    rows = before.user_roles;
                    log = user_log before.outbox ++ told;
                  })
                  (inserted_rest 0 u.id (unique_roles (buyer ∷ chosen)) (clear_roles env u.id d)).0
              ∙ ap
                  (λ o. record {
                    users = update (is_user u.id) (onboarded env) d.users;
                    rows = before.user_roles;
                    log = user_log o ++ told;
                  })
                  (inserted_rest 0 u.id (unique_roles (buyer ∷ chosen))
                    (clear_roles env u.id d)).1))
    ])
  ]
    where
      before : IdentityDb
      before = insert_roles env 0 u.id (unique_roles (buyer ∷ chosen)) (clear_roles env u.id d)

      after : IdentityDb
      after = record before { users = update (is_user u.id) (onboarded env) before.users }

      told : List UserEvent
      told = event_of (onboarded env u) before.user_roles ∷ []

  pub onboard-Changes :
      (crypto : Crypto) (config : Config) (user session : ℕ) (chosen : List Role) (d : IdentityDb)
      → FolkMove (folk_of d) (folk_of (onboard env crypto config user session chosen d).1)
  unfolding onboard
  onboard-Changes crypto config user session chosen d =
      continue_state (MovesTo (folk_of d) tt)
        (transaction (λ d'. onboard_found env chosen (find (is_user user) d'.users) d') d) _
        (transaction_state (MovesTo (folk_of d) tt)
          (λ d'. onboard_found env chosen (find (is_user user) d'.users) d') d (unchanged refl)
          (onboard_found-Changes chosen (find (is_user user) d.users) d (found_there user d)))
        (λ _ d' h. h)

  publish_profile-Changes :
      (name : Option String) (avatar : Option (Option String)) (u : User) (d : IdentityDb)
      → find (is_user u.id) d.users ≡ some u
      → has_role (roles_in u.id d.user_roles) ≡ true
      → OnOk (MovesTo (folk_of d)) (publish_profile env name avatar u d)
  unfolding publish_profile bump_user
  publish_profile-Changes name avatar u d there buys = elim (Bool-cases (ltb u.version max_int)) [
    | inr f ↦ rw f tt
    | inl f ↦ rw f (
        changed u (profile env name avatar u) d.user_roles there (λ _. refl) (omega arith)
          (λ _ _. refl) buys
          (enqueue_folk updated (profile env name avatar u u)
            (record d { users = update (is_user u.id) (profile env name avatar u) d.users })))
  ]

  update_found-Changes :
      (name : Option String) (avatar : Option (Option String)) (o : Option User) (d : IdentityDb)
      → IsTruthful (folk_of d)
      → ((u : User) → o ≡ some u → find (is_user u.id) d.users ≡ some u)
      → FolkMove (folk_of d) (folk_of (update_found env name avatar o d).1)
  unfolding update_found
  update_found-Changes name avatar none d h there = unchanged refl
  update_found-Changes name avatar (some u) d h there =
      continue_state (MovesTo (folk_of d) tt) (transaction (publish_profile env name avatar u) d) _
        (transaction_state (MovesTo (folk_of d) tt) (publish_profile env name avatar u) d
          (unchanged refl)
          (publish_profile-Changes name avatar u d (there u refl)
            (h.with_role u.id u (there u refl))))
        (λ _ d' k. k)

  pub update_profile-Changes :
      (user : ℕ) (name : Option String) (avatar : Option (Option String)) (d : IdentityDb)
      → IsTruthful (folk_of d)
      → FolkMove (folk_of d) (folk_of (update_profile env user name avatar d).1)
  unfolding update_profile
  update_profile-Changes user name avatar d h =
      update_found-Changes name avatar (find (is_user user) d.users) d h (found_there user d)
