-- ===== src/Identity/Logins.antt =====
-- Who can log in after a registration. services/identity/src/modules/auth/auth.service.ts
use seapedia.Prelude.{
  ℕ, ◌≡◌, refl, inl, inr, true, false, none, some, List, [], ◌∷◌, ◌++◌, String, is_some, find,
  find-append, find-append_hit, Bool-cases, Option-cases, ==-refl,
}
use seapedia.Platform.Monad.{Env, Result, ok, err, validation, transaction}
use seapedia.Platform.Rules.{OnOk, OnOk-ok, OnOk-imp, OnOk-transaction}
use seapedia.Identity.Schema.{
  same_text_refl, Role, buyer, registered, User, IdentityDb, IdentityReason, invalid_credentials,
  Config, Crypto,
}
use seapedia.Identity.Roles.{roles_of, new_role, insert_role}
use seapedia.Identity.Sessions.{is_session, insert_session, clashes, new_refresh_token}
use seapedia.Identity.Truth.{roles_in-append}
use seapedia.Identity.Accounts.{
  Registration, SignedIn, is_named, clashes_with, enqueue_user, new_user, insert_user, sign_in,
  register_user, register, sign_in_as, login_found, login,
}

module _ (crypto : Crypto) (config : Config) where
  -- Where the users and the roles end up.
  abbrev Joined : Env → Registration → IdentityDb → SignedIn → IdentityDb → Type 0
  Joined env input d x d' =
      (x.user ≡ new_user crypto config env input)
      × (d'.users ≡ d.users ++ (new_user crypto config env input ∷ []))
      × (d'.user_roles ≡ d.user_roles ++ (new_role env 1 (env.uuid 0) buyer ∷ []))

  sign_in-Joined :
      (env : Env) (u : User) (first : Role) (roles : List Role) (d : IdentityDb)
      → OnOk
          (λ (x : SignedIn) d'.
            (x.user ≡ u)
            × (x.roles ≡ roles)
            × (d'.users ≡ d.users)
            × (d'.user_roles ≡ d.user_roles))
          (sign_in crypto config env u first roles d)
  unfolding sign_in insert_session new_refresh_token
  sign_in-Joined env u first roles d =
      elim (Option-cases (find (is_session (env.uuid 2)) d.sessions)) [
        | inr (s, f) ↦ rw f tt
        | inl f ↦ rw f (elim (Option-cases (find (clashes crypto config env 3) d.refresh_tokens)) [
          | inr (t, g) ↦ rw g tt
          | inl g ↦ rw g (refl, refl, refl, refl)
        ])
      ]

  register_user-Joined :
      (env : Env) (input : Registration) (d : IdentityDb)
      → OnOk (Joined env input d) (register_user crypto config env input d)
  unfolding register_user insert_user enqueue_user
  register_user-Joined env input d =
      elim (Option-cases (find (clashes_with crypto config env u) d.users)) [
        | inr (v, f) ↦ rw f tt
        | inl f ↦ rw f (
            OnOk-imp
              (λ (x : SignedIn) d'.
                (x.user ≡ u)
                × (x.roles ≡ buyer ∷ [])
                × (d'.users ≡ after.users)
                × (d'.user_roles ≡ after.user_roles))
              (Joined env input d) (sign_in crypto config env u buyer (buyer ∷ []) after)
              (λ _ _ k. (k.0, k.2, k.3)) (sign_in-Joined env u buyer (buyer ∷ []) after))
      ]
    where
      u : User
      u = new_user crypto config env input

      after : IdentityDb
      after =
          enqueue_user registered u (buyer ∷ [])
            (insert_role env 1 u.id buyer (record d { users = d.users ++ (u ∷ []) }))

  register-Joined :
      (env : Env) (input : Registration) (d : IdentityDb)
      → OnOk (Joined env input d) (register crypto config env input d)
  unfolding register
  register-Joined env input d =
      elim (Bool-cases (is_some (find (is_named input.username input.email) d.users))) [
        | inl e ↦ rw e tt
        | inr e ↦ rw e (
            OnOk-transaction (Joined env input d) (register_user crypto config env input) d
              (register_user-Joined env input d))
      ]

  -- Where a registration succeeded under a username that another account answers to, as its e-mail address,
  -- and its password is not the other account's: the new user cannot log in with it, as the login finds the
  -- other account first.
  pub shadowed_login :
      (env later : Env) (input : Registration) (x : SignedIn) (other : User) (d : IdentityDb)
      → (register crypto config env input d).0 ≡ ok x
      → find (is_named input.username input.username) d.users ≡ some other
      → crypto.verify_password input.password other.password_hash ≡ false
      → (login crypto config later input.username input.password
          (register crypto config env input d).1).0
        ≡ err (validation invalid_credentials)
  unfolding login login_found
  shadowed_login env later input x other d answer answers_to wrong =
      let (_, users, _) =
        OnOk-ok (Joined env input d) (register crypto config env input d) x
          (register-Joined env input d) answer in
      rw (
        users,
        find-append_hit (is_named input.username input.username) d.users
            (new_user crypto config env input ∷ []) answers_to,
        wrong,
      )

  -- The user is signed in, as a buyer only.
  abbrev pub Welcomes : User → Result IdentityReason SignedIn → Type 0
  Welcomes u (ok y) = (y.user ≡ u) × (y.roles ≡ buyer ∷ [])
  Welcomes u (err _) = ⊥

  sign_in-Welcomes :
      (env : Env) (u : User) (d : IdentityDb)
      → roles_of u.id d ≡ buyer ∷ []
      → find (is_session (env.uuid 2)) d.sessions ≡ none
      → find (clashes crypto config env 3) d.refresh_tokens ≡ none
      → Welcomes u (transaction (λ d'. sign_in_as crypto config env u (roles_of u.id d') d') d).0
  unfolding sign_in_as sign_in insert_session new_refresh_token
  sign_in-Welcomes env u d roles free free_token = rw (roles, free, free_token) (refl, refl)

  buyer_only :
      (env : Env) (user : ℕ) (d d' : IdentityDb)
      → roles_of user d ≡ []
      → d'.user_roles ≡ d.user_roles ++ (new_role env 1 user buyer ∷ [])
      → roles_of user d' ≡ buyer ∷ []
  unfolding roles_of
  buyer_only env user d d' no_roles rows =
      rw (
        rows,
        roles_in-append user d.user_roles (new_role env 1 user buyer),
        no_roles,
        ==-refl user,
      )

  -- Where passwords verify against their own hash, a user who registered under a name that no account
  -- answers to can log in with it and the password, on another device and as a buyer, if the uuids and the
  -- token that the login draws are new.
  pub register-login :
      (env later : Env) (input : Registration) (x : SignedIn) (d : IdentityDb)
      → ((salt : ℕ) (p : String) → crypto.verify_password p (crypto.hash_password salt p) ≡ true)
      → (register crypto config env input d).0 ≡ ok x
      → find (is_named input.username input.username) d.users ≡ none
      → roles_of (env.uuid 0) d ≡ []
      → find (is_session (later.uuid 2)) (register crypto config env input d).1.sessions ≡ none
      → find (clashes crypto config later 3) (register crypto config env input d).1.refresh_tokens
        ≡ none
      → Welcomes x.user
          (login crypto config later input.username input.password
            (register crypto config env input d).1).0
  unfolding login login_found
  register-login env later input x d verifies answer unknown no_roles free free_token =
      let after = (register crypto config env input d).1 in
      let u = new_user crypto config env input in
      let (user, users, rows) =
        OnOk-ok (Joined env input d) (register crypto config env input d) x
          (register-Joined env input d) answer in
      let found : find (is_named input.username input.username) after.users ≡ some u = rw (
        users,
        find-append (is_named input.username input.username) d.users u unknown,
        same_text_refl input.username,
      ) in
      rw (found, verifies env.random input.password, user)
        (sign_in-Welcomes later u after (buyer_only env (env.uuid 0) d after no_roles rows) free
          free_token)
