-- ===== src/Identity/Keeps.antt =====
-- Every call of the service keeps the log of its users' events true.
-- services/identity/src/modules/auth/auth.service.ts,
-- services/identity/src/modules/users/users.service.ts
use seapedia.Prelude.{
  append_nil, ℕ, ◌≡◌, refl, ap, ◌∙◌, ◌||◌, arith, inl, inr, true, Option, none, some, List, [], ◌∷◌,
  ◌++◌, String, leb, is_some, find, find-none, find-some, Bool-cases, Option-cases, ==-refl,
}
use seapedia.Platform.Monad.{Env}
use seapedia.Platform.Rules.{OnOk, OnOk-imp, transaction_state}
use seapedia.Identity.Schema.{
  Role, buyer, session_revoked, registered, User, Session, RefreshToken, IdentityDb, Config, Crypto,
}
use seapedia.Identity.Roles.{is_user, roles_of, includes, new_role, insert_role}
use seapedia.Identity.Sessions.{
  is_session, is_live, insert_session, clashes, new_refresh_token, revoke_session, access_horizon,
  presented_row, rotate, refresh_found, refresh, session_of, revoke_found, logout, select_role,
}
use seapedia.Identity.Accounts.{
  is_named, clashes_with, enqueue_user, event_of_user, sign_in, sign_in_as, insert_user, new_user,
  Registration, register_user, register, login_found, login,
}
use seapedia.Identity.Chronicle.{names, user_log, user_log-append}
use seapedia.Identity.Folk.{has_role, Folk, folk_of, IsTruthful, FolkMove, unchanged, joined}

-- The users, their roles and their log are as in `a`.
abbrev Still : {A : Type 0} → Folk → A → IdentityDb → Type 0
Still a _ d = folk_of d ≡ a

abbrev MovesTo : {A : Type 0} → Folk → A → IdentityDb → Type 0
MovesTo a _ d = FolkMove a (folk_of d)

revoke_session-Still :
    (env : Env) (id : ℕ) (d : IdentityDb) → folk_of (revoke_session env id d) ≡ folk_of d
unfolding revoke_session
revoke_session-Still env id d = elim (Option-cases (find (is_live id) d.sessions)) [
  | inl e ↦ rw (e, revoke_session)
  | inr (s, e) ↦
      rw (e, revoke_session)
        (ap (λ l. record { users = d.users; rows = d.user_roles; log = l })
          (user_log-append d.outbox (session_revoked id (access_horizon env) ∷ [])
            ∙ append_nil (user_log d.outbox)))
]

module _ (crypto : Crypto) (config : Config) (env : Env) where
  sign_in-Still :
      (u : User) (first : Role) (roles : List Role) (d : IdentityDb)
      → OnOk (Still (folk_of d)) (sign_in crypto config env u first roles d)
  unfolding sign_in insert_session new_refresh_token
  sign_in-Still u first roles d = elim (Option-cases (find (is_session (env.uuid 2)) d.sessions)) [
    | inr (s, f) ↦ rw f tt
    | inl f ↦ rw f (elim (Option-cases (find (clashes crypto config env 3) d.refresh_tokens)) [
      | inr (t, g) ↦ rw g tt
      | inl g ↦ rw g
    ])
  ]

  rotate-Still :
      (t : RefreshToken) (s : Session) (d : IdentityDb)
      → OnOk (Still (folk_of d)) (rotate crypto config env t s d)
  unfolding rotate new_refresh_token
  rotate-Still t s d = elim (Option-cases (find (clashes crypto config env 0) d.refresh_tokens)) [
    | inr (u, f) ↦ rw f tt
    | inl f ↦ rw f
  ]

  refresh_found-Still :
      (o : Option (RefreshToken × Session)) (d : IdentityDb)
      → OnOk (Still (folk_of d)) (refresh_found crypto config env o d)
  unfolding refresh_found
  refresh_found-Still none d = tt
  refresh_found-Still (some (t, s)) d =
      elim (Bool-cases (is_some s.revoked_at || leb t.expires_at env.now)) [
        | inl over ↦ rw over tt
        | inr going ↦ rw going (elim (Bool-cases (is_some t.used_at)) [
          | inl again ↦ rw again (revoke_session-Still env t.session_id d)
          | inr fresh ↦ rw fresh (rotate-Still t s d)
        ])
      ]

  pub refresh-Still :
      (token : ℕ) (d : IdentityDb) → folk_of (refresh crypto config env token d).1 ≡ folk_of d
  unfolding refresh
  refresh-Still token d =
      transaction_state (Still (folk_of d) tt)
        (λ d'. refresh_found crypto config env (presented_row crypto config env token d') d') d refl
        (refresh_found-Still (presented_row crypto config env token d) d)

  pub logout-Still :
      (session token : Option ℕ) (d : IdentityDb)
      → folk_of (logout crypto config env session token d) ≡ folk_of d
  unfolding logout
  logout-Still session token d = go (session_of crypto config env d session token)
    where
      go : (o : Option ℕ) → folk_of (revoke_found crypto config env o d) ≡ folk_of d
      go none = refl
      go (some id) = revoke_session-Still env id d

  pub select_role-Still :
      (user session : ℕ) (role : Role) (d : IdentityDb)
      → folk_of (select_role crypto config env user session role d).1 ≡ folk_of d
  unfolding select_role
  select_role-Still user session role d = elim (Bool-cases (includes role (roles_of user d))) [
    | inr e ↦ rw e
    | inl e ↦ rw e (elim (Option-cases (find (is_live session) d.sessions)) [
      | inl f ↦ rw f
      | inr (s, f) ↦ rw f
    ])
  ]

  -- A user who is there has a role, so the fallback of the login is never taken.
  sign_in_as-Still :
      (u : User) (roles : List Role) (d : IdentityDb)
      → has_role roles ≡ true
      → OnOk (Still (folk_of d)) (sign_in_as crypto config env u roles d)
  unfolding sign_in_as
  sign_in_as-Still u [] d e = cc
  sign_in_as-Still u (r ∷ rs) d e = sign_in-Still u r (r ∷ rs) d

  login_found-Still :
      (password : String) (o : Option User) (d : IdentityDb)
      → ((u : User) → o ≡ some u → has_role (roles_of u.id d) ≡ true)
      → folk_of (login_found crypto config env password o d).1 ≡ folk_of d
  unfolding login_found
  login_found-Still password none d has = refl
  login_found-Still password (some u) d has =
      elim (Bool-cases (crypto.verify_password password u.password_hash)) [
        | inr e ↦ rw e
        | inl e ↦ rw e (
            transaction_state (Still (folk_of d) tt)
              (λ d'. sign_in_as crypto config env u (roles_of u.id d') d') d refl
              (sign_in_as-Still u (roles_of u.id d) d (has u refl)))
      ]

  pub login-Still :
      (name password : String) (d : IdentityDb)
      → IsTruthful (folk_of d)
      → folk_of (login crypto config env name password d).1 ≡ folk_of d
  unfolding login roles_of
  login-Still name password d h =
      login_found-Still password (find (is_named name name) d.users) d λ u e.
        let (v, f) = find-some (is_named name name) (is_user u.id) d.users e (==-refl u.id) in
        h.with_role u.id v f

  register_user-Joins :
      (input : Registration) (d : IdentityDb)
      → OnOk (MovesTo (folk_of d)) (register_user crypto config env input d)
  unfolding register_user insert_user enqueue_user
  register_user-Joins input d =
      elim (Option-cases (find (clashes_with crypto config env u) d.users)) [
        | inr (v, f) ↦ rw f tt
        | inl f ↦ rw f (
            OnOk-imp (Still (folk_of after)) (MovesTo (folk_of d))
              (sign_in crypto config env u buyer (buyer ∷ []) after)
              (λ _ d' e. rw e (
                joined u (new_role env 1 u.id buyer)
                  (find-none (is_user u.id) (clashes_with crypto config env u) d.users
                    (λ x n. ground arith) f)
                  refl refl
                  (ap (λ l. record { users = after.users; rows = after.user_roles; log = l })
                    told)))
              (sign_in-Still u buyer (buyer ∷ []) after))
      ]
    where
      u : User
      u = new_user crypto config env input

      after : IdentityDb
      after =
          enqueue_user registered u (buyer ∷ [])
            (insert_role env 1 u.id buyer (record d { users = d.users ++ (u ∷ []) }))

      told :
          user_log after.outbox
          ≡ user_log d.outbox
            ++ (record { id = u.id; roles = names (buyer ∷ []); version = 1 } ∷ [])
      told = user_log-append d.outbox (event_of_user registered u (buyer ∷ []) ∷ [])

  pub register-Joins :
      (input : Registration) (d : IdentityDb)
      → FolkMove (folk_of d) (folk_of (register crypto config env input d).1)
  unfolding register
  register-Joins input d =
      elim (Bool-cases (is_some (find (is_named input.username input.email) d.users))) [
        | inl e ↦ rw e (unchanged refl)
        | inr e ↦ rw e (
            transaction_state (MovesTo (folk_of d) tt) (register_user crypto config env input) d
              (unchanged refl) (register_user-Joins input d))
      ]
