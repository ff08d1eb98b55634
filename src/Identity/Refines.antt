-- ===== src/Identity/Refines.antt =====
-- Every call of the service makes one of the moves, or none.
-- services/identity/src/modules/auth/auth.service.ts
use seapedia.Prelude.{
  ℕ, ◌≡◌, refl, ap, arith, inl, inr, false, ◌||◌, leb, Option, none, some, List, [], ◌∷◌, ◌++◌,
  String, is_some, find, update, Option-cases, Bool-cases,
}
use seapedia.Platform.Monad.{Env}
use seapedia.Platform.Rules.{OnOk, transaction_state}
use seapedia.Identity.Schema.{
  Role, buyer, session_revoked, registered, User, Session, RefreshToken, IdentityDb, Config, Crypto,
}
use seapedia.Identity.Roles.{includes, roles_of, insert_role}
use seapedia.Identity.Sessions.{
  is_session, is_live, revoked, insert_session, new_session, clashes, new_refresh_token,
  refresh_row, revoke_session, presented_row, has_hash, rotate, refresh_found, refresh, logout,
  revoke_found, session_of, select_role, access_horizon,
}
use seapedia.Identity.Accounts.{
  clashes_with, is_named, enqueue_user, sign_in, sign_in_as, insert_user, new_user, Registration,
  register_user, register, login_found, login,
}
use seapedia.Identity.Calls.{
  IdentityCall, registers, logins, refreshes, logouts, selects, onboards, profiles, call, call_all,
}
use seapedia.Identity.Quiet.{enqueue_user-auth, onboard-Quiet, update_profile-Quiet}
use seapedia.Identity.Moves.{
  revocations-append, Auth, auth_of, Move, idle, opened, turned, ended, switched, Moves, done,
  then_move,
}

module _ (crypto : Crypto) (config : Config) (env : Env) where
  -- From a database that shares the tables with `a`.
  abbrev MovesFrom : {A : Type 0} → Auth → A → IdentityDb → Type 0
  MovesFrom a _ d = Move a (auth_of d)

  sign_in-Move :
      (u : User) (first : Role) (roles : List Role) (a : Auth) (d : IdentityDb)
      → auth_of d ≡ a
      → OnOk (MovesFrom a) (sign_in crypto config env u first roles d)
  unfolding sign_in insert_session new_refresh_token
  sign_in-Move u first roles a d e =
      rw (← e) (elim (Option-cases (find (is_session (env.uuid 2)) d.sessions)) [
        | inr (s, f) ↦ rw f tt
        | inl f ↦ rw f (elim (Option-cases (find (clashes crypto config env 3) d.refresh_tokens)) [
          | inr (t, g) ↦ rw g tt
          | inl g ↦ rw g (
              opened (new_session env 2 u.id first) (refresh_row crypto config env 3 (env.uuid 2)) f
                g refl refl refl refl)
        ])
      ])

  register_user-Move :
      (input : Registration) (d : IdentityDb)
      → OnOk (MovesFrom (auth_of d)) (register_user crypto config env input d)
  unfolding register_user insert_user
  register_user-Move input d =
      elim (Option-cases (find (clashes_with crypto config env u) d.users)) [
        | inr (v, f) ↦ rw f tt
        | inl f ↦ rw f (
            sign_in-Move u buyer (buyer ∷ []) (auth_of d)
              (enqueue_user registered u (buyer ∷ [])
                (insert_role env 1 u.id buyer (record d { users = d.users ++ (u ∷ []) })))
              (enqueue_user-auth registered u (buyer ∷ [])
                (insert_role env 1 u.id buyer (record d { users = d.users ++ (u ∷ []) }))))
      ]
    where
      u : User
      u = new_user crypto config env input

  register-Move :
      (input : Registration) (d : IdentityDb)
      → Move (auth_of d) (auth_of (register crypto config env input d).1)
  unfolding register
  register-Move input d =
      elim (Bool-cases (is_some (find (is_named input.username input.email) d.users))) [
        | inl e ↦ rw e (idle refl)
        | inr e ↦ rw e (
            transaction_state (MovesFrom (auth_of d) tt) (register_user crypto config env input) d
              (idle refl) (register_user-Move input d))
      ]

  sign_in_as-Move :
      (u : User) (roles : List Role) (d : IdentityDb)
      → OnOk (MovesFrom (auth_of d)) (sign_in_as crypto config env u roles d)
  unfolding sign_in_as
  sign_in_as-Move u [] d =
      sign_in-Move u buyer (buyer ∷ []) (auth_of d) (insert_role env 1 u.id buyer d) refl
  sign_in_as-Move u (r ∷ rs) d = sign_in-Move u r (r ∷ rs) (auth_of d) d refl

  login_found-Move :
      (password : String) (o : Option User) (d : IdentityDb)
      → Move (auth_of d) (auth_of (login_found crypto config env password o d).1)
  unfolding login_found
  login_found-Move password none d = idle refl
  login_found-Move password (some u) d =
      elim (Bool-cases (crypto.verify_password password u.password_hash)) [
        | inr e ↦ rw e (idle refl)
        | inl e ↦ rw e (
            transaction_state (MovesFrom (auth_of d) tt)
              (λ d'. sign_in_as crypto config env u (roles_of u.id d') d') d (idle refl)
              (sign_in_as-Move u (roles_of u.id d) d))
      ]

  login-Move :
      (name password : String) (d : IdentityDb)
      → Move (auth_of d) (auth_of (login crypto config env name password d).1)
  unfolding login
  login-Move name password d = login_found-Move password (find (is_named name name) d.users) d

  revoke_session-Move :
      (id : ℕ) (d : IdentityDb) → Move (auth_of d) (auth_of (revoke_session env id d))
  unfolding revoke_session
  revoke_session-Move id d = elim (Option-cases (find (is_live id) d.sessions)) [
    | inl e ↦ rw (e, revoke_session) (idle refl)
    | inr (s, e) ↦
        rw (e, revoke_session)
          (ended env s id (access_horizon env) e (
            ap
              (λ r. record {
                sessions = update (is_live id) (revoked env) d.sessions;
                tokens = d.refresh_tokens;
                revoked_ids = r;
              })
              (revocations-append d.outbox (session_revoked id (access_horizon env) ∷ []))))
  ]

  logout-Move :
      (session token : Option ℕ) (d : IdentityDb)
      → Move (auth_of d) (auth_of (logout crypto config env session token d))
  unfolding logout
  logout-Move session token d = go (session_of crypto config env d session token)
    where
      go : (o : Option ℕ) → Move (auth_of d) (auth_of (revoke_found crypto config env o d))
      go none = idle refl
      go (some id) = revoke_session-Move id d

  select_role-Move :
      (user session : ℕ) (role : Role) (d : IdentityDb)
      → Move (auth_of d) (auth_of (select_role crypto config env user session role d).1)
  unfolding select_role
  select_role-Move user session role d = elim (Bool-cases (includes role (roles_of user d))) [
    | inr e ↦ rw e (idle refl)
    | inl e ↦ rw e (elim (Option-cases (find (is_live session) d.sessions)) [
      | inl f ↦ rw f (idle refl)
      | inr (s, f) ↦ rw f (switched env session role refl)
    ])
  ]

  -- What the join found stands in the two tables.
  pub presented_row-found :
      (token : ℕ) (d : IdentityDb) {t : RefreshToken} {s : Session}
      → presented_row crypto config env token d ≡ some (t, s)
      → (find (has_hash (crypto.hash_token token)) d.refresh_tokens ≡ some t)
        × (find (is_session t.session_id) d.sessions ≡ some s)
  unfolding presented_row
  presented_row-found token d e = ground arith

  rotate-Move :
      (token : ℕ) (t : RefreshToken) (s : Session) (d : IdentityDb)
      → presented_row crypto config env token d ≡ some (t, s)
      → s.revoked_at ≡ none
      → t.used_at ≡ none
      → OnOk (MovesFrom (auth_of d)) (rotate crypto config env t s d)
  unfolding rotate new_refresh_token
  rotate-Move token t s d row live unused =
      elim (Option-cases (find (clashes crypto config env 0) d.refresh_tokens)) [
        | inr (u, f) ↦ rw f tt
        | inl f ↦ rw f (
            turned env (crypto.hash_token token) t (refresh_row crypto config env 0 t.session_id) s
              (presented_row-found token d row).0 (presented_row-found token d row).1 live unused f
              refl refl refl)
      ]

  refresh_found-Move :
      (token : ℕ) (o : Option (RefreshToken × Session)) (d : IdentityDb)
      → presented_row crypto config env token d ≡ o
      → OnOk (MovesFrom (auth_of d)) (refresh_found crypto config env o d)
  unfolding refresh_found
  refresh_found-Move token none d e = tt
  refresh_found-Move token (some (t, s)) d e =
      elim (Bool-cases (is_some s.revoked_at || leb t.expires_at env.now)) [
        | inl over ↦ rw over tt
        | inr open' ↦ rw open' (elim (Bool-cases (is_some t.used_at)) [
          | inl again ↦ rw again (revoke_session-Move t.session_id d)
          | inr fresh ↦
              rw fresh (rotate-Move token t s d e (is_live' s t open') (none_of t.used_at fresh))
        ])
      ]
    where
      none_of : (o : Option ℕ) → is_some o ≡ false → o ≡ none
      none_of none _ = refl
      none_of (some _) f = cc

      is_live' :
          (s : Session) (t : RefreshToken)
          → (is_some s.revoked_at || leb t.expires_at env.now) ≡ false
          → s.revoked_at ≡ none
      is_live' s t f = ground arith

  refresh-Move :
      (token : ℕ) (d : IdentityDb)
      → Move (auth_of d) (auth_of (refresh crypto config env token d).1)
  unfolding refresh
  refresh-Move token d =
      transaction_state (MovesFrom (auth_of d) tt)
        (λ d'. refresh_found crypto config env (presented_row crypto config env token d') d') d
        (idle refl) (refresh_found-Move token (presented_row crypto config env token d) d refl)

  -- Whatever the call, one move.
  pub call-Move :
      (c : IdentityCall) (d : IdentityDb) → Move (auth_of d) (auth_of (call crypto config env c d))
  unfolding call
  call-Move (registers input) d = register-Move input d
  call-Move (logins name password) d = login-Move name password d
  call-Move (refreshes token) d = refresh-Move token d
  call-Move (logouts session token) d = logout-Move session token d
  call-Move (selects user session role) d = select_role-Move user session role d
  call-Move (onboards user session roles) d =
      idle (onboard-Quiet crypto config env user session roles d)
  call-Move (profiles user name avatar) d = idle (update_profile-Quiet env user name avatar d)

-- Whatever calls are made, failed ones included, the sessions, the refresh tokens and the announced
-- revocations change only by moves of the specification.
pub call_all-Moves :
    (crypto : Crypto) (config : Config) (calls : List (Env × IdentityCall)) (d : IdentityDb)
    → Moves (auth_of d) (auth_of (call_all crypto config calls d))
call_all-Moves crypto config [] d = done
call_all-Moves crypto config ((env, c) ∷ cs) d =
    then_move (call-Move crypto config env c d)
      (call_all-Moves crypto config cs (call crypto config env c d))
