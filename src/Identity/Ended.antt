-- ===== src/Identity/Ended.antt =====
-- A session that was ended stays ended: by a logout, or by a used refresh token presented again.
-- services/identity/src/modules/auth/auth.service.ts
use seapedia.Prelude.{
  ℕ, ◌≡◌, refl, ◌≤◌, arith, inl, inr, Bool, true, false, ◌||◌, Option, none, some, List, [], ◌∷◌,
  ◌++◌, is_some, leb, find, find_test, find-update-none, update, count, count-append, count-none,
  count-pos, count-update_le, count-update_same, Bool-cases, Option-cases, ◌==◌, eq_of_==,
}
use seapedia.Platform.Monad.{Env, err, ok, unauthorized, not_found}
use seapedia.Platform.Rules.{OnOk, OnOk-ok, OnOk-imp, OnOk-transaction}
use seapedia.Identity.Schema.{
  Role, Session, RefreshToken, IdentityDb, session_expired, session_missing, Config, Crypto,
}
use seapedia.Identity.Roles.{roles_of, includes}
use seapedia.Identity.Sessions.{
  is_session, is_live, last_used, revoked, selected, clashes, new_refresh_token, presented_row,
  Refreshed, reused, rotated, rotate, revoke_session, refresh_found, refresh, session_of, logout,
  select_role,
}
use seapedia.Identity.Profile.{get_session_info}
use seapedia.Identity.Calls.{IdentityCall, call_all}
use seapedia.Identity.Moves.{
  Auth, Move, idle, opened, turned, ended, switched, Moves, done, then_move,
}
use seapedia.Identity.Refines.{presented_row-found, call_all-Moves}

-- The session is there, and no row of it is live.
pub record IsDead (id : ℕ) (ss : List Session) : Type 0 where
  pub there : 1 ≤ count (is_session id) ss
  pub dead : count (is_live id) ss ≡ 0

IsDead-update :
    (id : ℕ) (p : Session → Bool) (f : Session → Session) (ss : List Session)
    → ((s : Session) → (f s).id ≡ s.id)
    → ((s : Session) → is_some s.revoked_at ≡ true → is_some (f s).revoked_at ≡ true)
    → IsDead id ss
    → IsDead id (update p f ss)
IsDead-update id p f ss same kept h = record {
  there = rw (count-update_same (is_session id) p f ss (λ s _. rw (same s))) h.there;
  dead =
      let fewer : count (is_live id) (update p f ss) ≤ count (is_live id) ss =
        count-update_le (is_live id) p f ss (λ s _ l. ground (arith, same s, kept s)) in
      omega (arith, h.dead);
}

IsDead-append :
    (id : ℕ) (s : Session) (ss : List Session)
    → find (is_session s.id) ss ≡ none
    → IsDead id ss
    → IsDead id (ss ++ (s ∷ []))
IsDead-append id s ss new h = record {
  there = rw (count-append (is_session id) ss (s ∷ [])) (omega (arith, h.there));
  dead = rw (count-append (is_live id) ss (s ∷ []), other) (omega (arith, h.dead));
}
  where
    other : is_live id s ≡ false
    other = elim (Bool-cases (s.id == id)) [
      | inr n ↦ rw n
      | inl k ↦
          let same : s.id ≡ id = eq_of_== s.id id k in
          let gone : count (is_session id) ss ≡ 0 =
            rw same at (count-none (is_session s.id) ss new) in
          absurd (omega (arith, h.there))
    ]

Move-IsDead : {a b : Auth} (id : ℕ) → Move a b → IsDead id a.sessions → IsDead id b.sessions
Move-IsDead id (idle e) h = rw e h
Move-IsDead {a} id (opened s _ new _ _ _ _ e) h = rw e (IsDead-append id s a.sessions new h)
Move-IsDead {a} id (turned env _ t _ _ _ _ _ _ _ _ _ e) h =
    rw e (
      IsDead-update id (is_session t.session_id) (last_used env) a.sessions (λ _. refl) (λ _ r. r)
        h)
Move-IsDead {a} id (ended env _ k _ _ e) h =
    rw e (IsDead-update id (is_live k) (revoked env) a.sessions (λ _. refl) (λ _ _. refl) h)
Move-IsDead {a} id (switched env k role e) h =
    rw e (IsDead-update id (is_live k) (selected env role) a.sessions (λ _. refl) (λ _ r. r) h)

Moves-IsDead : {a b : Auth} (id : ℕ) → Moves a b → IsDead id a.sessions → IsDead id b.sessions
Moves-IsDead id done h = h
Moves-IsDead id (then_move m ms) h = Moves-IsDead id ms (Move-IsDead id m h)

module _ (crypto : Crypto) (config : Config) where
  -- Nothing can be had from the session: its refresh tokens are refused, its role cannot be switched,
  -- and it is not read.
  pub record IsRefused (env : Env) (id : ℕ) (d : IdentityDb) : Type 0 where
    pub no_refresh :
        (token : ℕ) (t : RefreshToken) (s : Session)
        → presented_row crypto config env token d ≡ some (t, s)
        → t.session_id ≡ id
        → refresh crypto config env token d ≡ (err (unauthorized session_expired), d)
    pub no_role :
        (user : ℕ) (role : Role)
        → includes role (roles_of user d) ≡ true
        → select_role crypto config env user id role d ≡ (err (not_found session_missing), d)
    pub no_info : (user : ℕ) → get_session_info user id d ≡ (err (not_found session_missing), d)

  none_live : (id : ℕ) (ss : List Session) → count (is_live id) ss ≡ 0 → find (is_live id) ss ≡ none
  none_live id ss e = elim (Option-cases (find (is_live id) ss)) [
    | inl f ↦ f
    | inr (s, f) ↦
        let some_live : 1 ≤ count (is_live id) ss =
          count-pos (is_live id) (is_live id) ss f (find_test (is_live id) ss f) in
        absurd (omega arith)
  ]

  is_revoked :
      (id : ℕ) (ss : List Session) (s : Session)
      → count (is_live id) ss ≡ 0
      → find (is_session id) ss ≡ some s
      → is_some s.revoked_at ≡ true
  is_revoked id ss s e f = elim (Bool-cases (is_live id s)) [
    | inl l ↦
        let some_live : 1 ≤ count (is_live id) ss = count-pos (is_live id) (is_session id) ss f l in
        absurd (omega arith)
    | inr n ↦ ground (arith, find_test (is_session id) ss f)
  ]

  refused : (env : Env) (id : ℕ) (d : IdentityDb) → IsDead id d.sessions → IsRefused env id d
  unfolding refresh refresh_found select_role get_session_info
  refused env id d h = record {
    no_refresh = λ token t s row at.
        let found : find (is_session t.session_id) d.sessions ≡ some s =
          (presented_row-found crypto config env token d row).1 in
        rw (row, is_revoked id d.sessions s h.dead (rw at at found));
    no_role = λ user role has. rw (has, none_live id d.sessions h.dead);
    no_info = λ user. rw (none_live id d.sessions h.dead);
  }

  ended_for_ever :
      (id : ℕ) (calls : List (Env × IdentityCall)) (env : Env) (d : IdentityDb)
      → IsDead id d.sessions
      → IsRefused env id (call_all crypto config calls d)
  ended_for_ever id calls env d h =
      refused env id (call_all crypto config calls d)
        (Moves-IsDead id (call_all-Moves crypto config calls d) h)

  revoke_session-IsDead :
      (env : Env) (id : ℕ) (d : IdentityDb)
      → 1 ≤ count (is_session id) d.sessions
      → IsDead id (revoke_session env id d).sessions
  unfolding revoke_session
  revoke_session-IsDead env id d here = elim (Option-cases (find (is_live id) d.sessions)) [
    | inl e ↦
        rw (e, revoke_session)
          (record { there = here; dead = count-none (is_live id) d.sessions e })
    | inr (s, e) ↦
        rw (e, revoke_session)
          (record {
            there =
                rw
                  (count-update_same (is_session id) (is_live id) (revoked env) d.sessions
                    (λ _ _. refl))
                  here;
            dead =
                count-none (is_live id) (update (is_live id) (revoked env) d.sessions)
                  (find-update-none (is_live id) (revoked env) d.sessions (λ x. ground arith));
          })
  ]

  abbrev IsRotation : Refreshed → IdentityDb → Type 0
  IsRotation reused _ = ⊥
  IsRotation (rotated _) _ = Unit

  rotate-IsRotation :
      (env : Env) (t : RefreshToken) (s : Session) (d : IdentityDb)
      → OnOk IsRotation (rotate crypto config env t s d)
  unfolding rotate new_refresh_token
  rotate-IsRotation env t s d =
      elim (Option-cases (find (clashes crypto config env 0) d.refresh_tokens)) [
        | inl f ↦ rw f tt
        | inr (u, f) ↦ rw f tt
      ]

  abbrev EndsOnReuse : ℕ → Refreshed → IdentityDb → Type 0
  EndsOnReuse id reused d = IsDead id d.sessions
  EndsOnReuse id (rotated _) d = Unit

  refresh_found-Ends :
      (env : Env) (t : RefreshToken) (s : Session) (d : IdentityDb)
      → 1 ≤ count (is_session t.session_id) d.sessions
      → OnOk (EndsOnReuse t.session_id) (refresh_found crypto config env (some (t, s)) d)
  unfolding refresh_found
  refresh_found-Ends env t s d here =
      elim (Bool-cases (is_some s.revoked_at || leb t.expires_at env.now)) [
        | inl over ↦ rw over tt
        | inr going ↦ rw going (elim (Bool-cases (is_some t.used_at)) [
          | inl again ↦ rw again (revoke_session-IsDead env t.session_id d here)
          | inr fresh ↦ rw fresh (
              OnOk-imp IsRotation (EndsOnReuse t.session_id) (rotate crypto config env t s d) go
                (rotate-IsRotation env t s d))
        ])
      ]
    where
      go : (r : Refreshed) (d' : IdentityDb) → IsRotation r d' → EndsOnReuse t.session_id r d'
      go reused d' k = absurd k
      go (rotated _) d' _ = tt

  found_there :
      (env : Env) (token : ℕ) (d : IdentityDb) {t : RefreshToken} {s : Session}
      → presented_row crypto config env token d ≡ some (t, s)
      → 1 ≤ count (is_session t.session_id) d.sessions
  found_there env token d {t} {s} row =
      let found : find (is_session t.session_id) d.sessions ≡ some s =
        (presented_row-found crypto config env token d row).1 in
      count-pos (is_session t.session_id) (is_session t.session_id) d.sessions found
        (find_test (is_session t.session_id) d.sessions found)

  -- When a refresh answers that its token was used before, the session of the token has ended: whatever
  -- calls follow, every refresh token of the session is refused, whoever presents it and the newest one
  -- included, its role cannot be switched and it is not read.
  pub reuse_ends_session :
      (env later : Env) (token : ℕ) (calls : List (Env × IdentityCall)) (t : RefreshToken)
      (s : Session) (d : IdentityDb)
      → presented_row crypto config env token d ≡ some (t, s)
      → (refresh crypto config env token d).0 ≡ ok reused
      → IsRefused later t.session_id
          (call_all crypto config calls (refresh crypto config env token d).1)
  unfolding refresh
  reuse_ends_session env later token calls t s d row answer =
      ended_for_ever t.session_id calls later (refresh crypto config env token d).1 (
        OnOk-ok (EndsOnReuse t.session_id) (refresh crypto config env token d) reused
          (OnOk-transaction (EndsOnReuse t.session_id)
            (λ d'. refresh_found crypto config env (presented_row crypto config env token d') d') d
            (rw row (refresh_found-Ends env t s d (found_there env token d row))))
          answer)

  -- A logout of a session that exists, by its id or by any refresh token of it, ends it: whatever calls
  -- follow, its refresh tokens are refused, its role cannot be switched and it is not read.
  pub logout_ends_session :
      (env later : Env) (session token : Option ℕ) (id : ℕ) (calls : List (Env × IdentityCall))
      (s : Session) (d : IdentityDb)
      → session_of crypto config env d session token ≡ some id
      → find (is_session id) d.sessions ≡ some s
      → IsRefused later id (call_all crypto config calls (logout crypto config env session token d))
  unfolding logout
  logout_ends_session env later session token id calls s d by found = rw by (
      ended_for_ever id calls later (revoke_session env id d) (
        revoke_session-IsDead env id d (
          count-pos (is_session id) (is_session id) d.sessions found
            (find_test (is_session id) d.sessions found))))
