-- ===== src/Identity/Announced.antt =====
-- The outbox tells of each ended session once. services/identity/src/modules/auth/auth.service.ts
use seapedia.Prelude.{
  ℕ, ◌≡◌, refl, sym, ◌∙◌, ◌≤◌, ◌+◌, arith, inl, inr, Bool, ◌&&◌, none, some, List, [], ◌∷◌, ◌++◌,
  is_some, find, find_test, update, count, count-append, count-none, count-pos, count-imp,
  count-update_same, count-update_moved, Bool-cases, ◌==◌, eq_of_==,
}
use seapedia.Platform.Monad.{Env}
use seapedia.Identity.Schema.{Session, IdentityDb, Config, Crypto}
use seapedia.Identity.Sessions.{is_session, is_live, last_used, revoked, selected}
use seapedia.Identity.Calls.{IdentityCall, call_all}
use seapedia.Identity.Moves.{
  Auth, auth_of, Move, idle, opened, turned, ended, switched, Moves, done, then_move,
}
use seapedia.Identity.Refines.{call_all-Moves}

abbrev pub is_ended : ℕ → Session → Bool
is_ended id s = s.id == id && is_some s.revoked_at

abbrev pub tells_of : ℕ → ℕ × ℕ → Bool
tells_of id (session, _) = session == id

-- Session ids are unique, and there are as many events of a session as rows of it that are revoked.
pub record IsAnnounced (a : Auth) : Type 0 where
  pub once : (id : ℕ) → count (is_session id) a.sessions ≤ 1
  pub told : (id : ℕ) → count (tells_of id) a.revoked_ids ≡ count (is_ended id) a.sessions

one_more :
    (id : ℕ) (s : Session) (ss : List Session)
    → find (is_session s.id) ss ≡ none
    → count (is_session id) ss ≤ 1
    → count (is_session id) (ss ++ (s ∷ [])) ≤ 1
one_more id s ss new one =
    rw (count-append (is_session id) ss (s ∷ [])) (elim (Bool-cases (s.id == id)) [
      | inl k ↦
          let same : s.id ≡ id = eq_of_== s.id id k in
          let gone : count (is_session id) ss ≡ 0 =
            rw same at (count-none (is_session s.id) ss new) in
          rw k (omega arith)
      | inr n ↦ rw n (omega arith)
    ])

not_ended : (id : ℕ) (s : Session) → s.revoked_at ≡ none → count (is_ended id) (s ∷ []) ≡ 0
not_ended id s e = ground arith

quiet-IsAnnounced :
    (a : Auth) (p : Session → Bool) (f : Session → Session)
    → ((id : ℕ) (s : Session) → is_session id (f s) ≡ is_session id s)
    → ((id : ℕ) (s : Session) → is_ended id (f s) ≡ is_ended id s)
    → IsAnnounced a
    → IsAnnounced (record a { sessions = update p f a.sessions })
quiet-IsAnnounced a p f same kept h = record {
  once = λ id. rw (count-update_same (is_session id) p f a.sessions (λ s _. same id s)) (h.once id);
  told = λ id. h.told id ∙ sym (count-update_same (is_ended id) p f a.sessions (λ s _. kept id s));
}

-- The rows that a revocation ends are one.
one_live :
    (id : ℕ) (ss : List Session) {s : Session}
    → find (is_live id) ss ≡ some s
    → count (is_session id) ss ≤ 1
    → count (is_live id) ss ≡ 1
one_live id ss found one =
    let low : 1 ≤ count (is_live id) ss =
      count-pos (is_live id) (is_live id) ss found (find_test (is_live id) ss found) in
    let high : count (is_live id) ss ≤ count (is_session id) ss =
      count-imp (is_live id) (is_session id) ss (λ x. ground arith) in
    omega arith

Move-IsAnnounced : {a b : Auth} → Move a b → IsAnnounced a → IsAnnounced b
Move-IsAnnounced (idle e) h = rw e h
Move-IsAnnounced {a} (opened s _ new _ live _ _ e) h = rw e (record {
  once = λ id. one_more id s a.sessions new (h.once id);
  told = λ id.
      rw (count-append (is_ended id) a.sessions (s ∷ []), not_ended id s live)
        (omega (arith, h.told id));
})
Move-IsAnnounced {a} (turned env _ t _ _ _ _ _ _ _ _ _ e) h =
    let k =
      quiet-IsAnnounced a (is_session t.session_id) (last_used env) (λ _ _. refl) (λ _ _. refl) h in
    rw e (record { once = k.once; told = k.told })
Move-IsAnnounced {a} (ended env s id until found e) h = rw e (record {
  once = λ k.
      rw (count-update_same (is_session k) (is_live id) (revoked env) a.sessions (λ _ _. refl))
        (h.once k);
  told = λ k. rw (count-append (tells_of k) a.revoked_ids ((id, until) ∷ [])) (counted k);
})
  where
    counted :
        (k : ℕ)
        → count (tells_of k) a.revoked_ids + count (tells_of k) ((id, until) ∷ [])
          ≡ count (is_ended k) (update (is_live id) (revoked env) a.sessions)
    counted k = elim (Bool-cases (id == k)) [
      | inl same ↦
          let here : id ≡ k = eq_of_== id k same in
          let moved : count (is_ended id) (update (is_live id) (revoked env) a.sessions)
              ≡ count (is_ended id) a.sessions + count (is_live id) a.sessions =
            count-update_moved (is_ended id) (is_live id) (revoked env) a.sessions
              (λ x. ground arith) (λ x. ground arith) in
          rw (same, ← here, moved, one_live id a.sessions found (h.once id))
            (omega (arith, h.told id))
      | inr other ↦
          rw
            (
              other,
              count-update_same (is_ended k) (is_live id) (revoked env) a.sessions
                  (λ x l. ground arith),
            )
            (omega (arith, h.told k))
    ]
Move-IsAnnounced {a} (switched env id role e) h =
    rw e (quiet-IsAnnounced a (is_live id) (selected env role) (λ _ _. refl) (λ _ _. refl) h)

Moves-IsAnnounced : {a b : Auth} → Moves a b → IsAnnounced a → IsAnnounced b
Moves-IsAnnounced done h = h
Moves-IsAnnounced (then_move m ms) h = Moves-IsAnnounced ms (Move-IsAnnounced m h)

-- Where session ids are unique and the outbox has one revocation for each revoked session and none for
-- another, so it is after any calls, failed ones included: a session that is revoked twice, or whose
-- call fails midway, is announced once or not at all.
pub revocations-IsAnnounced :
    (crypto : Crypto) (config : Config) (calls : List (Env × IdentityCall)) (d : IdentityDb)
    → IsAnnounced (auth_of d)
    → IsAnnounced (auth_of (call_all crypto config calls d))
revocations-IsAnnounced crypto config calls d h =
    Moves-IsAnnounced (call_all-Moves crypto config calls d) h
