-- ===== src/Identity/Rotation.antt =====
-- A session has at most one refresh token that was not used.
-- services/identity/src/modules/auth/auth.service.ts
use seapedia.Prelude.{
  ℕ, ◌≡◌, refl, ◌≤◌, suc, arith, inl, inr, Bool, true, false, none, some, List, [], ◌∷◌, ◌++◌, find,
  find_test, update, count, count-append, count-none, count-pos, count-update_le, count-update_lt,
  count-update_same, update-append, All, All-append, All-update, All-imp, Bool-cases, ◌==◌,
  if◌then◌else◌, ==-refl, eq_of_==,
}
use seapedia.Platform.Monad.{Env}
use seapedia.Identity.Schema.{Session, RefreshToken, IdentityDb, Config, Crypto}
use seapedia.Identity.Sessions.{
  is_session, is_live, is_token, has_hash, last_used, revoked, selected, used,
}
use seapedia.Identity.Calls.{IdentityCall, call_all}
use seapedia.Identity.Moves.{
  Auth, auth_of, is_same_token, append_token, is_unused, Move, idle, opened, turned, ended,
  switched, Moves, done, then_move,
}
use seapedia.Identity.Refines.{call_all-Moves}

-- The session of the token is there.
abbrev Homed : List Session → RefreshToken → Type 0
Homed ss t = 1 ≤ count (is_session t.session_id) ss

pub record IsRotated (a : Auth) : Type 0 where
  pub one : (session : ℕ) → count (is_unused session) a.tokens ≤ 1
  pub homed : All (Homed a.sessions) a.tokens

none_unused :
    (session : ℕ) (ss : List Session) (ts : List RefreshToken)
    → count (is_session session) ss ≡ 0
    → All (Homed ss) ts
    → count (is_unused session) ts ≡ 0
none_unused session ss [] e _ = refl
none_unused session ss (t ∷ ts) e (h, hs) = elim (Bool-cases (t.session_id == session)) [
  | inr n ↦ rw n (none_unused session ss ts e hs)
  | inl k ↦
      let same : t.session_id ≡ session = eq_of_== t.session_id session k in
      let here : 1 ≤ count (is_session session) ss = rw same at h in absurd (omega arith)
]

Homed-append :
    (ss : List Session) (s : Session) (ts : List RefreshToken)
    → All (Homed ss) ts
    → All (Homed (ss ++ (s ∷ []))) ts
Homed-append ss s ts h =
    All-imp (Homed ss) (Homed (ss ++ (s ∷ [])))
      (λ t k. rw (count-append (is_session t.session_id) ss (s ∷ [])) (omega arith)) ts h

-- An update of sessions keeps their ids.
Homed-update :
    (p : Session → Bool) (f : Session → Session) (ss : List Session) (ts : List RefreshToken)
    → ((s : Session) → (f s).id ≡ s.id)
    → All (Homed ss) ts
    → All (Homed (update p f ss)) ts
Homed-update p f ss ts same h =
    All-imp (Homed ss) (Homed (update p f ss))
      (λ t k. rw (count-update_same (is_session t.session_id) p f ss (λ s _. rw (same s))) k) ts h

new_home : (ss : List Session) (s : Session) → 1 ≤ count (is_session s.id) (ss ++ (s ∷ []))
new_home ss s = rw (count-append (is_session s.id) ss (s ∷ []), ==-refl s.id) (omega arith)

at_most_one : (session : ℕ) (t : RefreshToken) → count (is_unused session) (t ∷ []) ≤ 1
at_most_one session t = ground arith

elsewhere :
    (session : ℕ) (t : RefreshToken)
    → (t.session_id == session) ≡ false
    → count (is_unused session) (t ∷ []) ≡ 0
elsewhere session t n = rw n

-- The first token of a new session.
first_token :
    (session : ℕ) (ss : List Session) (ts : List RefreshToken) (t : RefreshToken)
    → count (is_session t.session_id) ss ≡ 0
    → All (Homed ss) ts
    → count (is_unused session) ts ≤ 1
    → count (is_unused session) (append_token ts t) ≤ 1
first_token session ss ts t new homed one =
    rw (count-append (is_unused session) ts (t ∷ [])) (elim (Bool-cases (t.session_id == session)) [
      | inl k ↦
          let same : t.session_id ≡ session = eq_of_== t.session_id session k in
          let zero_before : count (is_unused session) ts ≡ 0 =
            none_unused session ss ts (rw same at new) homed in
          omega (arith, at_most_one session t)
      | inr n ↦ omega (arith, elsewhere session t n)
    ])

-- A row that is there has another key than one that may be inserted.
not_there :
    (hash : ℕ) (ts : List RefreshToken) (t next : RefreshToken)
    → find (has_hash hash) ts ≡ some t
    → find (is_same_token next) ts ≡ none
    → (next.id == t.id) ≡ false
not_there hash ts t next row fresh = elim (Bool-cases (is_same_token next t)) [
  | inr n ↦ ground arith
  | inl k ↦
      let here : 1 ≤ count (is_same_token next) ts =
        count-pos (is_same_token next) (has_hash hash) ts row k in
      absurd (omega (arith, count-none (is_same_token next) ts fresh))
]

-- The next token of a session takes the place of the one that is used up.
next_token :
    (env : Env) (session hash : ℕ) (ts : List RefreshToken) (t next : RefreshToken)
    → find (has_hash hash) ts ≡ some t
    → t.used_at ≡ none
    → find (is_same_token next) ts ≡ none
    → next.session_id ≡ t.session_id
    → count (is_unused session) ts ≤ 1
    → count (is_unused session) (update (is_token t.id) (used env next.id) (append_token ts next))
      ≤ 1
next_token env session hash ts t next row unused fresh same one =
    rw
      (
        update-append (is_token t.id) (used env next.id) ts (next ∷ []),
        not_there hash ts t next row fresh,
        count-append (is_unused session) (update (is_token t.id) (used env next.id) ts) (next ∷ []),
      )
      (elim (Bool-cases (t.session_id == session)) [
        | inl k ↦
            let fewer : suc
                  (count (is_unused session) (update (is_token t.id) (used env next.id) ts))
                ≤ count (is_unused session) ts =
              count-update_lt (is_unused session) (is_token t.id) (has_hash hash) (used env next.id)
                ts (λ u _. ground arith) row (==-refl t.id) (ground arith) in
            omega (arith, at_most_one session next)
        | inr n ↦
            let no_more : count (is_unused session) (update (is_token t.id) (used env next.id) ts)
                ≤ count (is_unused session) ts =
              count-update_le (is_unused session) (is_token t.id) (used env next.id) ts
                (λ u _ k. ground arith) in
            omega (arith, elsewhere session next (rw same n))
      ])

Move-IsRotated : {a b : Auth} → Move a b → IsRotated a → IsRotated b
Move-IsRotated (idle e) h = rw e h
Move-IsRotated {a} (opened s t new fresh live home unused e) h = rw e (record {
  one = λ session.
      first_token session a.sessions a.tokens t
        (rw home (count-none (is_session s.id) a.sessions new)) h.homed (h.one session);
  homed =
      All-append (Homed (a.sessions ++ (s ∷ []))) a.tokens (t ∷ [])
        (Homed-append a.sessions s a.tokens h.homed) (rw home (new_home a.sessions s), tt);
})
Move-IsRotated {a} (turned env hash t next s row here live unused fresh same next_unused e) h =
    rw e (record {
      one = λ session.
          next_token env session hash a.tokens t next row unused fresh same (h.one session);
      homed =
          Homed-update (is_session t.session_id) (last_used env) a.sessions
            (update (is_token t.id) (used env next.id) (append_token a.tokens next)) (λ _. refl)
            (All-update (Homed a.sessions) (Homed a.sessions) (is_token t.id) (used env next.id)
              (append_token a.tokens next) (λ u k. kept (is_token t.id u) u k)
              (All-append (Homed a.sessions) a.tokens (next ∷ []) h.homed (
                rw same (
                    count-pos (is_session t.session_id) (is_session t.session_id) a.sessions here
                      (find_test (is_session t.session_id) a.sessions here)),
                tt,
              )));
    })
  where
    kept :
        (b : Bool) (u : RefreshToken)
        → Homed a.sessions u
        → Homed a.sessions (if b then used env next.id u else u)
    kept true u k = k
    kept false u k = k
Move-IsRotated {a} (ended env s id until found e) h = rw e (record {
  one = h.one;
  homed = Homed-update (is_live id) (revoked env) a.sessions a.tokens (λ _. refl) h.homed;
})
Move-IsRotated {a} (switched env id role e) h = rw e (record {
  one = h.one;
  homed = Homed-update (is_live id) (selected env role) a.sessions a.tokens (λ _. refl) h.homed;
})

Moves-IsRotated : {a b : Auth} → Moves a b → IsRotated a → IsRotated b
Moves-IsRotated done h = h
Moves-IsRotated (then_move m ms) h = Moves-IsRotated ms (Move-IsRotated m h)

-- Where every refresh token has its session and each session at most one that was not used, so it is
-- after any calls, failed ones included: the rotation never leaves two tokens of one session that
-- could both be exchanged.
pub one_unused_token :
    (crypto : Crypto) (config : Config) (calls : List (Env × IdentityCall)) (d : IdentityDb)
    → IsRotated (auth_of d)
    → IsRotated (auth_of (call_all crypto config calls d))
one_unused_token crypto config calls d h = Moves-IsRotated (call_all-Moves crypto config calls d) h
