-- ===== src/Platform/Denylist.antt =====
-- Sessions whose access tokens are refused until they would have expired anyway.
-- packages/platform/src/auth/denylist.ts
use mathlib.Core.Option.{some-injective}
use seapedia.Prelude.{
  ℕ, ◌*◌, ◌≤◌, ◌<◌, ◌≡◌, sym, ◌∙◌, arith, inl, inr, Bool, true, false, not, none, some, List, [],
  ◌∷◌, ◌++◌, length, leb, ltb, ◌==◌, ==-refl, eq_of_==, if◌then◌else◌, is_some, find,
  find-append_hit, find-append, find-select_kept, find-update_hit, find-update_miss, find_test,
  update, delete, Option-cases, Bool-cases, All,
}

-- An entry of the `Map`, in its order; `expires_at` is in seconds.
pub record Entry : Type 0 where
  pub session : ℕ
  pub expires_at : ℕ

abbrev pub is_entry : ℕ → Entry → Bool
is_entry session e = e.session == session

-- `exp <= Date.now() / 1000`, where the clock counts milliseconds.
abbrev pub is_over : (now : ℕ) → Entry → Bool
is_over now e = leb (e.expires_at * 1000) now

unfoldable pub prune : (now : ℕ) → List Entry → List Entry
prune now = delete (is_over now)

abbrev pub entry : ℕ → ℕ → Entry
entry session expires_at = record { session = session; expires_at = expires_at }

-- `Map.set`: a key that is there keeps its place.
unfoldable pub set_entry : ℕ → ℕ → List Entry → List Entry
set_entry session expires_at es =
    if is_some (find (is_entry session) es)
    then update (is_entry session) (λ _. entry session expires_at) es
    else es ++ (entry session expires_at ∷ [])

unfoldable pub revoke : (now session expires_at : ℕ) → List Entry → List Entry
revoke now session expires_at es =
    let set = set_entry session expires_at es in
    if ltb 10_000 (length set) then prune now set else set

unfoldable pub is_revoked : (now session : ℕ) → List Entry → Bool × List Entry
is_revoked now session es = elim (find (is_entry session) es) [
  | none ↦ (false, es)
  | some e ↦ if is_over now e then (false, delete (is_entry session) es) else (true, es)
]

pub data DenylistCall : Type 0 where
  revokes : (session expires_at : ℕ) → DenylistCall
  asks : (session : ℕ) → DenylistCall

abbrev pub denylist_call : ℕ → DenylistCall → List Entry → List Entry
denylist_call now (revokes session expires_at) es = revoke now session expires_at es
denylist_call now (asks session) es = (is_revoked now session es).1

-- Calls, each at its time.
abbrev pub denylist_calls : List (ℕ × DenylistCall) → List Entry → List Entry
denylist_calls [] es = es
denylist_calls ((now, c) ∷ cs) es = denylist_calls cs (denylist_call now c es)

-- A call before `now` that does not shorten the denial of the session.
abbrev pub IsBefore : (now session until : ℕ) → ℕ × DenylistCall → Type 0
IsBefore now session until (at, asks _) = at ≤ now
IsBefore now session until (at, revokes other expires_at) =
    (at ≤ now) × (other ≡ session → until ≤ expires_at)

-- The session is denied at least until then.
abbrev IsDenied : (session until : ℕ) → List Entry → Type 0
IsDenied session until es =
    (e : Entry) × ((find (is_entry session) es ≡ some e) × (until ≤ e.expires_at))

module _ (now session until : ℕ) (early : now < until * 1000) where
  prune-Denied :
      (at : ℕ) (es : List Entry)
      → at ≤ now
      → IsDenied session until es
      → IsDenied session until (prune at es)
  unfolding prune
  prune-Denied at es past (e, (found, long)) = (
    e,
    (find-select_kept (is_entry session) (λ x. not (is_over at x)) es found (ground arith), long),
  )

  set_entry-Denied :
      (other expires_at : ℕ) (es : List Entry)
      → (other ≡ session → until ≤ expires_at)
      → IsDenied session until es
      → IsDenied session until (set_entry other expires_at es)
  unfolding set_entry
  set_entry-Denied other expires_at es longer (e, (found, long)) =
      elim (Bool-cases (is_some (find (is_entry other) es))) [
        | inr n ↦
            rw n
              (e, (find-append_hit (is_entry session) es (entry other expires_at ∷ []) found, long))
        | inl y ↦ rw y (elim (Bool-cases (other == session)) [
          | inl k ↦
              let same : other ≡ session = eq_of_== other session k in
              rw same (
                entry session expires_at,
                (
                  find-update_hit (is_entry session) (λ _. entry session expires_at) es
                      (λ _. ==-refl session) found,
                  longer same,
                ),
              )
          | inr k ↦ (
            e,
            (
              find-update_miss (is_entry session) (is_entry other) (λ _. entry other expires_at) es
                    (λ x h. ground arith) (λ _ _. k)
                  ∙ found,
              long,
            ),
          )
        ])
      ]

  revoke-Denied :
      (at other expires_at : ℕ) (es : List Entry)
      → at ≤ now
      → (other ≡ session → until ≤ expires_at)
      → IsDenied session until es
      → IsDenied session until (revoke at other expires_at es)
  unfolding revoke
  revoke-Denied at other expires_at es past longer h =
      let set = set_entry-Denied other expires_at es longer h in
      elim (Bool-cases (ltb 10_000 (length (set_entry other expires_at es)))) [
        | inl y ↦ rw y (prune-Denied at (set_entry other expires_at es) past set)
        | inr n ↦ rw n set
      ]

  one_session :
      (other : ℕ) (es : List Entry) {e : Entry}
      → find (is_entry session) es ≡ some e
      → is_entry other e ≡ true
      → other ≡ session
  one_session other es {e} found m =
      let here : e.session ≡ session =
        eq_of_== e.session session (find_test (is_entry session) es found) in
      sym (eq_of_== e.session other m) ∙ here

  -- Its entry is not over yet.
  kept :
      (at : ℕ) (es : List Entry) {e x : Entry} {other : ℕ}
      → at ≤ now
      → find (is_entry session) es ≡ some e
      → until ≤ e.expires_at
      → other ≡ session
      → find (is_entry other) es ≡ some x
      → is_over at x ≡ true
      → ⊥
  kept at es {e} {x} past found long same f y =
      let f' : find (is_entry session) es ≡ some x = rw same at f in
      let one : some e ≡ some x = sym found ∙ f' in
      let over : is_over at e ≡ true = rw (← some-injective _ _ one) at y in ground arith

  is_revoked-Denied :
      (at other : ℕ) (es : List Entry)
      → at ≤ now
      → IsDenied session until es
      → IsDenied session until (is_revoked at other es).1
  unfolding is_revoked
  is_revoked-Denied at other es past (e, (found, long)) =
      elim (Option-cases (find (is_entry other) es)) [
        | inl f ↦ rw (f, is_revoked) (e, (found, long))
        | inr (x, f) ↦
            rw (f, is_revoked)
              (elim (Bool-cases (is_over at x)) [
                | inr n ↦ rw n (e, (found, long))
                | inl y ↦ rw y (
                  e,
                  (
                    find-select_kept (is_entry session) (λ v. not (is_entry other v)) es found
                        (elim (Bool-cases (is_entry other e)) [
                          | inr m ↦ rw m
                          | inl m ↦
                              absurd (kept at es past found long (one_session other es found m) f y)
                        ]),
                    long,
                  ),
                )
              ])
      ]

  denylist_call-Denied :
      (at : ℕ) (c : DenylistCall) (es : List Entry)
      → IsBefore now session until (at, c)
      → IsDenied session until es
      → IsDenied session until (denylist_call at c es)
  denylist_call-Denied at (asks other) es past h = is_revoked-Denied at other es past h
  denylist_call-Denied at (revokes other expires_at) es (past, longer) h =
      revoke-Denied at other expires_at es past longer h

  denylist_calls-Denied :
      (calls : List (ℕ × DenylistCall)) (es : List Entry)
      → All (IsBefore now session until) calls
      → IsDenied session until es
      → IsDenied session until (denylist_calls calls es)
  denylist_calls-Denied [] es _ h = h
  denylist_calls-Denied ((at, c) ∷ cs) es (past, later) h =
      denylist_calls-Denied cs (denylist_call at c es) later (denylist_call-Denied at c es past h)

  denied-is_revoked :
      (es : List Entry) → IsDenied session until es → (is_revoked now session es).0 ≡ true
  unfolding is_revoked
  denied-is_revoked es (e, (found, long)) = rw (found, is_revoked) (ground arith)

set_entry_denies :
    (session until : ℕ) (es : List Entry) → IsDenied session until (set_entry session until es)
unfolding set_entry
set_entry_denies session until es = elim (Option-cases (find (is_entry session) es)) [
  | inl f ↦ rw f (
    entry session until,
    (find-append (is_entry session) es (entry session until) f ∙ rw (==-refl session), omega arith),
  )
  | inr (x, f) ↦ rw f (
    entry session until,
    (
      find-update_hit (is_entry session) (λ _. entry session until) es (λ _. ==-refl session) f,
      omega arith,
    ),
  )
]

-- A session that is revoked until some second is refused until then: whatever calls follow on the
-- denylist, of any sessions, if they come before and none shortens the denial of this one, and however
-- many entries the prunings take out.
pub revoked_until :
    (now at session until : ℕ) (calls : List (ℕ × DenylistCall)) (es : List Entry)
    → now < until * 1000
    → at ≤ now
    → All (IsBefore now session until) calls
    → (is_revoked now session (denylist_calls calls (revoke at session until es))).0 ≡ true
unfolding revoke
revoked_until now at session until calls es early past all =
    denied-is_revoked now session until early (denylist_calls calls (revoke at session until es)) (
      denylist_calls-Denied now session until early calls (revoke at session until es) all
        (elim (Bool-cases (ltb 10_000 (length (set_entry session until es)))) [
          | inl y ↦
              rw (y, revoke)
                (prune-Denied now session until early at (set_entry session until es) past
                  (set_entry_denies session until es))
          | inr n ↦ rw (n, revoke) (set_entry_denies session until es)
        ]))
