-- ===== src/Identity/Spent.antt =====
-- A refresh token is exchanged once. services/identity/src/modules/auth/auth.service.ts
use mathlib.Core.Option
use seapedia.Prelude.{
  ℕ, ◌≡◌, refl, ap, ◌∙◌, arith, inl, inr, Bool, true, false, ◌||◌, Option, none, some, List, [],
  ◌∷◌, ◌++◌, is_some, leb, find, find-update, find-append_hit, update, Bool-cases, Option-cases,
  ==-refl, if◌then◌else◌,
}
use seapedia.Platform.Monad.{Env, err, ok, Result, commit_or_rollback}
use seapedia.Platform.Rules.{OnOk, OnOk-ok, OnOk-transaction}
use seapedia.Identity.Schema.{
  Session, RefreshToken, IdentityDb, IdentityReason, Config, Crypto, IssuedTokens,
}
use seapedia.Identity.Sessions.{
  has_hash, is_token, clashes, new_refresh_token, refresh_row, used, presented_row, Refreshed,
  reused, rotated, rotate, refresh_found, refresh,
}
use seapedia.Identity.Calls.{IdentityCall, call_all}
use seapedia.Identity.Moves.{
  Auth, append_token, Move, idle, opened, turned, ended, switched, Moves, done, then_move,
}
use seapedia.Identity.Refines.{presented_row-found, call_all-Moves}

-- The token of this hash was used.
abbrev IsSpent : ℕ → List RefreshToken → Type 0
IsSpent hash ts =
    (t : RefreshToken) × ((find (has_hash hash) ts ≡ some t) × (is_some t.used_at ≡ true))

IsSpent-append : (hash : ℕ) (ts us : List RefreshToken) → IsSpent hash ts → IsSpent hash (ts ++ us)
IsSpent-append hash ts us (t, (found, spent)) =
    (t, (find-append_hit (has_hash hash) ts us found, spent))

IsSpent-update :
    (env : Env) (hash id next : ℕ) (ts : List RefreshToken)
    → IsSpent hash ts
    → IsSpent hash (update (is_token id) (used env next) ts)
IsSpent-update env hash id next ts (t, (found, spent)) = (
  (if is_token id t then used env next t else t),
  (
    find-update (has_hash hash) (is_token id) (used env next) ts (λ _. refl)
        ∙ ap (Option.map (λ u. if is_token id u then used env next u else u)) found,
    either (is_token id t),
  ),
)
  where
    either : (b : Bool) → is_some (if b then used env next t else t).used_at ≡ true
    either true = refl
    either false = spent

Move-IsSpent : {a b : Auth} (hash : ℕ) → Move a b → IsSpent hash a.tokens → IsSpent hash b.tokens
Move-IsSpent hash (idle e) h = rw e h
Move-IsSpent {a} hash (opened _ t _ _ _ _ _ e) h = rw e (IsSpent-append hash a.tokens (t ∷ []) h)
Move-IsSpent {a} hash (turned env _ t next _ _ _ _ _ _ _ _ e) h = rw e (
    IsSpent-update env hash t.id next.id (append_token a.tokens next)
      (IsSpent-append hash a.tokens (next ∷ []) h))
Move-IsSpent hash (ended _ _ _ _ _ e) h = rw e h
Move-IsSpent hash (switched _ _ _ e) h = rw e h

Moves-IsSpent : {a b : Auth} (hash : ℕ) → Moves a b → IsSpent hash a.tokens → IsSpent hash b.tokens
Moves-IsSpent hash done h = h
Moves-IsSpent hash (then_move m ms) h = Moves-IsSpent hash ms (Move-IsSpent hash m h)

module _ (crypto : Crypto) (config : Config) where
  abbrev SpentOnTurn : ℕ → Refreshed → IdentityDb → Type 0
  SpentOnTurn token reused d = Unit
  SpentOnTurn token (rotated _) d = IsSpent (crypto.hash_token token) d.refresh_tokens

  rotate-Spent :
      (env : Env) (token : ℕ) (t : RefreshToken) (s : Session) (d : IdentityDb)
      → find (has_hash (crypto.hash_token token)) d.refresh_tokens ≡ some t
      → OnOk (SpentOnTurn token) (rotate crypto config env t s d)
  unfolding rotate new_refresh_token
  rotate-Spent env token t s d found =
      elim (Option-cases (find (clashes crypto config env 0) d.refresh_tokens)) [
        | inr (u, f) ↦ rw f tt
        | inl f ↦ rw f (
          used env (env.uuid 0) t,
          (
            find-update (has_hash (crypto.hash_token token)) (is_token t.id) (used env (env.uuid 0))
                  (append_token d.refresh_tokens (refresh_row crypto config env 0 t.session_id))
                  (λ _. refl)
                ∙ rw (
                  find-append_hit (has_hash (crypto.hash_token token)) d.refresh_tokens
                      (refresh_row crypto config env 0 t.session_id ∷ []) found,
                  Option.map,
                  ==-refl t.id,
                ),
            refl,
          ),
        )
      ]

  refresh_found-Spent :
      (env : Env) (token : ℕ) (o : Option (RefreshToken × Session)) (d : IdentityDb)
      → presented_row crypto config env token d ≡ o
      → OnOk (SpentOnTurn token) (refresh_found crypto config env o d)
  unfolding refresh_found
  refresh_found-Spent env token none d row = tt
  refresh_found-Spent env token (some (t, s)) d row =
      elim (Bool-cases (is_some s.revoked_at || leb t.expires_at env.now)) [
        | inl over ↦ rw over tt
        | inr going ↦ rw going (elim (Bool-cases (is_some t.used_at)) [
          | inl again ↦ rw again tt
          | inr fresh ↦
              rw fresh
                (rotate-Spent env token t s d (presented_row-found crypto config env token d row).0)
        ])
      ]

  -- No tokens are handed out.
  abbrev pub IsEmptyHanded : Result IdentityReason Refreshed → Type 0
  IsEmptyHanded (ok (rotated _)) = ⊥
  IsEmptyHanded (ok reused) = Unit
  IsEmptyHanded (err _) = Unit

  refresh_found_empty :
      (env : Env) (o : Option (RefreshToken × Session)) (d : IdentityDb)
      → ((t : RefreshToken) (s : Session) → o ≡ some (t, s) → is_some t.used_at ≡ true)
      → IsEmptyHanded (refresh_found crypto config env o d).0
  unfolding refresh_found
  refresh_found_empty env none d spent = tt
  refresh_found_empty env (some (t, s)) d spent =
      elim (Bool-cases (is_some s.revoked_at || leb t.expires_at env.now)) [
        | inl over ↦ rw over tt
        | inr going ↦ rw (going, spent t s refl) tt
      ]

  transaction_empty :
      (d : IdentityDb) (r : Result IdentityReason Refreshed × IdentityDb)
      → IsEmptyHanded r.0
      → IsEmptyHanded (commit_or_rollback d r).0
  transaction_empty d (ok _, _) h = h
  transaction_empty d (err _, _) h = h

  spent_row :
      (env : Env) (token : ℕ) (d : IdentityDb)
      → IsSpent (crypto.hash_token token) d.refresh_tokens
      → (t : RefreshToken) (s : Session) → presented_row crypto config env token d ≡ some (t, s)
      → is_some t.used_at ≡ true
  spent_row env token d (u, (found, spent)) t s row =
      let (here, _) = presented_row-found crypto config env token d row in ground (arith, here)

  -- A refresh token that was exchanged for new tokens is never exchanged again: whatever calls follow,
  -- presenting it answers with an error, or that it was used before.
  pub token_used_once :
      (env later : Env) (token : ℕ) (calls : List (Env × IdentityCall)) (tokens : IssuedTokens)
      (d : IdentityDb)
      → (refresh crypto config env token d).0 ≡ ok (rotated tokens)
      → IsEmptyHanded
          (refresh crypto config later token
            (call_all crypto config calls (refresh crypto config env token d).1)).0
  unfolding refresh
  token_used_once env later token calls tokens d answer =
      let after = call_all crypto config calls (refresh crypto config env token d).1 in
      transaction_empty after
        (refresh_found crypto config later (presented_row crypto config later token after) after)
        (refresh_found_empty later (presented_row crypto config later token after) after (
          spent_row later token after (
            Moves-IsSpent (crypto.hash_token token)
              (call_all-Moves crypto config calls (refresh crypto config env token d).1)
              (OnOk-ok (SpentOnTurn token) (refresh crypto config env token d) (rotated tokens)
                (OnOk-transaction (SpentOnTurn token)
                  (λ d'.
                    refresh_found crypto config env (presented_row crypto config env token d') d')
                  d
                  (refresh_found-Spent env token (presented_row crypto config env token d) d refl))
                answer))))
