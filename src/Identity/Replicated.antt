-- ===== src/Identity/Replicated.antt =====
-- The commerce service's replica of a user is what identity says: the two services composed.
-- services/identity/src/modules, services/commerce/src/modules/catalog-sync/catalog-sync.service.ts
use mathlib.Core.List.{Permᴰ}
use seapedia.Prelude.{ℕ, ◌≡◌, sym, ap, ◌∙◌, Option, none, some, List, [], ◌∷◌, String, All, map}
use seapedia.Platform.Monad.{Env}
use seapedia.Db.{Db}
use seapedia.Identity.Schema.{IdentityDb, Config, Crypto}
use seapedia.Identity.Calls.{
  IdentityCall, registers, logins, refreshes, logouts, selects, onboards, profiles, call, call_all,
}
use seapedia.Identity.Chronicle.{event_in, learn_log, learn_all_log, roles_at, IsTold}
use seapedia.Identity.Folk.{folk_of, truth, IsTruthful, unchanged}
use seapedia.Identity.Truth.{move-IsTruthful}
use seapedia.Identity.Keeps.{
  refresh-Still, logout-Still, select_role-Still, login-Still, register-Joins,
}
use seapedia.Identity.Changes.{onboard-Changes, update_profile-Changes}
use seapedia.Replicas.Users.{
  UserEvent, known, replay, replay_order, replay_learns, learn_all, IsTrue,
}

module _ (crypto : Crypto) (config : Config) where
  call-IsTruthful :
      (env : Env) (c : IdentityCall) (d : IdentityDb)
      → IsTruthful (folk_of d)
      → IsTruthful (folk_of (call crypto config env c d))
  unfolding call
  call-IsTruthful env (registers input) d h =
      move-IsTruthful (register-Joins crypto config env input d) h
  call-IsTruthful env (logins name password) d h =
      move-IsTruthful (unchanged (login-Still crypto config env name password d h)) h
  call-IsTruthful env (refreshes token) d h =
      move-IsTruthful (unchanged (refresh-Still crypto config env token d)) h
  call-IsTruthful env (logouts session token) d h =
      move-IsTruthful (unchanged (logout-Still crypto config env session token d)) h
  call-IsTruthful env (selects user session role) d h =
      move-IsTruthful (unchanged (select_role-Still crypto config env user session role d)) h
  call-IsTruthful env (onboards user session roles) d h =
      move-IsTruthful (onboard-Changes env crypto config user session roles d) h
  call-IsTruthful env (profiles user name avatar) d h =
      move-IsTruthful (update_profile-Changes env user name avatar d h) h

  -- Where the outbox tells the roles and the version of every user, and every user is a buyer, so it is
  -- after any calls, failed ones included: no change of a user goes without its event, the events of a
  -- user have versions that grow, and the login's fallback for a user without roles is not reached.
  pub call_all-IsTruthful :
      (calls : List (Env × IdentityCall)) (d : IdentityDb)
      → IsTruthful (folk_of d)
      → IsTruthful (folk_of (call_all crypto config calls d))
  call_all-IsTruthful [] d h = h
  call_all-IsTruthful ((env, c) ∷ cs) d h =
      call_all-IsTruthful cs (call crypto config env c d) (call-IsTruthful env c d h)

  abbrev roles_or_none : Option (List String) → List String
  roles_or_none none = []
  roles_or_none (some r) = r

  -- The history that the log itself gives.
  abbrev history : List UserEvent → ℕ → ℕ → List String
  history log id v = roles_or_none (roles_at log id v)

  told-IsTrue :
      (log : List UserEvent) (es : List (Env × UserEvent))
      → All (IsTold log) (map event_in es)
      → All (IsTrue (history log)) es
  told-IsTrue log [] _ = tt
  told-IsTrue log ((env, e) ∷ es) (h, hs) = (sym (ap roles_or_none h), told-IsTrue log es hs)

  -- The events that identity has written, delivered once each and in any order, leave the commerce
  -- service knowing of each user what identity has: the roles and the version, or nothing if there is no
  -- such user. This holds after any calls, failed ones included, each with its clock, from a commerce
  -- database that knows nothing of the user, and an identity database in which the events so far tell of
  -- every user what its tables have and one thing at each version, every user has a role, and nobody else
  -- has one.
  pub replicas_agree :
      (calls : List (Env × IdentityCall)) (d : IdentityDb) (sent got : List (Env × UserEvent))
      (id : ℕ) (shop : Db)
      → IsTruthful (folk_of d)
      → map event_in sent ≡ (folk_of (call_all crypto config calls d)).log
      → Permᴰ sent got
      → known id shop ≡ none
      → known id (replay got shop) ≡ truth id (folk_of (call_all crypto config calls d))
  replicas_agree calls d sent got id shop h log order nothing =
      let later = call_all-IsTruthful calls d h in
      let told : All (IsTold (map event_in sent)) (map event_in sent) = rw log later.told in
      sym (
        replay_order (history (map event_in sent)) sent got id shop order
          (told-IsTrue (map event_in sent) sent told))
      ∙ replay_learns sent id shop
      ∙ ap (learn_all id sent) nothing
      ∙ learn_all_log id sent none
      ∙ ap (λ l. learn_log id l none) log
      ∙ later.known id
