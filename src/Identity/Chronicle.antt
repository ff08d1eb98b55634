-- ===== src/Identity/Chronicle.antt =====
-- The events of users as a log: what a reader of the whole log knows of a user.
-- services/identity/src/modules/events/events.ts
use mathlib.Core.Option
use seapedia.Prelude.{
  ℕ, ◌≡◌, refl, ap, ◌≤◌, ◌<◌, arith, inl, inr, Bool, true, false, ◌&&◌, Option, none, some, List,
  [], ◌∷◌, ◌++◌, map, String, find, find-append, find-append_hit, All, All-append, All-imp,
  Bool-cases, ◌==◌, ==-refl,
}
use seapedia.Db.{Env}
use seapedia.Identity.Schema.{
  Role, admin, seller, buyer, driver, IdentityEvent, user_event, session_revoked,
}
use seapedia.Replicas.Users.{UserEvent, newest, learn, learn_all}

abbrev pub role_name : Role → String
role_name admin = "admin"
role_name seller = "seller"
role_name buyer = "buyer"
role_name driver = "driver"

abbrev pub names : List Role → List String
names = map role_name

-- The user events of an outbox, as the other services get them.
abbrev pub user_log : List IdentityEvent → List UserEvent
user_log [] = []
user_log (user_event _ facts version ∷ es) =
    record { id = facts.id; roles = names facts.roles; version = version } ∷ user_log es
user_log (session_revoked _ _ ∷ es) = user_log es

pub user_log-append :
    (es fs : List IdentityEvent) → user_log (es ++ fs) ≡ user_log es ++ user_log fs
user_log-append [] fs = refl
user_log-append (user_event _ facts version ∷ es) fs =
    ap (λ r. record { id = facts.id; roles = names facts.roles; version = version } ∷ r)
      (user_log-append es fs)
user_log-append (session_revoked _ _ ∷ es) fs = user_log-append es fs

abbrev pub Known : Type 0
Known = Option (List String × ℕ)

-- What the log says of a user, in its order.
abbrev pub learn_log : ℕ → List UserEvent → Known → Known
learn_log id [] o = o
learn_log id (e ∷ es) o = learn_log id es (learn id e o)

abbrev pub event_in : Env × UserEvent → UserEvent
event_in (_, e) = e

pub learn_all_log :
    (id : ℕ) (es : List (Env × UserEvent)) (o : Known)
    → learn_all id es o ≡ learn_log id (map event_in es) o
learn_all_log id [] o = refl
learn_all_log id ((_, e) ∷ es) o = learn_all_log id es (learn id e o)

pub learn_log-append :
    (id : ℕ) (es : List UserEvent) (e : UserEvent) (o : Known)
    → learn_log id (es ++ (e ∷ [])) o ≡ learn id e (learn_log id es o)
learn_log-append id [] e o = refl
learn_log-append id (x ∷ es) e o = learn_log-append id es e (learn id x o)

-- A version up to the one that is known.
abbrev Bounds : Known → ℕ → Type 0
Bounds none v = ⊥
Bounds (some (_, w)) v = v ≤ w

Bounds-learn : (id : ℕ) (e : UserEvent) (o : Known) (v : ℕ) → Bounds o v → Bounds (learn id e o) v
Bounds-learn id e none v h = absurd h
Bounds-learn id e (some (r, w)) v h = ground arith

Bounds-learn_log :
    (id : ℕ) (es : List UserEvent) (o : Known) (v : ℕ) → Bounds o v → Bounds (learn_log id es o) v
Bounds-learn_log id [] o v h = h
Bounds-learn_log id (e ∷ es) o v h =
    Bounds-learn_log id es (learn id e o) v (Bounds-learn id e o v h)

learned_Bounds :
    (id : ℕ) (e : UserEvent) (o : Known) → (e.id == id) ≡ true → Bounds (learn id e o) e.version
learned_Bounds id e none k = rw k (omega arith)
learned_Bounds id e (some (r, w)) k = ground arith

-- What is known of a user is as new as each event of the user.
log-Bounds :
    (id : ℕ) (es : List UserEvent) (o : Known)
    → All (λ e. (e.id == id) ≡ true → Bounds (learn_log id es o) e.version) es
log-Bounds id [] o = tt
log-Bounds id (e ∷ es) o = (
  λ k. Bounds-learn_log id es (learn id e o) e.version (learned_Bounds id e o k),
  log-Bounds id es (learn id e o),
)

abbrev is_at : ℕ → ℕ → UserEvent → Bool
is_at id v e = e.id == id && e.version == v

abbrev pub roles_at : List UserEvent → ℕ → ℕ → Option (List String)
roles_at es id v = Option.map (λ (e : UserEvent). e.roles) (find (is_at id v) es)

-- The log gives one answer for the event's user and version: its roles.
abbrev pub IsTold : List UserEvent → UserEvent → Type 0
IsTold es e = roles_at es e.id e.version ≡ some e.roles

-- A version after what is known.
abbrev pub IsAfter : Known → ℕ → Type 0
IsAfter none v = Unit
IsAfter (some (_, w)) v = w < v

fresh_version :
    (id v : ℕ) (o : Known) (es : List UserEvent)
    → All (λ e. (e.id == id) ≡ true → Bounds o e.version) es
    → IsAfter o v
    → find (is_at id v) es ≡ none
fresh_version id v o [] _ _ = refl
fresh_version id v none (e ∷ es) (h, hs) after = elim (Bool-cases (e.id == id)) [
  | inl k ↦ absurd (h k)
  | inr n ↦ rw n (fresh_version id v none es hs after)
]
fresh_version id v (some (r, w)) (e ∷ es) (h, hs) after = elim (Bool-cases (e.id == id)) [
  | inl k ↦
      let low = h k in
      let other : (e.version == v) ≡ false = ground arith in
      rw (k, other) (fresh_version id v (some (r, w)) es hs after)
  | inr n ↦ rw n (fresh_version id v (some (r, w)) es hs after)
]

IsTold-append : (es fs : List UserEvent) (e : UserEvent) → IsTold es e → IsTold (es ++ fs) e
IsTold-append es fs e h = go (find (is_at e.id e.version) es) refl h
  where
    go :
        (o : Option UserEvent)
        → find (is_at e.id e.version) es ≡ o
        → Option.map (λ (x : UserEvent). x.roles) o ≡ some e.roles
        → IsTold (es ++ fs) e
    go none f h = cc
    go (some x) f h = rw (find-append_hit (is_at e.id e.version) es fs f) h

-- An event with a later version keeps the log consistent, and is what the reader knows next.
pub told_after :
    (es : List UserEvent) (e : UserEvent)
    → All (IsTold es) es
    → IsAfter (learn_log e.id es none) e.version
    → All (IsTold (es ++ (e ∷ []))) (es ++ (e ∷ []))
told_after es e told after =
    All-append (IsTold (es ++ (e ∷ []))) es (e ∷ [])
      (All-imp (IsTold es) (IsTold (es ++ (e ∷ []))) (IsTold-append es (e ∷ [])) es told)
      (
        rw
            (
              find-append (is_at e.id e.version) es e (
                  fresh_version e.id e.version (learn_log e.id es none) es (log-Bounds e.id es none)
                    after),
              ==-refl e.id,
              ==-refl e.version,
            )
            refl,
        tt,
      )

pub newest-after :
    (o : Known) (roles : List String) (v : ℕ) → IsAfter o v → newest o roles v ≡ some (roles, v)
newest-after none roles v h = refl
newest-after (some (r, w)) roles v h = ground arith
