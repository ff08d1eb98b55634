-- ===== src/Replicas/Users.antt =====
-- Replayed and reordered events of identity leave the same replica of the users.
use mathlib.Core.Option
use mathlib.Core.List.{Permᴰ}
use seapedia.Prelude.{
  ℕ, ◌≡◌, refl, sym, ap, ◌∙◌, inl, inr, true, false, Option, none, some, List, [], ◌∷◌, String,
  arith, Bool-cases, Option-cases, find, find-append, find-append_miss, find-update_hit,
  find-update_miss, All, ltb, ◌==◌, if◌then◌else◌, eq_of_==, ==-refl,
}
use seapedia.Db.{UserRef, Db, Env}
use seapedia.Replicas.{is_user, new_user, user_upserted}

-- The data of `identity.user.registered` and `identity.user.updated`, with the version.
pub record UserEvent : Type 0 where
  pub id : ℕ
  pub roles : List String
  pub version : ℕ

unfoldable pub replay : List (Env × UserEvent) → Db → Db
replay [] d = d
replay ((env, e) ∷ es) d = replay es (user_upserted env e.id e.roles e.version d).1

abbrev facts : UserRef → List String × ℕ
facts u = (u.roles, u.version)

-- What the replica knows of a user: all but the time of the sync.
abbrev pub known : ℕ → Db → Option (List String × ℕ)
known id d = Option.map facts (find (is_user id) d.user_refs)

abbrev pub newest : Option (List String × ℕ) → List String → ℕ → Option (List String × ℕ)
newest none roles version = some (roles, version)
newest (some (r, v)) roles version = if ltb v version then some (roles, version) else some (r, v)

abbrev pub learn : ℕ → UserEvent → Option (List String × ℕ) → Option (List String × ℕ)
learn id e o = if e.id == id then newest o e.roles e.version else o

abbrev pub learn_all :
    ℕ → List (Env × UserEvent) → Option (List String × ℕ) → Option (List String × ℕ)
learn_all id [] o = o
learn_all id ((_, e) ∷ es) o = learn_all id es (learn id e o)

newest_comm :
    (o : Option (List String × ℕ)) (r s : List String) (v w : ℕ)
    → (v ≡ w → r ≡ s)
    → newest (newest o r v) s w ≡ newest (newest o s w) r v
newest_comm none r s v w same = ground arith
newest_comm (some (q, u)) r s v w same = ground arith

-- An event carries the roles that the history has for its user at its version.
abbrev pub IsTrue : (ℕ → ℕ → List String) → Env × UserEvent → Type 0
IsTrue history (_, e) = e.roles ≡ history e.id e.version

learn_comm :
    (history : ℕ → ℕ → List String) (id : ℕ) (a b : UserEvent) (o : Option (List String × ℕ))
    → a.roles ≡ history a.id a.version
    → b.roles ≡ history b.id b.version
    → learn id b (learn id a o) ≡ learn id a (learn id b o)
learn_comm history id a b o ha hb = elim (Bool-cases (a.id == id)) [
  | inr n ↦ rw n
  | inl i ↦ rw i (elim (Bool-cases (b.id == id)) [
    | inr n ↦ rw n
    | inl j ↦ rw j (
        newest_comm o a.roles b.roles a.version b.version
          λ v. let k : a.id ≡ b.id = eq_of_== a.id id i ∙ sym (eq_of_== b.id id j) in cc)
  ])
]

learn_perm :
    (history : ℕ → ℕ → List String) (id : ℕ) {es fs : List (Env × UserEvent)}
    → Permᴰ es fs
    → All (IsTrue history) es
    → (o : Option (List String × ℕ))
    → All (IsTrue history) fs × (learn_all id es o ≡ learn_all id fs o)
learn_perm history id Permᴰ.nil h o = (tt, refl)
learn_perm history id (Permᴰ.cons {a} {b} same p) (h, hs) o =
    let (ks, e) = learn_perm history id p hs (learn id a.1 o) in
    ((rw (← same) h, ks), rw (← same) e)
learn_perm history id (Permᴰ.swap {a} {b} {l = l} ea eb) (h, (k, hs)) o = (
  (rw (← eb) k, (rw (← ea) h, hs)),
  rw (← ea, ← eb) (ap (learn_all id l) (learn_comm history id a.1 b.1 o h k)),
)
learn_perm history id (Permᴰ.trans p q) h o =
    let (ks, e) = learn_perm history id p h o in
    let (ls, f) = learn_perm history id q ks o in (ls, e ∙ f)

differs : (i k id : ℕ) → (i == k) ≡ true → (k == id) ≡ false → (i == id) ≡ false
differs i k id h n = ground arith

user_upserted-learn :
    (env : Env) (e : UserEvent) (id : ℕ) (d : Db)
    → known id (user_upserted env e.id e.roles e.version d).1 ≡ learn id e (known id d)
unfolding user_upserted
user_upserted-learn env e id d = elim (Bool-cases (e.id == id)) [
  | inl this ↦ rw this (mine (eq_of_== e.id id this))
  | inr other ↦ rw other (elim (Option-cases (find (is_user e.id) d.user_refs)) [
    | inl missing ↦
        rw (missing, user_upserted)
          (ap (Option.map facts) (find-append_miss (is_user id) d.user_refs row other))
    | inr (u, present) ↦
        rw (present, user_upserted)
          (elim (Bool-cases (ltb u.version e.version)) [
            | inl newer ↦ rw newer (
                ap (Option.map facts) (
                  find-update_miss (is_user id) (is_user e.id) (λ _. row) d.user_refs
                    (λ v t. differs v.id e.id id t other) (λ v t. other)))
            | inr older ↦ rw older
          ])
  ])
]
  where
    row : UserRef
    row = new_user env e.id e.roles e.version

    mine :
        e.id ≡ id
        → known id (user_upserted env e.id e.roles e.version d).1
          ≡ newest (known id d) e.roles e.version
    mine same = rw (← same) (elim (Option-cases (find (is_user e.id) d.user_refs)) [
      | inl missing ↦
          rw (missing, user_upserted)
            (rw (find-append (is_user e.id) d.user_refs row missing, ==-refl e.id))
      | inr (u, present) ↦
          rw (present, user_upserted)
            (elim (Bool-cases (ltb u.version e.version)) [
              | inl newer ↦ rw newer (
                  rw (
                    find-update_hit (is_user e.id) (λ _. row) d.user_refs (λ _. ==-refl e.id)
                      present))
              | inr older ↦ rw (older, present)
            ])
    ])

pub replay_learns :
    (es : List (Env × UserEvent)) (id : ℕ) (d : Db)
    → known id (replay es d) ≡ learn_all id es (known id d)
unfolding replay
replay_learns [] id d = refl
replay_learns ((env, e) ∷ es) id d =
    replay_learns es id (user_upserted env e.id e.roles e.version d).1
    ∙ ap (learn_all id es) (user_upserted-learn env e id d)

-- Deliveries of the same true events in two orders, each with its clock, leave the same knowledge of
-- each user: the roles and the version.
pub replay_order :
    (history : ℕ → ℕ → List String) (es fs : List (Env × UserEvent)) (id : ℕ) (d : Db)
    → Permᴰ es fs
    → All (IsTrue history) es
    → known id (replay es d) ≡ known id (replay fs d)
replay_order history es fs id d p h =
    replay_learns es id d ∙ (learn_perm history id p h (known id d)).1 ∙ sym (replay_learns fs id d)
