-- ===== src/Identity/Truth.antt =====
-- The moves of users and roles keep the log true.
-- services/identity/src/modules/auth/auth.service.ts
use mathlib.Core.Option
use seapedia.Prelude.{
  append_nil, ℕ, ◌≡◌, refl, sym, ap, ◌∙◌, suc, ◌⊎◌, arith, inl, inr, true, false, none, some, List,
  [], ◌∷◌, ◌++◌, find, find-append, find-append_miss, find-update, find-update_miss, update, All,
  Bool-cases, ◌==◌, eq_of_==, ==-refl,
}
use seapedia.Identity.Schema.{buyer, User, UserRole}
use seapedia.Identity.Roles.{is_user, is_role_of}
use seapedia.Replicas.Users.{UserEvent, learn}
use seapedia.Identity.Chronicle.{
  names, Known, learn_log, learn_log-append, IsTold, IsAfter, told_after, newest-after,
}
use seapedia.Identity.Folk.{
  has_role, Folk, roles_in, truth, IsTruthful, FolkMove, unchanged, joined, changed,
}

-- The next event of a user, and what is known of each user after it.
module _ (log : List UserEvent) (e : UserEvent) (before after : ℕ → Known)
    (known : (id : ℕ) → learn_log id log none ≡ before id) (newer : IsAfter (before e.id) e.version)
    (others : (id : ℕ) → (e.id == id) ≡ false → after id ≡ before id)
    (this : after e.id ≡ some (e.roles, e.version)) where
  known_next : (id : ℕ) → learn_log id (log ++ (e ∷ [])) none ≡ after id
  known_next id =
      learn_log-append id log e none ∙ ap (learn id e) (known id) ∙ at (Bool-cases (e.id == id))
    where
      at : ((e.id == id) ≡ true) ⊎ ((e.id == id) ≡ false) → learn id e (before id) ≡ after id
      at (inr n) = rw (n, others id n)
      at (inl k) =
          let here : e.id ≡ id = eq_of_== e.id id k in
          rw (k, ← here, this) (newest-after (before e.id) e.roles e.version newer)

  told_next : All (IsTold log) log → All (IsTold (log ++ (e ∷ []))) (log ++ (e ∷ []))
  told_next told = told_after log e told (rw (known e.id) newer)

pub roles_in-append :
    (id : ℕ) (rows : List UserRole) (row : UserRole)
    → roles_in id (rows ++ (row ∷ [])) ≡ roles_in id rows ++ roles_in id (row ∷ [])
roles_in-append id [] row = refl
roles_in-append id (r ∷ rows) row = elim (Bool-cases (is_role_of id r)) [
  | inl t ↦ rw t (ap (λ l. r.role ∷ l) (roles_in-append id rows row))
  | inr t ↦ rw t (roles_in-append id rows row)
]

pub other_row :
    (id : ℕ) (rows : List UserRole) (row : UserRole)
    → (row.user_id == id) ≡ false
    → roles_in id (rows ++ (row ∷ [])) ≡ roles_in id rows
other_row id rows row n = rw (roles_in-append id rows row, n) (append_nil (roles_in id rows))

first_row :
    (id : ℕ) (rows : List UserRole) (row : UserRole)
    → roles_in id rows ≡ []
    → row.user_id ≡ id
    → row.role ≡ buyer
    → roles_in id (rows ++ (row ∷ [])) ≡ buyer ∷ []
first_row id rows row e same r = rw (roles_in-append id rows row, e) (mine row same r)
  where
    mine : (x : UserRole) → x.user_id ≡ id → x.role ≡ buyer → roles_in id (x ∷ []) ≡ buyer ∷ []
    mine x same' r' =
        let k : (x.user_id == id) ≡ true = ground (arith, same') in rw k (ap (λ y. y ∷ []) r')

module _ (a : Folk) (h : IsTruthful a) where
  joined-IsTruthful :
      (u : User) (row : UserRole)
      → find (is_user u.id) a.users ≡ none
      → row.user_id ≡ u.id
      → row.role ≡ buyer
      → IsTruthful (record {
        users = a.users ++ (u ∷ []);
        rows = a.rows ++ (row ∷ []);
        log = a.log ++ (record { id = u.id; roles = names (buyer ∷ []); version = u.version } ∷ []);
      })
  joined-IsTruthful u row new same r = record {
    known = known_next a.log e (λ id. truth id a) (λ id. truth id b) h.known newer others this;
    told = told_next a.log e (λ id. truth id a) (λ id. truth id b) h.known newer others this h.told;
    strangers = λ id missing. elim (Bool-cases (u.id == id)) [
      | inl k ↦ absurd (here_now id (eq_of_== u.id id k) missing)
      | inr n ↦
          other_row id a.rows row (rw same n)
          ∙ h.strangers id (sym (find-append_miss (is_user id) a.users u n) ∙ missing)
    ];
    with_role = λ id x found. elim (Bool-cases (u.id == id)) [
      | inl k ↦ rw (← eq_of_== u.id id k, roles)
      | inr n ↦
          rw (other_row id a.rows row (rw same n))
            (h.with_role id x (sym (find-append_miss (is_user id) a.users u n) ∙ found))
    ];
  }
    where
      e : UserEvent
      e = record { id = u.id; roles = names (buyer ∷ []); version = u.version }

      b : Folk
      b = record {
        users = a.users ++ (u ∷ []);
        rows = a.rows ++ (row ∷ []);
        log = a.log ++ (e ∷ []);
      }

      newer : IsAfter (truth u.id a) u.version
      newer = rw new tt

      others : (id : ℕ) → (u.id == id) ≡ false → truth id b ≡ truth id a
      others id n =
          rw (find-append_miss (is_user id) a.users u n, other_row id a.rows row (rw same n))

      roles : roles_in u.id (a.rows ++ (row ∷ [])) ≡ buyer ∷ []
      roles = first_row u.id a.rows row (h.strangers u.id new) same r

      this : truth u.id b ≡ some (names (buyer ∷ []), u.version)
      this = rw (find-append (is_user u.id) a.users u new, ==-refl u.id, Option.map, roles)

      here_now : (id : ℕ) → u.id ≡ id → find (is_user id) (a.users ++ (u ∷ [])) ≡ none → ⊥
      here_now id k missing =
          let found : find (is_user u.id) (a.users ++ (u ∷ [])) ≡ some u =
            rw (find-append (is_user u.id) a.users u new, ==-refl u.id) in
          let missing' : find (is_user u.id) (a.users ++ (u ∷ [])) ≡ none = rw (← k) at missing in
          cc

  changed-IsTruthful :
      (u : User) (f : User → User) (rows : List UserRole)
      → find (is_user u.id) a.users ≡ some u
      → ((x : User) → (f x).id ≡ x.id)
      → (f u).version ≡ suc u.version
      → ((id : ℕ) → (u.id == id) ≡ false → roles_in id rows ≡ roles_in id a.rows)
      → has_role (roles_in u.id rows) ≡ true
      → IsTruthful (record {
        users = update (is_user u.id) f a.users;
        rows = rows;
        log =
            a.log
            ++ (record { id = u.id; roles = names (roles_in u.id rows); version = (f u).version }
                ∷ []);
      })
  changed-IsTruthful u f rows found ids next_version kept buys = record {
    known = known_next a.log e (λ id. truth id a) (λ id. truth id b) h.known newer others this;
    told = told_next a.log e (λ id. truth id a) (λ id. truth id b) h.known newer others this h.told;
    strangers = λ id missing. elim (Bool-cases (u.id == id)) [
      | inl k ↦ absurd (here_now id (eq_of_== u.id id k) missing)
      | inr n ↦ kept id n ∙ h.strangers id (sym (elsewhere id n) ∙ missing)
    ];
    with_role = λ id x there. elim (Bool-cases (u.id == id)) [
      | inl k ↦ rw (← eq_of_== u.id id k) buys
      | inr n ↦ rw (kept id n) (h.with_role id x (sym (elsewhere id n) ∙ there))
    ];
  }
    where
      e : UserEvent
      e = record { id = u.id; roles = names (roles_in u.id rows); version = (f u).version }

      b : Folk
      b = record { users = update (is_user u.id) f a.users; rows = rows; log = a.log ++ (e ∷ []) }

      newer : IsAfter (truth u.id a) (f u).version
      newer = rw (found, Option.map, next_version) (omega arith)

      elsewhere :
          (id : ℕ)
          → (u.id == id) ≡ false
          → find (is_user id) (update (is_user u.id) f a.users) ≡ find (is_user id) a.users
      elsewhere id n =
          find-update_miss (is_user id) (is_user u.id) f a.users (λ x t. ground arith)
            (λ x t. rw (ids x) (ground arith))

      others : (id : ℕ) → (u.id == id) ≡ false → truth id b ≡ truth id a
      others id n = rw (elsewhere id n, kept id n)

      written : find (is_user u.id) (update (is_user u.id) f a.users) ≡ some (f u)
      written =
          find-update (is_user u.id) (is_user u.id) f a.users (λ x. rw (ids x))
          ∙ rw (found, Option.map, ==-refl u.id)

      this : truth u.id b ≡ some (names (roles_in u.id rows), (f u).version)
      this = rw (written, Option.map)

      here_now :
          (id : ℕ) → u.id ≡ id → find (is_user id) (update (is_user u.id) f a.users) ≡ none → ⊥
      here_now id k missing =
          let missing' : find (is_user u.id) (update (is_user u.id) f a.users) ≡ none =
            rw (← k) at missing in
          cc (written)

pub move-IsTruthful : {a b : Folk} → FolkMove a b → IsTruthful a → IsTruthful b
move-IsTruthful (unchanged e) h = rw e h
move-IsTruthful {a} (joined u row new same r e) h = rw e (joined-IsTruthful a h u row new same r)
move-IsTruthful {a} (changed u f rows found ids v kept buys e) h =
    rw e (changed-IsTruthful a h u f rows found ids v kept buys)
