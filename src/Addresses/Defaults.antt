-- ===== src/Addresses/Defaults.antt =====
-- A user has at most one default address, whatever the operations on addresses do.
use seapedia.Prelude.{
  ℕ, ◌≡◌, refl, arith, inl, inr, Bool, true, false, not, ◌&&◌, ◌||◌, Option, none, some, List, [],
  ◌∷◌, ◌++◌, Bool-cases, Option-cases, find, find_test, find-All, update, delete, select, sort_by,
  All, All-update, All-select, All-select_test, All-append, All-imp, if◌then◌else◌,
}
use seapedia.Db.{Address, Db, Env}
use seapedia.Addresses.{
  AddressText, AddressPatch, is_of_user, is_address, is_owned, set_default, new_address, patch,
  get_addresses, create_address, update_address, clear_defaults, is_first, or_else, is_other,
  make_default, older, delete_address, set_default_address,
}

-- Every default address of the user is the one of this id.
abbrev Sole : ℕ → ℕ → Address → Type 0
Sole user k a = (is_of_user user a && a.is_default) ≡ true → a.id ≡ k

-- Any two default addresses of the user are one.
abbrev pub HasSoleDefault : ℕ → Db → Type 0
HasSoleDefault user d = (k : ℕ) × All (Sole user k) d.addresses

cleared :
    (env : Env) (user k : ℕ) (a : Address)
    → Sole user k (if is_of_user user a then set_default env false a else a)
cleared env user k a = ground arith

not_mine : (user k : ℕ) (a : Address) → a.is_default ≡ false → Sole user k a
not_mine user k a e = ground arith

create_address-HasSoleDefault :
    (env : Env) (user : ℕ) (text : AddressText) (wanted : Bool) (d : Db)
    → HasSoleDefault user d
    → HasSoleDefault user (create_address env user text wanted d).1
unfolding create_address
create_address-HasSoleDefault env user text wanted d (k, h) =
    go (wanted || is_first (get_addresses user d))
  where
    go :
        (b : Bool)
        → (k' : ℕ) × All (Sole user k') (
            (if b
              then record d { addresses = clear_defaults env user d.addresses }
              else d).addresses
            ++ (new_address env user text b ∷ []))
    go true = (
      env.uuid 0,
      All-append (Sole user (env.uuid 0)) (clear_defaults env user d.addresses)
          (new_address env user text true ∷ [])
          (All-update (Sole user k) (Sole user (env.uuid 0)) (is_of_user user)
            (set_default env false) d.addresses (λ a _. cleared env user (env.uuid 0) a) h)
          ((λ _. refl), tt),
    )
    go false = (
      k,
      All-append (Sole user k) d.addresses (new_address env user text false ∷ []) h
          (not_mine user k (new_address env user text false) refl, tt),
    )

set_default_address-HasSoleDefault :
    (env : Env) (user id : ℕ) (d : Db)
    → HasSoleDefault user d
    → HasSoleDefault user (set_default_address env user id d).1
unfolding set_default_address
set_default_address-HasSoleDefault env user id d (k, h) =
    elim (Option-cases (find (is_owned user id) d.addresses)) [
      | inl e ↦ rw e (k, h)
      | inr (a, e) ↦ rw e (
        id,
        All-update (Sole user id) (Sole user id) (is_address id) (set_default env true)
            (update (is_other user id) (set_default env false) d.addresses) (λ x s. ground arith)
            (All-update (Sole user k) (Sole user id) (is_other user id) (set_default env false)
              d.addresses (λ x _. ground arith) h),
      )
    ]

patched-Sole :
    (env : Env) (user id : ℕ) (p : AddressPatch) (a : Address) (rows : List Address)
    → All (Sole user id) rows
    → All (Sole user id) (update (is_address id) (patch env p a) rows)
patched-Sole env user id p a rows =
    All-update (Sole user id) (Sole user id) (is_address id) (patch env p a) rows
      (λ x s. ground arith)

patched_off :
    (env : Env) (user id k : ℕ) (p : AddressPatch) (a : Address) (rows : List Address)
    → or_else p.is_default a.is_default ≡ false
    → All (Sole user k) rows
    → All (Sole user k) (update (is_address id) (patch env p a) rows)
patched_off env user id k p a rows off =
    All-update (Sole user k) (Sole user k) (is_address id) (patch env p a) rows
      (λ x s. go x s (is_address id x))
  where
    go : (x : Address) → Sole user k x → (b : Bool) → Sole user k (if b then patch env p a x else x)
    go x s true = not_mine user k (patch env p a x) off
    go x s false = s

-- A default address that the user owns is the one of the invariant.
owned_default :
    (user id k : ℕ) (a : Address)
    → is_owned user id a ≡ true
    → a.is_default ≡ true
    → Sole user k a
    → k ≡ id
owned_default user id k a o e s = ground arith

update_address-HasSoleDefault :
    (env : Env) (user id : ℕ) (p : AddressPatch) (d : Db)
    → HasSoleDefault user d
    → HasSoleDefault user (update_address env user id p d).1
unfolding update_address
update_address-HasSoleDefault env user id p d (k, h) =
    elim (Option-cases (find (is_owned user id) d.addresses)) [
      | inl e ↦ rw e (k, h)
      | inr (a, e) ↦ rw e (elim (Bool-cases (or_else p.is_default false && not a.is_default)) [
        | inl fresh ↦ rw fresh (
          id,
          patched-Sole env user id p a (clear_defaults env user d.addresses) (
              All-update (Sole user k) (Sole user id) (is_of_user user) (set_default env false)
                d.addresses (λ x _. cleared env user id x) h),
        )
        | inr kept ↦ rw kept (elim (Bool-cases (or_else p.is_default a.is_default)) [
          | inr off ↦ (k, patched_off env user id k p a d.addresses off h)
          | inl on ↦
              let here : k ≡ id =
                owned_default user id k a (find_test (is_owned user id) d.addresses e)
                  (was_default p.is_default a.is_default kept on)
                  (find-All (Sole user k) (is_owned user id) d.addresses h e) in
              (id, patched-Sole env user id p a d.addresses (rw here at h))
        ])
      ])
    ]
  where
    was_default :
        (o : Option Bool) (b : Bool)
        → (or_else o false && not b) ≡ false
        → or_else o b ≡ true
        → b ≡ true
    was_default none b kept on = on
    was_default (some c) true kept on = refl
    was_default (some c) false kept on = ground arith

no_default :
    (user id k : ℕ) (x : Address)
    → k ≡ id
    → Sole user k x
    → not (is_address id x) ≡ true
    → (is_of_user user x && x.is_default) ≡ false
no_default user id k x e s n = ground arith

delete_address-HasSoleDefault :
    (env : Env) (user id : ℕ) (d : Db)
    → HasSoleDefault user d
    → HasSoleDefault user (delete_address env user id d).1
unfolding delete_address
delete_address-HasSoleDefault env user id d (k, h) =
    elim (Option-cases (find (is_owned user id) d.addresses)) [
      | inl e ↦ rw e (k, h)
      | inr (a, e) ↦ rw e (elim (Bool-cases a.is_default) [
        | inr other ↦
            rw other (k, All-select (Sole user k) (λ x. not (is_address id x)) d.addresses h)
        | inl on ↦
            let here : k ≡ id =
              owned_default user id k a (find_test (is_owned user id) d.addresses e) on
                (find-All (Sole user k) (is_owned user id) d.addresses h e) in
            rw on (
              promoted
                (sort_by older (select (is_of_user user) (delete (is_address id) d.addresses)))
                (delete (is_address id) d.addresses)
                (All-select_test (Sole user k) (λ x. (is_of_user user x && x.is_default) ≡ false)
                  (λ x. not (is_address id x)) d.addresses
                  (λ x s n. no_default user id k x here s n) h))
      ])
    ]
  where
    promoted :
        (next rows : List Address)
        → All (λ x. (is_of_user user x && x.is_default) ≡ false) rows
        → (k' : ℕ) × All (Sole user k') (make_default env next rows)
    promoted [] rows none_left = (
      0,
      All-imp (λ x. (is_of_user user x && x.is_default) ≡ false) (Sole user 0) (λ x n. ground arith)
          rows none_left,
    )
    promoted (next ∷ _) rows none_left = (
      next.id,
      All-update (λ x. (is_of_user user x && x.is_default) ≡ false) (Sole user next.id)
          (is_address next.id) (set_default env true) rows (λ x n. ground arith) none_left,
    )

-- The calls that change the addresses of a user.
pub data AddressCall : Type 0 where
  create : AddressText → Bool → AddressCall
  change : ℕ → AddressPatch → AddressCall
  remove : ℕ → AddressCall
  prefer : ℕ → AddressCall

abbrev call : ℕ → Env → AddressCall → Db → Db
call user env (create text wanted) d = (create_address env user text wanted d).1
call user env (change id p) d = (update_address env user id p d).1
call user env (remove id) d = (delete_address env user id d).1
call user env (prefer id) d = (set_default_address env user id d).1

abbrev pub call_all : ℕ → List (Env × AddressCall) → Db → Db
call_all user [] d = d
call_all user ((env, c) ∷ cs) d = call_all user cs (call user env c d)

call-HasSoleDefault :
    (user : ℕ) (env : Env) (c : AddressCall) (d : Db)
    → HasSoleDefault user d
    → HasSoleDefault user (call user env c d)
call-HasSoleDefault user env (create text wanted) d h =
    create_address-HasSoleDefault env user text wanted d h
call-HasSoleDefault user env (change id p) d h = update_address-HasSoleDefault env user id p d h
call-HasSoleDefault user env (remove id) d h = delete_address-HasSoleDefault env user id d h
call-HasSoleDefault user env (prefer id) d h = set_default_address-HasSoleDefault env user id d h

-- Where any two default addresses of a user are one, that stays so whatever calls the user makes on the
-- addresses, failed ones included.
pub sole_default :
    (user : ℕ) (calls : List (Env × AddressCall)) (d : Db)
    → HasSoleDefault user d
    → HasSoleDefault user (call_all user calls d)
sole_default user [] d h = h
sole_default user ((env, c) ∷ cs) d h =
    sole_default user cs (call user env c d) (call-HasSoleDefault user env c d h)
