-- ===== src/Identity/Avatars.antt =====
-- The objects that a change of avatar deletes. services/identity/src/modules/users/users.service.ts
use mathlib.Core.Option
use seapedia.Prelude.{
  ◌≡◌, refl, ◌∙◌, ◌+◌, ◌<◌, arith, true, false, Option, none, some, List, [], ◌∷◌, ◌++◌, String,
  ltb, find, find-update, find-update_miss, update, ◌==◌, ==-refl,
}
use seapedia.Platform.Monad.{Env, max_int}
use seapedia.Identity.Schema.{same_text, User, IdentityDb}
use seapedia.Identity.Roles.{is_user}
use seapedia.Identity.Accounts.{enqueue_user}
use seapedia.Identity.Profile.{
  bump_user, profile, old_object, publish_profile, update_found, update_profile,
}

-- What an update of the avatar does, where the user is there and the version has room.
update_profile-Written :
    (env : Env) (avatar : Option (Option String)) (u : User) (d : IdentityDb)
    → find (is_user u.id) d.users ≡ some u
    → u.version < max_int
    → ((update_profile env u.id none avatar d).1.users
        ≡ update (is_user u.id) (profile env none avatar u) d.users)
      × ((update_profile env u.id none avatar d).1.deleted_objects
          ≡ d.deleted_objects ++ old_object env avatar u.avatar_key)
unfolding update_profile update_found publish_profile bump_user enqueue_user
update_profile-Written env avatar u d there room =
    let low : ltb u.version max_int ≡ true = ground arith in rw (there, low) (refl, refl)

-- A user who names any object as the avatar and then takes it off has the storage delete that object,
-- although it is another user's avatar: the row of the other user keeps the key of the deleted object. The
-- key is not empty, and the version of the user has room for both writes.
pub foreign_avatar_deleted :
    (env later : Env) (u v : User) (key : String) (d : IdentityDb)
    → find (is_user u.id) d.users ≡ some u
    → find (is_user v.id) d.users ≡ some v
    → (u.id == v.id) ≡ false
    → v.avatar_key ≡ some key
    → same_text key "" ≡ false
    → u.version + 1 < max_int
    → let named = (update_profile env u.id none (some (some key)) d).1 in
      let after = (update_profile later u.id none (some none) named).1 in
      (find (is_user v.id) after.users ≡ some v)
      × (after.deleted_objects ≡ named.deleted_objects ++ (key ∷ []))
foreign_avatar_deleted env later u v key d there other distinct has full room =
    let (users, _) = update_profile-Written env (some (some key)) u d there (omega arith) in
    let u' : User = profile env none (some (some key)) u u in
    let named = (update_profile env u.id none (some (some key)) d).1 in
    let there' : find (is_user u.id) named.users ≡ some u' = rw users (
      find-update (is_user u.id) (is_user u.id) (profile env none (some (some key)) u) d.users
        (λ _. refl)
      ∙ rw (there, Option.map, ==-refl u.id)) in
    let (users', gone) = update_profile-Written later (some none) u' named there' room in
    (
      rw (users', users)
          (kept later (some none) u'
              (update (is_user u.id) (profile env none (some (some key)) u) d.users)
            ∙ kept env (some (some key)) u d.users
            ∙ other),
      gone ∙ rw full,
    )
  where
    kept :
        (e : Env) (avatar : Option (Option String)) (w : User) (us : List User)
        → find (is_user v.id) (update (is_user u.id) (profile e none avatar w) us)
          ≡ find (is_user v.id) us
    kept e avatar w us =
        find-update_miss (is_user v.id) (is_user u.id) (profile e none avatar w) us
          (λ x t. ground arith) (λ x t. ground arith)
