-- ===== src/Catalog/Stores.antt =====
-- The stores of the sellers. services/catalog/src/modules/stores
use seapedia.Prelude.{
  ℕ, suc, ◌+◌, Bool, true, false, not, ◌&&◌, ◌||◌, Option, none, some, List, [], ◌∷◌, ◌++◌, String,
  ◌==◌, if◌then◌else◌, is_some, find, update, length,
}
use seapedia.Platform.Monad.{
  ok, err, conflict, not_found, forbidden, constraint, pure, throw, or_throw, transaction, throw_if,
  modify, ◌>>=◌, ◌>>◌, Env,
}
use seapedia.Discounts.Codes.{same_code}
use seapedia.Catalog.Slugs.{Text, lower, unique_slug}
use seapedia.Catalog.Free.{taken_in}
use seapedia.Catalog.Schema.{
  StoreDoc, CatalogEvent, store_upserted, CatalogDb, seller_has_store, name_used, store_missing,
  not_your_store, Action,
}
use seapedia.Identity.Accounts.{or_else, non_empty}
use seapedia.Identity.Profile.{old_object}

abbrev pub is_store : ℕ → StoreDoc → Bool
is_store id s = s.id == id

abbrev pub is_seller : ℕ → StoreDoc → Bool
is_seller seller s = s.seller_id == seller

-- The store that a check leaves out.
abbrev pub is_not : Option ℕ → StoreDoc → Bool
is_not none s = true
is_not (some id) s = not (s.id == id)

-- The collation ignores case.
abbrev pub same_name : Text → Text → Bool
same_name a b = same_code (lower a) (lower b)

unfoldable pub name_taken : Text → Option ℕ → CatalogDb → Bool
name_taken name except d = is_some (find (λ s. same_name s.name name && is_not except s) d.stores)

abbrev pub store_slug : StoreDoc → Text
store_slug s = s.slug

-- One more try than there are stores.
unfoldable pub get_unique_slug : Text → Option ℕ → CatalogDb → Option Text
get_unique_slug name except d =
    unique_slug (taken_in store_slug (is_not except) d.stores) (suc (length d.stores)) name

abbrev pub clashes_with : StoreDoc → StoreDoc → Bool
clashes_with n s =
    s.id == n.id || s.seller_id == n.seller_id || same_code s.slug n.slug || same_name s.name n.name

-- The unique indexes of the collection.
unfoldable pub insert_store : StoreDoc → Action StoreDoc
insert_store s d =
    if is_some (find (clashes_with s) d.stores)
    then (err constraint, d)
    else (ok s, record d { stores = d.stores ++ (s ∷ []) })

abbrev pub enqueue : CatalogEvent → CatalogDb → CatalogDb
enqueue e d = record d { outbox = d.outbox ++ (e ∷ []) }

pub record StoreInput : Type 0 where
  pub name : Text
  pub description : Option String
  pub logo_key : Option String

abbrev pub new_store : Env → ℕ → StoreInput → Text → StoreDoc
new_store env user input slug = record {
  id = env.uuid 0;
  seller_id = user;
  name = input.name;
  slug = slug;
  description = input.description;
  logo_key = non_empty input.logo_key;
  rating = 0;
  review_count = 0;
  total_products = 0;
  version = 1;
  created_at = env.now;
  updated_at = env.now;
}

unfoldable pub insert_and_tell : StoreDoc → Action StoreDoc
insert_and_tell s = do
  created ← insert_store s
  modify (enqueue (store_upserted created))
  pure created

-- Without a slug the loop has not ended: `none` has no counterpart in the code.
unfoldable pub create_with : Env → ℕ → StoreInput → Option Text → Action StoreDoc
create_with env user input none d = (err constraint, d)
create_with env user input (some slug) d =
    transaction (insert_and_tell (new_store env user input slug)) d

unfoldable pub create : Env → ℕ → StoreInput → Action StoreDoc
create env user input d =
    if is_some (find (is_seller user) d.stores)
    then (err (conflict seller_has_store), d)
    else if name_taken input.name none d
    then (err (conflict name_used), d)
    else create_with env user input (get_unique_slug input.name none d) d

unfoldable pub get_by_seller_id : ℕ → Action StoreDoc
get_by_seller_id user = do
  s ← λ d. (ok (find (is_seller user) d.stores), d)
  or_throw s (not_found store_missing)

-- A missing field keeps its value; `null` for the logo is `some none`.
pub record StorePatch : Type 0 where
  pub name : Option Text
  pub description : Option String
  pub logo_key : Option (Option String)

-- `description ?? store.description`
abbrev pub or_first : Option String → Option String → Option String
or_first none b = b
or_first (some a) _ = some a

abbrev pub patched : Env → StorePatch → StoreDoc → Text → StoreDoc → StoreDoc
patched env p before slug s = record s {
  name = or_else p.name before.name;
  slug = slug;
  description = or_first p.description before.description;
  logo_key = or_else p.logo_key before.logo_key;
  updated_at = env.now;
  version = s.version + 1;
}

abbrev pub is_empty_text : Text → Bool
is_empty_text [] = true
is_empty_text (_ ∷ _) = false

-- The new name, if there is one that differs: `input.name && input.name !== store.name`.
abbrev pub renamed : Option Text → Text → Option Text
renamed none old = none
renamed (some name) old = if is_empty_text name || same_code name old then none else some name

-- The other unique indexes: an update that breaks one is refused.
abbrev pub clashes_other : StoreDoc → StoreDoc → Bool
clashes_other n s = not (s.id == n.id) && clashes_with n s

unfoldable pub write_store : Env → StorePatch → StoreDoc → Text → Action StoreDoc
write_store env p before slug d =
    if is_some (find (clashes_other (patched env p before slug before)) d.stores)
    then (err constraint, d)
    else (
      ok (patched env p before slug before),
      enqueue (store_upserted (patched env p before slug before))
          (record d { stores = update (is_store before.id) (patched env p before slug) d.stores }),
    )

unfoldable pub write_with : Env → StorePatch → StoreDoc → Option Text → Action StoreDoc
write_with env p before none d = (err constraint, d)
write_with env p before (some slug) d = transaction (write_store env p before slug) d

unfoldable pub new_slug : StoreDoc → Option Text → Action (Option Text)
new_slug before none d = (ok (some before.slug), d)
new_slug before (some name) d =
    if name_taken name (some before.id) d
    then (err (conflict name_used), d)
    else (ok (get_unique_slug name (some before.id) d), d)

unfoldable pub update_found : Env → StorePatch → Option StoreDoc → Action StoreDoc
update_found env p none = throw (not_found store_missing)
update_found env p (some before) = do
  slug ← new_slug before (renamed p.name before.name)
  after ← write_with env p before slug
  modify (λ d. record d {
    deleted_objects = d.deleted_objects ++ old_object env p.logo_key before.logo_key;
  })
  pure after

unfoldable pub update_store : Env → ℕ → StorePatch → Action StoreDoc
update_store env user p d = update_found env p (find (is_seller user) d.stores) d

-- Whether a logo may be uploaded; the answer is the storage's.
unfoldable pub presign_logo : ℕ → ℕ → Action (Unit {0})
presign_logo user store = do
  found ← λ d. (ok (find (is_store store) d.stores), d)
  s ← or_throw found (not_found store_missing)
  throw_if (not (s.seller_id == user)) (forbidden not_your_store)

-- A text of a request: its code points, and the uuid that it reads as.
pub record SlugOrId : Type 0 where
  pub text : Text
  pub uuid : Option ℕ

abbrev pub by_id : Option ℕ → List StoreDoc → Option StoreDoc
by_id none stores = none
by_id (some id) stores = find (is_store id) stores

abbrev pub or_option {ℓ} : {A : Type ℓ} → Option A → Option A → Option A
or_option none b = b
or_option (some a) _ = some a

unfoldable pub find_public : SlugOrId → CatalogDb → Option StoreDoc
find_public q d = or_option (by_id q.uuid d.stores) (
    or_option (find (λ s. same_code s.slug (lower q.text)) d.stores)
      (find (λ s. same_name s.name q.text) d.stores))

unfoldable pub get_public : SlugOrId → Action StoreDoc
get_public q = do found ← λ d. (ok (find_public q d), d); or_throw found (not_found store_missing)
