-- ===== src/Catalog/Created.antt =====
-- A seller gets a store. services/catalog/src/modules/stores/stores.service.ts
use seapedia.Prelude.{
  ℕ, suc, ◌≡◌, refl, arith, inl, inr, Bool, true, false, ◌&&◌, ◌||◌, none, List, [], ◌∷◌, is_some,
  find, length, Bool-cases,
}
use seapedia.Platform.Monad.{Env, ok}
use seapedia.Discounts.Codes.{same_code}
use seapedia.Catalog.Slugs.{Text, candidate, slugify}
use seapedia.Catalog.Free.{taken_in, unique_slug_found}
use seapedia.Catalog.Schema.{CatalogDb}
use seapedia.Catalog.Stores.{
  is_store, is_seller, is_not, same_name, name_taken, store_slug, get_unique_slug, clashes_with,
  insert_store, new_store, insert_and_tell, create_with, create, StoreInput,
}

find_either :
    {A : Type 0} (p q : A → Bool) (xs : List A)
    → find p xs ≡ none
    → find q xs ≡ none
    → find (λ x. p x || q x) xs ≡ none
find_either p q [] e f = refl
find_either p q (x ∷ xs) e f = elim (Bool-cases (p x)) [
  | inl t ↦ cc (rw t at e)
  | inr t ↦ elim (Bool-cases (q x)) [
    | inl u ↦ cc (rw u at f)
    | inr u ↦ rw (t, u) (find_either p q xs (rw t at e) (rw u at f))
  ]
]

and_true :
    {A : Type 0} (p : A → Bool) (xs : List A)
    → is_some (find (λ x. p x && true) xs) ≡ false
    → find p xs ≡ none
and_true p [] e = refl
and_true p (x ∷ xs) e = elim (Bool-cases (p x)) [
  | inl t ↦ cc (rw t at e)
  | inr t ↦ rw t (and_true p xs (rw t at e))
]

-- A seller without a store who asks for one under a name that no store has, in any case, gets it: the
-- search for a slug ends, with the slug of the name or that slug and a number, no store has the slug, and
-- the insert meets none of the unique indexes, if the store's uuid is new.
pub create_store_succeeds :
    (env : Env) (user : ℕ) (input : StoreInput) (d : CatalogDb)
    → find (is_seller user) d.stores ≡ none
    → name_taken input.name none d ≡ false
    → find (is_store (env.uuid 0)) d.stores ≡ none
    → (slug : Text) × (((create env user input d).0 ≡ ok (new_store env user input slug))
        × ((taken_in store_slug (is_not none) d.stores slug ≡ false)
            × ((n : ℕ) × (slug ≡ candidate (slugify input.name) n))))
unfolding create create_with insert_and_tell insert_store name_taken get_unique_slug
create_store_succeeds env user input d no_store free_name fresh =
    let (slug, (found, (free, form))) =
      unique_slug_found store_slug (is_not none) input.name (suc (length d.stores)) d.stores
        (omega arith) in
    let s = new_store env user input slug in
    let open_slug : find (λ x. same_code x.slug slug) d.stores ≡ none =
      and_true (λ x. same_code x.slug slug) d.stores free in
    let open_name : find (λ x. same_name x.name input.name) d.stores ≡ none =
      and_true (λ x. same_name x.name input.name) d.stores free_name in
    let clear : find (clashes_with s) d.stores ≡ none =
      find_either (λ x. is_store (env.uuid 0) x || is_seller user x || same_code x.slug slug)
        (λ x. same_name x.name input.name) d.stores
        (find_either (λ x. is_store (env.uuid 0) x || is_seller user x) (λ x. same_code x.slug slug)
          d.stores (find_either (is_store (env.uuid 0)) (is_seller user) d.stores fresh no_store)
          open_slug)
        open_name in
    (slug, (rw (no_store, free_name, found, clear), (free, form)))
