-- ===== src/Catalog/StoreTotals.antt =====
-- Calls on stores keep the number of products of a store in step. services/catalog/src/modules/stores
use seapedia.Prelude.{
  ℕ, ◌≡◌, refl, arith, inl, inr, Option, none, some, is_some, find, find-none, Bool-cases,
  Option-cases,
}
use seapedia.Platform.Monad.{Env}
use seapedia.Platform.Rules.{OnOk, OnOk-of_state, transaction_state, continue_state}
use seapedia.Catalog.Slugs.{Text}
use seapedia.Catalog.Schema.{StoreDoc, CatalogDb}
use seapedia.Catalog.Stores.{
  is_store, is_seller, clashes_with, insert_store, new_store, insert_and_tell, create_with, create,
  StoreInput, StorePatch, patched, clashes_other, write_store, write_with, new_slug, update_found,
  update_store, name_taken, get_unique_slug, renamed,
}
use seapedia.Catalog.Products.{tell_store}
use seapedia.Catalog.Counted.{IsCounted, IsCounted-open, IsCounted-stores}

abbrev pub HasTotals : CatalogDb → Type 0
HasTotals d = IsCounted d.stores d.products

abbrev pub Ends : {A : Type 0} → A → CatalogDb → Type 0
Ends _ d = HasTotals d

pub tell_store-HasTotals :
    (o : Option StoreDoc) (d : CatalogDb) → HasTotals d → HasTotals (tell_store o d)
tell_store-HasTotals none d h = h
tell_store-HasTotals (some s) d h = h

module _ (env : Env) where
  insert_and_tell-HasTotals :
      (s : StoreDoc) (d : CatalogDb)
      → s.total_products ≡ 0
      → HasTotals d
      → OnOk Ends (insert_and_tell s d)
  unfolding insert_and_tell insert_store
  insert_and_tell-HasTotals s d empty h = elim (Option-cases (find (clashes_with s) d.stores)) [
    | inr (x, f) ↦ rw f tt
    | inl f ↦ rw f (
        IsCounted-open s d.stores d.products
          (find-none (is_store s.id) (clashes_with s) d.stores (λ x n. ground arith) f) empty h)
  ]

  create_with-HasTotals :
      (user : ℕ) (input : StoreInput) (slug : Option Text) (d : CatalogDb)
      → HasTotals d
      → HasTotals (create_with env user input slug d).1
  unfolding create_with
  create_with-HasTotals user input none d h = h
  create_with-HasTotals user input (some slug) d h =
      transaction_state HasTotals (insert_and_tell (new_store env user input slug)) d h
        (insert_and_tell-HasTotals (new_store env user input slug) d refl h)

  pub create-HasTotals :
      (user : ℕ) (input : StoreInput) (d : CatalogDb)
      → HasTotals d
      → HasTotals (create env user input d).1
  unfolding create
  create-HasTotals user input d h = elim (Bool-cases (is_some (find (is_seller user) d.stores))) [
    | inl e ↦ rw e h
    | inr e ↦ rw e (elim (Bool-cases (name_taken input.name none d)) [
      | inl f ↦ rw f h
      | inr f ↦ rw f (create_with-HasTotals user input (get_unique_slug input.name none d) d h)
    ])
  ]

  write_store-HasTotals :
      (p : StorePatch) (before : StoreDoc) (slug : Text) (d : CatalogDb)
      → HasTotals d
      → HasTotals (write_store env p before slug d).1
  unfolding write_store
  write_store-HasTotals p before slug d h =
      elim (Bool-cases
        (is_some (find (clashes_other (patched env p before slug before)) d.stores))) [
          | inl e ↦ rw e h
          | inr e ↦ rw e (
              IsCounted-stores (is_store before.id) (patched env p before slug) d.stores d.products
                (λ _. refl) (λ _. refl) h)
        ]

  write_with-HasTotals :
      (p : StorePatch) (before : StoreDoc) (slug : Option Text) (d : CatalogDb)
      → HasTotals d
      → HasTotals (write_with env p before slug d).1
  unfolding write_with
  write_with-HasTotals p before none d h = h
  write_with-HasTotals p before (some slug) d h =
      transaction_state HasTotals (write_store env p before slug) d h (
        OnOk-of_state HasTotals (write_store env p before slug d)
          (write_store-HasTotals p before slug d h))

  new_slug-same :
      (before : StoreDoc) (name : Option Text) (d : CatalogDb)
      → HasTotals d
      → HasTotals (new_slug before name d).1
  unfolding new_slug
  new_slug-same before none d h = h
  new_slug-same before (some name) d h = elim (Bool-cases (name_taken name (some before.id) d)) [
    | inl e ↦ rw e h
    | inr e ↦ rw e h
  ]

  pub update_store-HasTotals :
      (user : ℕ) (p : StorePatch) (d : CatalogDb)
      → HasTotals d
      → HasTotals (update_store env user p d).1
  unfolding update_store update_found
  update_store-HasTotals user p d h = go (find (is_seller user) d.stores)
    where
      go : (o : Option StoreDoc) → HasTotals (update_found env p o d).1
      go none = h
      go (some before) =
          continue_state HasTotals (new_slug before (renamed p.name before.name) d) _
            (new_slug-same before (renamed p.name before.name) d h)
            (λ slug d₁ h₁.
              continue_state HasTotals (write_with env p before slug d₁) _
                (write_with-HasTotals p before slug d₁ h₁) (λ _ d₂ h₂. h₂))
