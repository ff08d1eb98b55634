-- ===== src/Cart/Summary.antt =====
-- `getCartSummary`
use seapedia.Prelude.{ℕ, ◌*◌, Option, none, some, List, [], ◌∷◌, String, ◌==◌, find, select, sum_by}
use seapedia.Db.{Cart, CartItem, ProductRef, Stock, StoreRef, Db, Action, gets, ◌>>=◌, Env}
use seapedia.Cart.{get_or_create_cart, is_item_of}

pub record SummaryItem : Type 0 where
  pub id : ℕ
  pub product_id : ℕ
  pub quantity : ℕ
  pub name : String
  pub slug : String
  pub price : ℕ
  pub stock : ℕ
  pub created_at : ℕ
  pub updated_at : ℕ

abbrev pub summary_item :
    CartItem → Option ProductRef → Option Stock → List SummaryItem → List SummaryItem
summary_item c (some p) (some s) rest =
    record {
      id = c.id;
      product_id = c.product_id;
      quantity = c.quantity;
      name = p.name;
      slug = p.slug;
      price = p.price;
      stock = s.stock;
      created_at = c.created_at;
      updated_at = c.updated_at;
    }
    ∷ rest
summary_item c _ _ rest = rest

unfoldable pub summary_items : Db → List CartItem → List SummaryItem
summary_items d [] = []
summary_items d (c ∷ cs) =
    summary_item c (find (λ (p : ProductRef). p.id == c.product_id) d.product_refs)
      (find (λ (s : Stock). s.product_id == c.product_id) d.inventory) (summary_items d cs)

pub record CartSummary : Type 0 where
  pub id : ℕ
  pub buyer_id : ℕ
  pub store_id : Option ℕ
  pub store_name : Option String
  pub store_slug : Option String
  pub items : List SummaryItem
  pub subtotal : ℕ
  pub total_items : ℕ
  pub created_at : ℕ
  pub updated_at : ℕ

abbrev store_of : Db → Option ℕ → Option StoreRef
store_of d none = none
store_of d (some id) = find (λ (s : StoreRef). s.id == id) d.store_refs

abbrev name_of : Option StoreRef → Option String
name_of none = none
name_of (some s) = some s.name

abbrev slug_of : Option StoreRef → Option String
slug_of none = none
slug_of (some s) = some s.slug

abbrev pub summarize : Cart → Db → CartSummary
summarize cart d =
    let items = summary_items d (select (is_item_of cart.id) d.cart_items) in
    record {
      id = cart.id;
      buyer_id = cart.buyer_id;
      store_id = cart.store_id;
      store_name = name_of (store_of d cart.store_id);
      store_slug = slug_of (store_of d cart.store_id);
      items = items;
      subtotal = sum_by (λ i. i.price * i.quantity) items;
      total_items = sum_by (λ i. i.quantity) items;
      created_at = cart.created_at;
      updated_at = cart.updated_at;
    }

unfoldable pub get_cart_summary : Env → ℕ → Action CartSummary
unfolding get_or_create_cart summary_items
get_cart_summary env buyer = do cart ← get_or_create_cart env buyer; gets (summarize cart)
