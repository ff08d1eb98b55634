-- ===== src/Orders/Grouped.antt =====
-- What the lists of orders show, next to the details of the same orders.
-- services/commerce/src/modules/orders/orders-seller.service.ts, orders-buyer.service.ts
use seapedia.Prelude.{
  find_own, append_nil, append_assoc, ℕ, ◌==◌, ◌≡◌, refl, sym, ◌∙◌, ap, inl, inr, Bool, true, false,
  Option, none, some, List, [], ◌∷◌, ◌++◌, map, arith, leb, ==-refl, eq_of_==, if◌then◌else◌,
  Bool-cases, Option-cases, All, find, select, All-select_test, find-narrow, IsKeyed, All-sort_by,
}
use seapedia.Db.{Order, OrderItem, StoreRef, Db, Action, ok}
use seapedia.Orders.Detail.{
  OrderDetail, is_order, is_part_of, is_order_of_store, is_order_of_buyer, is_store_of,
  seller_detail, buyer_detail,
}
use seapedia.Orders.Reports.{
  OrderRow, MappedItem, ListedOrder, Group, mapped, add_item, items_by_order_id, items_of, is_met,
  joined_items, with_names, orders_list, formatted_orders, is_at_store, is_bought_by, list_of_store,
  seller_list, buyer_list,
}

-- What an item adds to the items of an order.
abbrev share : ℕ → OrderItem → List MappedItem
share id i = if i.order_id == id then mapped i ∷ [] else []

items_of-add_item :
    (i : OrderItem) (gs : List Group) (id : ℕ)
    → items_of (add_item i gs) id ≡ items_of gs id ++ share id i
items_of-add_item i [] id = ground arith
items_of-add_item i (g ∷ gs) id = elim (Bool-cases (g.order_id == i.order_id)) [
  | inl e ↦ elim (Bool-cases (g.order_id == id)) [
    | inl k ↦ let same : (i.order_id == id) ≡ true = ground arith in rw (e, k, same)
    | inr k ↦
        let other : (i.order_id == id) ≡ false = ground arith in
        rw (e, k, other) (sym (append_nil (items_of gs id)))
  ]
  | inr e ↦ elim (Bool-cases (g.order_id == id)) [
    | inl k ↦
        let other : (i.order_id == id) ≡ false = ground arith in
        rw (e, k, other) (sym (append_nil g.items))
    | inr k ↦ rw (e, k, items_of-add_item i gs id)
  ]
]

-- Grouping in one pass selects every order's items, in their order.
items_of-items_by_order_id :
    (is : List OrderItem) (acc : List Group) (id : ℕ)
    → items_of (items_by_order_id is acc) id
      ≡ items_of acc id ++ map mapped (select (is_part_of id) is)
items_of-items_by_order_id [] acc id = sym (append_nil (items_of acc id))
items_of-items_by_order_id (i ∷ is) acc id =
    items_of-items_by_order_id is (add_item i acc) id
    ∙ ap (λ r. r ++ map mapped (select (is_part_of id) is)) (items_of-add_item i acc id)
    ∙ append_assoc (items_of acc id) (share id i) (map mapped (select (is_part_of id) is))
    ∙ ap (λ r. items_of acc id ++ r) here
  where
    here :
        share id i ++ map mapped (select (is_part_of id) is)
        ≡ map mapped (select (is_part_of id) (i ∷ is))
    here = elim (Bool-cases (i.order_id == id)) [ inl e ↦ rw e | inr e ↦ rw e ]

-- The join keeps the items of an order that meets its test.
select-joined_items :
    (p : Order → Bool) (os : List Order) (is : List OrderItem) (o : Order)
    → find (is_order o.id) os ≡ some o
    → p o ≡ true
    → select (is_part_of o.id) (select (λ i. is_met p (find (is_order i.order_id) os)) is)
      ≡ select (is_part_of o.id) is
select-joined_items p os [] o e t = refl
select-joined_items p os (i ∷ is) o e t = elim (Bool-cases (i.order_id == o.id)) [
  | inl k ↦
      let met : is_met p (find (is_order i.order_id) os) ≡ true =
        rw (eq_of_== i.order_id o.id k, e, t) in
      rw (met, k, select-joined_items p os is o e t)
  | inr k ↦ elim (Bool-cases (is_met p (find (is_order i.order_id) os))) [
    | inl m ↦ rw (m, k, select-joined_items p os is o e t)
    | inr m ↦ rw (m, k, select-joined_items p os is o e t)
  ]
]

-- A row of a list: the order that is found by its id, and its store's name.
abbrev IsListed : (Order → Bool) → Db → OrderRow → Type 0
IsListed p d r =
    (find (is_order r.order.id) d.orders ≡ some r.order)
    × (p r.order ≡ true)
    × ((s : StoreRef) × (find (λ (s : StoreRef). s.id == r.order.store_id) d.store_refs ≡ some s)
        × (r.store_name ≡ s.name))

IsListed-with_names :
    (p : Order → Bool) (d : Db) (os : List Order)
    → All (λ o. (find (is_order o.id) d.orders ≡ some o) × (p o ≡ true)) os
    → All (IsListed p d) (with_names d.store_refs os)
IsListed-with_names p d [] _ = tt
IsListed-with_names p d (o ∷ os) ((e, t), rest) =
    elim (Option-cases (find (λ (s : StoreRef). s.id == o.store_id) d.store_refs)) [
      | inl n ↦ rw n (IsListed-with_names p d os rest)
      | inr (s, n) ↦ rw n ((e, t, (s, n, refl)), IsListed-with_names p d os rest)
    ]

orders_list-IsListed :
    (p : Order → Bool) (d : Db)
    → IsKeyed (λ o. o.id) d.orders
    → All (IsListed p d) (orders_list p d)
orders_list-IsListed p d keyed =
    All-sort_by (IsListed p d) (λ (r q : OrderRow). leb q.order.created_at r.order.created_at)
      (with_names d.store_refs (select p d.orders))
      (IsListed-with_names p d (select p d.orders) (
        All-select_test (λ o. find (is_order o.id) d.orders ≡ some o)
          (λ o. (find (is_order o.id) d.orders ≡ some o) × (p o ≡ true)) p d.orders
          (λ o e t. (e, t)) (find_own (λ o. o.id) d.orders keyed)))

All-map :
    {A B : Type 0} (P : A → Type 0) (Q : B → Type 0) (f : A → B)
    → ((x : A) → P x → Q (f x))
    → (xs : List A) → All P xs
    → All Q (map f xs)
All-map P Q f h [] _ = tt
All-map P Q f h (x ∷ xs) (a, as') = (h x a, All-map P Q f h xs as')

-- The read of one order answers with what the list shows of it.
abbrev pub IsShown : Action OrderDetail → Db → ListedOrder → Type 0
IsShown read d e =
    (v : OrderDetail) × (read d ≡ (ok v, d))
    × (v.order ≡ e.row.order)
    × (v.store_name ≡ e.row.store_name)
    × (map mapped v.items ≡ e.items)

formatted_orders-IsShown :
    (p : Order → Bool) (read : ℕ → Action OrderDetail) (d : Db)
    → ((r : OrderRow)
        → IsListed p d r
        → (v : OrderDetail) × (read r.order.id d ≡ (ok v, d))
          × (v.order ≡ r.order)
          × (v.store_name ≡ r.store_name)
          × (v.items ≡ select (is_part_of r.order.id) d.order_items))
    → IsKeyed (λ o. o.id) d.orders
    → All (λ e. IsShown (read e.row.order.id) d e) (formatted_orders p d)
formatted_orders-IsShown p read d reads keyed =
    All-map (IsListed p d) (λ e. IsShown (read e.row.order.id) d e)
      (λ (r : OrderRow). record {
        row = r;
        items = items_of (items_by_order_id (joined_items p d) []) r.order.id;
      })
      (λ r (e, t, s).
        let (v, a, b, c, i) = reads r (e, t, s) in
        (
          v,
          a,
          b,
          c,
          (ap (λ l. map mapped l)
                (i ∙ sym (select-joined_items p d.orders d.order_items r.order e t))
              ∙ sym (items_of-items_by_order_id (joined_items p d) [] r.order.id)),
        ))
      (orders_list p d) (orders_list-IsListed p d keyed)

-- Where order ids are unique, every order of a buyer's list can be read in detail by that buyer, and
-- the detail has the order, the store's name and the items that the list shows.
pub buyer_list-buyer_detail :
    (buyer : ℕ) (d : Db)
    → IsKeyed (λ o. o.id) d.orders
    → All (λ e. IsShown (buyer_detail buyer e.row.order.id) d e) (buyer_list buyer d)
unfolding buyer_list buyer_detail
buyer_list-buyer_detail buyer d =
    formatted_orders-IsShown (is_bought_by buyer) (buyer_detail buyer) d (λ r (e, t, (s, n, m)).
      let own : find (is_order_of_buyer buyer r.order.id) d.orders ≡ some r.order =
        find-narrow (is_order_of_buyer buyer r.order.id) (is_order r.order.id) d.orders
          (λ y f. rw f) e (rw (==-refl r.order.id, t)) in
      rw (own, n) (_, refl, refl, sym m, refl))

-- Where order ids are unique, every order of a seller's list can be read in detail by that seller,
-- and the detail has the order, the store's name and the items that the list shows.
pub seller_list-seller_detail :
    (seller : ℕ) (d : Db)
    → IsKeyed (λ o. o.id) d.orders
    → All (λ e. IsShown (seller_detail seller e.row.order.id) d e) (seller_list seller d)
unfolding seller_list seller_detail
seller_list-seller_detail seller d keyed = shown (find (is_store_of seller) d.store_refs) refl
  where
    shown :
        (s : Option StoreRef)
        → find (is_store_of seller) d.store_refs ≡ s
        → All (λ e. IsShown (seller_detail seller e.row.order.id) d e) (list_of_store s d)
    shown none _ = tt
    shown (some store) found =
        formatted_orders-IsShown (is_at_store store.id) (seller_detail seller) d
          (λ r (e, t, (s, n, m)).
            let own : find (is_order_of_store store.id r.order.id) d.orders ≡ some r.order =
              find-narrow (is_order_of_store store.id r.order.id) (is_order r.order.id) d.orders
                (λ y f. rw f) e (rw (==-refl r.order.id, t)) in
            rw (found, own, n) (_, refl, refl, sym m, refl))
          keyed
