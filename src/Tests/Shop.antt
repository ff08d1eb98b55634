-- ===== src/Tests/Shop.antt =====
-- The rows of a small shop.
use seapedia.Prelude.{◌+◌, true, false, none, some, [], ◌∷◌, pos, int_laws}
use seapedia.Db.{
  Address, Wallet, WalletTransaction, TransactionType, TransactionStatus, Reference, Order,
  JobStatus, Voucher, StoreRef, ProductRef, Code, Db, instant, sedang_dikemas, menunggu_pengirim,
  Env,
}
use seapedia.Wallet.Ledger.{IsBalanced}
use seapedia.Checkout.Totals.{Fees}
use seapedia.Orders.Overdue.{Returned}
use seapedia.Replicas.{ProductUpserted}

abbrev pub clock : Env
clock = record { now = 1_000_000_000; uuid = λ n. 100 + n; random = 1_234_567_890 }

abbrev pub home : Address
home = record {
  id = 20;
  user_id = 1;
  label = "Rumah";
  recipient_name = "Ani";
  phone_number = "0812";
  province = "Jawa Barat";
  city = "Bandung";
  district = "Coblong";
  postal_code = "40132";
  full_address = "Jalan Ganesha 10";
  is_default = true;
  created_at = 1;
  updated_at = 1;
}

abbrev pub wallet : Wallet
wallet = record { id = 10; user_id = 1; balance = 500_000; created_at = 1; updated_at = 1 }

abbrev pub top_up : WalletTransaction
top_up = record {
  id = 11;
  wallet_id = 10;
  amount = pos 500_000;
  kind = TransactionType.topup;
  status = TransactionStatus.success;
  reference = Reference.topup_ref 1_000_000_000;
  created_at = 1;
}

abbrev pub store : StoreRef
store = record {
  id = 40;
  seller_id = 2;
  name = "Toko Budi";
  slug = "toko-budi";
  version = 1;
  synced_at = 1;
}

abbrev pub rice : ProductRef
rice = record {
  id = 50;
  store_id = 40;
  name = "Beras";
  slug = "beras";
  price = 75_000;
  image_key = none;
  deleted = false;
  version = 1;
  synced_at = 1;
}

abbrev pub hemat : Voucher
hemat = record {
  id = 60;
  code = 72 ∷ 49 ∷ [];
  discount_amount = 20_000;
  min_order_amount = 100_000;
  expires_at = 2_000_000_000;
  remaining_usage = 1;
  created_at = 1;
  updated_at = 1;
}

-- A cart of two bags of rice.
abbrev pub shop : Db
shop = record {
  wallets = wallet ∷ [];
  wallet_transactions = top_up ∷ [];
  addresses = home ∷ [];
  carts = record { id = 30; buyer_id = 1; store_id = some 40; created_at = 1; updated_at = 1 } ∷ [];
  cart_items =
      record {
        id = 31;
        cart_id = 30;
        product_id = 50;
        quantity = 2;
        created_at = 1;
        updated_at = 1;
      }
      ∷ [];
  orders = [];
  order_items = [];
  order_status_history = [];
  delivery_jobs = [];
  vouchers = hemat ∷ [];
  promos = [];
  store_refs = store ∷ [];
  product_refs = rice ∷ [];
  inventory = record { product_id = 50; stock = 5; version = 1; updated_at = 1 } ∷ [];
  user_refs = [];
  pending_stock = [];
  time_offset = none;
  outbox = [];
}

abbrev pub bought : Order
bought = record {
  id = 70;
  buyer_id = 1;
  store_id = 40;
  delivery_method = instant;
  subtotal = 75_000;
  discount_amount = 0;
  discount_code = none;
  discount_type = none;
  delivery_fee = 30_000;
  ppn = 12_600;
  total_amount = 117_600;
  status = menunggu_pengirim;
  address_snapshot = home;
  created_at = 1;
  updated_at = 1;
}

-- An order of one bag that waits for a driver, and is late.
abbrev pub late : Db
late = record shop {
  orders = bought ∷ [];
  order_items =
      record {
        id = 71;
        order_id = 70;
        product_id = some 50;
        product_name = "Beras";
        product_price = 75_000;
        quantity = 1;
      }
      ∷ [];
  delivery_jobs =
      record {
        id = 80;
        order_id = 70;
        driver_id = none;
        status = JobStatus.pending;
        delivery_fee = 30_000;
        created_at = 1;
        updated_at = 1;
      }
      ∷ [];
}

abbrev pub fees : Fees
fees = record { instant_fee = 30_000; next_day_fee = 15_000; regular_fee = 10_000 }

abbrev pub code : Code
code = 104 ∷ 49 ∷ []

abbrev pub receipt : Returned
receipt = record {
  order_id = 70;
  buyer_id = 1;
  refund_amount = 117_600;
  items_restored = 1;
  note = "Auto-returned: exceeded delivery SLA for instant. Refund issued.";
}

-- The same order, before the seller has packed it.
abbrev pub unpacked : Db
unpacked = record late {
  orders = record bought { status = sedang_dikemas } ∷ [];
  delivery_jobs = [];
}

abbrev pub upsert : ProductUpserted
upsert = record {
  id = 50;
  store_id = 40;
  name = "Beras";
  slug = "beras";
  price = 80_000;
  image_key = none;
  version = 3;
}

pub shop-IsBalanced : IsBalanced shop
shop-IsBalanced = (omega int_laws, tt)
