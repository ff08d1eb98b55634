-- ===== src/Orders/Lifecycle.antt =====
-- The life cycle of an order. Each operation moves the status of every order along the edges of the
-- diagram, and leaves the rest of the order alone.
use seapedia.Prelude.{
  ◌≡◌, refl, inl, inr, Bool, true, false, List, arith, Bool-cases, update, All, Extends,
  Extends-update, if◌then◌else◌,
}
use seapedia.Db.{
  Order, OrderStatus, sedang_dikemas, menunggu_pengirim, sedang_dikirim, pesanan_selesai,
  dikembalikan, Env,
}
use seapedia.Orders.Seller.{set_status}
use seapedia.Orders.Overdue.{is_final}

infix 40 ◌⟶◌ ◌⟶*◌
pub data ◌⟶◌ : OrderStatus → OrderStatus → Type 0 where
  release : sedang_dikemas ⟶ menunggu_pengirim
  pick_up : menunggu_pengirim ⟶ sedang_dikirim
  deliver : sedang_dikirim ⟶ pesanan_selesai
  give_back : {s : OrderStatus} → is_final s ≡ false → s ⟶ dikembalikan

pub data ◌⟶*◌ (s : OrderStatus) : OrderStatus → Type 0 where
  here : s ⟶* s
  step : {t u : OrderStatus} → s ⟶* t → t ⟶ u → s ⟶* u

pub ⟶*_trans : {s t u : OrderStatus} → s ⟶* t → t ⟶* u → s ⟶* u
⟶*_trans h here = h
⟶*_trans h (step k e) = step (⟶*_trans h k) e

final_stays : {s t : OrderStatus} → s ⟶ t → is_final s ≡ false
final_stays release = refl
final_stays pick_up = refl
final_stays deliver = refl
final_stays (give_back h) = h

-- A delivered or returned order keeps its status for ever.
pub final_forever : {s t : OrderStatus} → s ⟶* t → is_final s ≡ true → t ≡ s
final_forever here f = refl
final_forever {s} (step {t = t} h e) f =
    let low : is_final t ≡ false = final_stays e in
    let low' : is_final s ≡ false = rw (final_forever h f) at low in cc f

-- What an operation may do to a row: all but the status and the time of the change stays.
pub record Advances (o o' : Order) : Type 0 where
  pub kept : o' ≡ record o { status = o'.status; updated_at = o'.updated_at }
  pub moved : o.status ⟶* o'.status

pub Advances-refl : (o : Order) → Advances o o
Advances-refl o = record { kept = refl; moved = here }

pub Advances-trans : (o p q : Order) → Advances o p → Advances p q → Advances o q
Advances-trans o p q h k = record { kept = ground arith; moved = ⟶*_trans h.moved k.moved }

pub set_status-Advances :
    (env : Env) (o : Order) (s : OrderStatus) → o.status ⟶ s → Advances o (set_status env s o)
set_status-Advances env o s e = record { kept = refl; moved = step here e }

-- An update of the rows that pass a test, where each may take the edge.
pub update-Extends :
    (env : Env) (p : Order → Bool) (s : OrderStatus) (os : List Order)
    → All (λ o. p o ≡ true → o.status ⟶ s) os
    → Extends Advances os (update p (set_status env s) os)
update-Extends env p s os h =
    Extends-update (λ o. p o ≡ true → o.status ⟶ s) Advances p (set_status env s) os advance h
  where
    advance :
        (o : Order)
        → (p o ≡ true → o.status ⟶ s)
        → Advances o (if p o then set_status env s o else o)
    advance o k = elim (Bool-cases (p o)) [
      | inl e ↦ rw e (set_status-Advances env o s (k e))
      | inr e ↦ rw e (Advances-refl o)
    ]
