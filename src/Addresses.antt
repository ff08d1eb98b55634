-- ===== src/Addresses.antt =====
-- The address half of BuyersService (services/commerce/src/modules/buyers/buyers.service.ts).
pub mod Defaults
use seapedia.Prelude.{
  ℕ, Bool, true, false, not, ◌&&◌, ◌||◌, Option, none, some, List, [], ◌∷◌, ◌++◌, String, leb, ltb,
  ◌==◌, find, delete, select, update, sort_by, if◌then◌else◌,
}
use seapedia.Db.{
  Address, Db, Result, ok, err, Action, pure, gets, or_throw, transaction, ◌>>=◌, ◌>>◌, modify,
  not_found, Reason, Env,
}

-- The texts of an address.
pub record AddressText : Type 0 where
  pub label : String
  pub recipient_name : String
  pub phone_number : String
  pub province : String
  pub city : String
  pub district : String
  pub postal_code : String
  pub full_address : String

abbrev pub is_of_user : ℕ → Address → Bool
is_of_user user a = a.user_id == user

abbrev pub is_address : ℕ → Address → Bool
is_address id a = a.id == id

abbrev pub is_owned : ℕ → ℕ → Address → Bool
is_owned user id a = a.id == id && a.user_id == user

abbrev pub set_default : Env → Bool → Address → Address
set_default env b a = record a { is_default = b; updated_at = env.now }

-- Defaults first, then the newest.
abbrev pub shows_before : Address → Address → Bool
shows_before a b =
    (a.is_default && not b.is_default)
    || (not (b.is_default && not a.is_default) && leb b.created_at a.created_at)

-- `getAddresses`
unfoldable pub get_addresses : ℕ → Db → List Address
get_addresses user d = sort_by shows_before (select (is_of_user user) d.addresses)

abbrev pub new_address : Env → ℕ → AddressText → Bool → Address
new_address env user t b = record {
  id = env.uuid 0;
  user_id = user;
  label = t.label;
  recipient_name = t.recipient_name;
  phone_number = t.phone_number;
  province = t.province;
  city = t.city;
  district = t.district;
  postal_code = t.postal_code;
  full_address = t.full_address;
  is_default = b;
  created_at = env.now;
  updated_at = env.now;
}

abbrev pub clear_defaults : Env → ℕ → List Address → List Address
clear_defaults env user = update (is_of_user user) (set_default env false)

abbrev pub is_first : List Address → Bool
is_first [] = true
is_first (_ ∷ _) = false

abbrev pub insert_address : Address → Action Address
insert_address row d = (ok row, record d { addresses = d.addresses ++ (row ∷ []) })

-- `createAddress`; `wanted` is `input.isDefault`, false where it is left out.
unfoldable pub create_address : Env → ℕ → AddressText → Bool → Action Address
unfolding get_addresses
create_address env user text wanted = do
  existing ← gets (get_addresses user)
  let b = wanted || is_first existing
  modify (λ d. if b then record d { addresses = clear_defaults env user d.addresses } else d)
  insert_address (new_address env user text b)

-- `input.x ?? existing.x`
abbrev pub or_else {ℓ} : {A : Type ℓ} → Option A → A → A
or_else none a = a
or_else (some b) _ = b

pub record AddressPatch : Type 0 where
  pub label : Option String
  pub recipient_name : Option String
  pub phone_number : Option String
  pub province : Option String
  pub city : Option String
  pub district : Option String
  pub postal_code : Option String
  pub full_address : Option String
  pub is_default : Option Bool

abbrev pub patch : Env → AddressPatch → Address → Address → Address
patch env p existing a = record a {
  label = or_else p.label existing.label;
  recipient_name = or_else p.recipient_name existing.recipient_name;
  phone_number = or_else p.phone_number existing.phone_number;
  province = or_else p.province existing.province;
  city = or_else p.city existing.city;
  district = or_else p.district existing.district;
  postal_code = or_else p.postal_code existing.postal_code;
  full_address = or_else p.full_address existing.full_address;
  is_default = or_else p.is_default existing.is_default;
  updated_at = env.now;
}

-- `updateAddress`
unfoldable pub update_address : Env → ℕ → ℕ → AddressPatch → Action Address
update_address env user id p = do
  existing ←
      or_throw (← gets (λ d. find (is_owned user id) d.addresses))
        (not_found Reason.address_missing)
  modify (λ d.
      if or_else p.is_default false && not existing.is_default
      then record d { addresses = clear_defaults env user d.addresses }
      else d)
  modify (λ d. record d { addresses = update (is_address id) (patch env p existing) d.addresses })
  pure (patch env p existing existing)

abbrev pub older : Address → Address → Bool
older a b = leb a.created_at b.created_at

abbrev pub make_default : Env → List Address → List Address → List Address
make_default env [] all = all
make_default env (next ∷ _) all = update (is_address next.id) (set_default env true) all

-- The oldest address that the user has left becomes the default.
abbrev pub promote : Env → ℕ → List Address → List Address
promote env user rows = make_default env (sort_by older (select (is_of_user user) rows)) rows

-- `deleteAddress`
unfoldable pub delete_address : Env → ℕ → ℕ → Action (Unit {0})
delete_address env user id = do
  existing ←
      or_throw (← gets (λ d. find (is_owned user id) d.addresses))
        (not_found Reason.address_missing)
  modify (λ d. record d { addresses = delete (is_address id) d.addresses })
  modify (λ d.
      if existing.is_default then record d { addresses = promote env user d.addresses } else d)

abbrev pub is_other : ℕ → ℕ → Address → Bool
is_other user id a = a.user_id == user && not (a.id == id)

-- `setDefaultAddress`
unfoldable pub set_default_address : Env → ℕ → ℕ → Action (Unit {0})
set_default_address env user id = do
  or_throw (← gets (λ d. find (is_owned user id) d.addresses)) (not_found Reason.address_missing)
  modify
      (λ d. record d { addresses = update (is_other user id) (set_default env false) d.addresses })
  modify (λ d. record d { addresses = update (is_address id) (set_default env true) d.addresses })
