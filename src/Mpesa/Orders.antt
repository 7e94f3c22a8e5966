-- ===== src/Mpesa/Orders.antt =====
-- The orders and payments of the application's database (server/database/model/order.go,
-- payment.go and mpesa.go), with the columns that the payment code reads or writes, and the
-- database, which is a parameter: it may fail any statement.
use wifigo.Base.{ℕ, String, Bool, ◌≡◌, Option, List, [], ◌∷◌, ◌++◌, eqb, if◌then◌else◌}
use wifigo.Base.Int.{ℤ}
use wifigo.Base.Outcome.{Outcome, ok}

pub record ServicePlan : Type 0 where
  pub name : String
  pub duration : ℤ

pub record Order : Type 0 where
  pub id : ℕ
  pub status : String
  pub username : String
  pub ip : String
  pub checkout_request_id : String
  pub isp : String
  pub device_id : String
  pub is_home_user : Bool
  pub devices : ℤ
  pub service_plan : ServicePlan

-- `MpesaCallbackPayload`; the amount is carried as its text.
pub record MpesaCallbackPayload : Type 0 where
  pub merchant_request_id : String
  pub checkout_request_id : String
  pub result_code : ℤ
  pub result_desc : String
  pub amount : String
  pub mpesa_receipt_number : String
  pub transaction_date : String
  pub phone_number : String

pub record Payment : Type 0 where
  pub id : ℕ
  pub amount : String
  pub mpesa_receipt_number : Option String
  pub phone : Option String
  pub transaction_date : String
  pub merchant_request_id : Option String
  pub checkout_request_id : String
  pub result_code : ℤ
  pub result_desc : String
  pub username : Option String
  pub order_id : Option ℕ

pub record Shop : Type 0 where
  pub orders : List Order
  pub payments : List Payment

-- The failure of `First`: `gorm.ErrRecordNotFound`, or another one.
pub data Missing : Type 0 where
  record_not_found : Missing
  broken : String → Missing

abbrev pub missing_text : Missing → String
missing_text record_not_found = "record not found"
missing_text (broken why) = why

pub data Found : Type 0 where
  found : Order → Found
  missing : Missing → Found

pub record AppDb : Type 0 where
  -- `Where("CheckoutRequestID = ?", id).First(&order)`
  pub first_order : String → Shop → Found
  -- `tx.Create(payment)`: the tables, and the ID that the payment has been given.
  pub create_payment : Payment → Shop → Outcome (Shop × ℕ)
  -- `tx.Save(&order)`
  pub save_order : Order → Shop → Outcome Shop
  -- `tx.Commit().Error`
  pub commit : Shop → Shop → Option String

-- The row with the order's ID is overwritten.
unfoldable pub put_order : Order → List Order → List Order
put_order o [] = []
put_order o (x ∷ orders) = (if eqb x.id o.id then o else x) ∷ put_order o orders

-- What the payment code relies on: a statement that reports no error has done what it says.
pub record IsApp (db : AppDb) : Type 0 where
  pub first_row :
      (id : String) (s : Shop) (o : Order)
      → db.first_order id s ≡ found o
      → (o.checkout_request_id ≡ id)
        × ((before : List Order) × (after : List Order) × (s.orders ≡ before ++ o ∷ after))
  pub create_row :
      (p : Payment) (s s' : Shop) (id : ℕ)
      → db.create_payment p s ≡ ok (s', id)
      → s' ≡ record s { payments = s.payments ++ record p { id = id } ∷ [] }
  pub save_row :
      (o : Order) (s s' : Shop)
      → db.save_order o s ≡ ok s'
      → s' ≡ record s { orders = put_order o s.orders }
