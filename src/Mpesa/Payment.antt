-- ===== src/Mpesa/Payment.antt =====
-- `SaveMpesaPayment` of server/service/mpesa.go.
use wifigo.Base.{
  ℕ, String, ◌≡◌, refl, Option, none, some, List, [], ◌∷◌, ◌++◌, if◌then◌else◌, arith,
}
use wifigo.Base.Int.{pos, eq_ℤ}
use wifigo.Base.Texts.{concat}
use wifigo.Base.Outcome.{Outcome, ok, err}
use wifigo.Mpesa.Orders.{
  Order, MpesaCallbackPayload, Payment, Shop, missing_text, Found, found, missing, AppDb, put_order,
  IsApp,
}

-- The switch on `ResultCode`: the status and the message.
unfoldable pub outcome_of : MpesaCallbackPayload → String × String
outcome_of p =
    if eq_ℤ p.result_code (pos 0)
    then ("success", "Payment received successfully")
    else if eq_ℤ p.result_code (pos 1)
    then ("error", "Insufficient balance")
    else if eq_ℤ p.result_code (pos 1001)
    then ("error", "Payment is being processed")
    else if eq_ℤ p.result_code (pos 1002)
    then ("error", "Payment request is being processed")
    else if eq_ℤ p.result_code (pos 1031)
    then ("error", "Request cancelled by user")
    else if eq_ℤ p.result_code (pos 1032)
    then ("error", "The request was canceled by the user")
    else if eq_ℤ p.result_code (pos 1037)
    then ("error", "Your M-Pesa phone cannot be reached!")
    else if eq_ℤ p.result_code (pos 2001)
    then ("error", "Wrong PIN provided")
    else if eq_ℤ p.result_code (pos 17)
    then ("error", "User account does not exist")
    else if eq_ℤ p.result_code (pos 20)
    then ("error", "User account is inactive")
    else if eq_ℤ p.result_code (pos 26)
    then ("error", "Payment request timed out")
    else ("error", concat "Payment failed: " p.result_desc)

-- `payment`, before it has been given its ID.
abbrev pub payment_of : MpesaCallbackPayload → Order → Payment
payment_of p o = record {
  id = 0;
  amount = p.amount;
  mpesa_receipt_number = some p.mpesa_receipt_number;
  phone = some p.phone_number;
  transaction_date = p.transaction_date;
  merchant_request_id = some p.merchant_request_id;
  checkout_request_id = p.checkout_request_id;
  result_code = p.result_code;
  result_desc = p.result_desc;
  username = some o.username;
  order_id = some o.id;
}

-- The status that the order is given.
unfoldable pub order_status : MpesaCallbackPayload → String
order_status p = if eq_ℤ p.result_code (pos 0) then "paid" else "payment_failed"

-- The map that is returned.
pub record Summary : Type 0 where
  pub status : String
  pub ip : String
  pub payment_id : ℕ
  pub message : String

-- The end of the function, from each of its database calls on: the answer of the call is the last
-- argument.
abbrev after_commit :
    MpesaCallbackPayload → Shop → Order → ℕ → Shop → Option String → Outcome Summary × Shop
after_commit p s order id saved (some why) = (err why, s)
after_commit p s order id saved none = (
  ok (record {
    status = (outcome_of p).0;
    ip = order.ip;
    payment_id = id;
    message = (outcome_of p).1;
  }),
  saved,
)

abbrev after_save :
    AppDb → MpesaCallbackPayload → Shop → Order → ℕ → Outcome Shop → Outcome Summary × Shop
after_save db p s order id (err why) = (err why, s)
after_save db p s order id (ok saved) = after_commit p s order id saved (db.commit s saved)

abbrev after_create :
    AppDb → MpesaCallbackPayload → Shop → Order → Outcome (Shop × ℕ) → Outcome Summary × Shop
after_create db p s order (err why) = (err why, s)
after_create db p s order (ok (made, id)) =
    after_save db p s order id (db.save_order (record order { status = order_status p }) made)

abbrev after_first : AppDb → MpesaCallbackPayload → Shop → Found → Outcome Summary × Shop
after_first db p s (missing why) = (err (missing_text why), s)
after_first db p s (found order) =
    after_create db p s order (db.create_payment (payment_of p order) s)

unfoldable pub save_mpesa_payment : AppDb → MpesaCallbackPayload → Shop → Outcome Summary × Shop
unfolding outcome_of order_status
save_mpesa_payment db p s = after_first db p s (db.first_order p.checkout_request_id s)

-- What the call leaves behind.
abbrev pub Paid : AppDb → MpesaCallbackPayload → Shop → Outcome Summary × Shop → Type 0
Paid db p s (err why, s') = s' ≡ s
Paid db p s (ok summary, s') =
    (order : Order) × (order.checkout_request_id ≡ p.checkout_request_id)
    × ((before : List Order) × (after : List Order) × (s.orders ≡ before ++ order ∷ after))
    × (s'.orders
        ≡ put_order
            (record order {
              status = if eq_ℤ p.result_code (pos 0) then "paid" else "payment_failed";
            })
            s.orders)
    × (s'.payments ≡ s.payments ++ record (payment_of p order) { id = summary.payment_id } ∷ [])
    × (summary.ip ≡ order.ip)
    × (summary.status ≡ (if eq_ℤ p.result_code (pos 0) then "success" else "error"))

outcome_status :
    (p : MpesaCallbackPayload)
    → (outcome_of p).0 ≡ (if eq_ℤ p.result_code (pos 0) then "success" else "error")
unfolding outcome_of
outcome_status p = ground arith

-- `SaveMpesaPayment` returns an error, and then the orders and payments are as they were; or it
-- returns a summary, and then, for an order with the checkout request of the payload, one payment
-- of it has been added, with the ID of the summary, and the order is "paid" where the result code
-- is 0 and else "payment_failed", all other orders being as they were; the summary's status is
-- "success" where the result code is 0, and else "error". This holds whichever statements fail.
pub save_mpesa_payment-Paid :
    (db : AppDb)
    → IsApp db
    → (p : MpesaCallbackPayload) (s : Shop) → Paid db p s (save_mpesa_payment db p s)
unfolding save_mpesa_payment order_status
save_mpesa_payment-Paid db app p s = looked (db.first_order p.checkout_request_id s) refl
  where
    Ordered : Order → Type 0
    Ordered order = db.first_order p.checkout_request_id s ≡ found order

    committed :
        (order : Order)
        → Ordered order
        → (made : Shop) (id : ℕ) → db.create_payment (payment_of p order) s ≡ ok (made, id)
        → (shop : Shop) → db.save_order (record order { status = order_status p }) made ≡ ok shop
        → (c : Option String) → Paid db p s (after_commit p s order id shop c)
    committed order h made id h₁ shop h₂ (some why) = refl
    committed order h made id h₁ shop h₂ none =
        let (asked, (before, after, row)) = app.first_row p.checkout_request_id s order h in
        let e₁ = app.create_row (payment_of p order) s made id h₁ in
        let e₂ = app.save_row (record order { status = order_status p }) made shop h₂ in
        (order, asked, (before, after, row), rw (e₂, e₁), rw (e₂, e₁), refl, outcome_status p)

    saved :
        (order : Order)
        → Ordered order
        → (made : Shop) (id : ℕ) → db.create_payment (payment_of p order) s ≡ ok (made, id)
        → (x : Outcome Shop) → db.save_order (record order { status = order_status p }) made ≡ x
        → Paid db p s (after_save db p s order id x)
    saved order h made id h₁ (err why) h₂ = refl
    saved order h made id h₁ (ok shop) h₂ = committed order h made id h₁ shop h₂ (db.commit s shop)

    created :
        (order : Order)
        → Ordered order
        → (x : Outcome (Shop × ℕ)) → db.create_payment (payment_of p order) s ≡ x
        → Paid db p s (after_create db p s order x)
    created order h (err why) h₁ = refl
    created order h (ok (made, id)) h₁ = saved order h made id h₁ _ refl

    looked :
        (x : Found)
        → db.first_order p.checkout_request_id s ≡ x
        → Paid db p s (after_first db p s x)
    looked (missing why) h = refl
    looked (found order) h = created order h _ refl
