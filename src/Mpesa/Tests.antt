-- ===== src/Mpesa/Tests.antt =====
-- A database of orders in memory, and the payments run on it.
use wifigo.Base.{
  String, true, false, ◌≡◌, refl, ap, ◌↔◌, ◌⊎◌, inl, inr, Option, none, some, List, [], ◌∷◌, ◌++◌,
  if◌then◌else◌, Bool-cases, arith,
}
use wifigo.Base.Int.{pos, eq_ℤ}
use wifigo.Base.Texts.{◌==◌, eq_of_test}
use wifigo.Base.Lists.{length, filter}
use wifigo.Base.Outcome.{Outcome, ok}
use wifigo.Radius.Rows.{Tables}
use wifigo.Radius.Subscription.Managed.{Subscribed}
use wifigo.Radius.Subscription.{hotspot_user_of}
use wifigo.Radius.Tests.{memory, memory-IsSql, sample, host}
use wifigo.Mpesa.Phone.{stored_phone, format_phone_number, starts_with}
use wifigo.Mpesa.Phone.Agreement.{phones-Agree}
use wifigo.Mpesa.Parse.{StkCallback, float, Formats, payload_of, handle_request}
use wifigo.Mpesa.Parsed.{handle_request-tables}
use wifigo.Mpesa.Orders.{
  Order, MpesaCallbackPayload, Shop, record_not_found, Found, found, missing, AppDb, put_order,
  IsApp,
}
use wifigo.Mpesa.Payment.{Paid, save_mpesa_payment, save_mpesa_payment-Paid}
use wifigo.Mpesa.Callback.{QueueClient, subscription_of, mpesa_stk_handler_callback}
use wifigo.Mpesa.Callback.Handled.{is_answer, logins, callback_answers_once, callback_tables}
use wifigo.Mpesa.Callback.Logins.{login_without_password, callback_logins}

abbrev find_order : String → List Order → Found
find_order id [] = missing record_not_found
find_order id (o ∷ orders) = if o.checkout_request_id == id then found o else find_order id orders

abbrev IsFirst : String → List Order → Order → Type 0
IsFirst id orders o =
    (o.checkout_request_id ≡ id)
    × ((before : List Order) × (after : List Order) × (orders ≡ before ++ o ∷ after))

find_order-IsFirst :
    (id : String) (orders : List Order) (o : Order)
    → find_order id orders ≡ found o
    → IsFirst id orders o
find_order-IsFirst id [] o h = absurd (cc h)
find_order-IsFirst id (x ∷ orders) o h = elim (Bool-cases (x.checkout_request_id == id)) [
  | inl b ↦
      let same : o ≡ x = ground (arith, b, h) in
      rw same (eq_of_test x.checkout_request_id id b, ([], orders, refl))
  | inr b ↦
      let (asked, (before, after, split)) = find_order-IsFirst id orders o (ground (arith, b, h)) in
      (asked, (x ∷ before, after, ap (λ l. x ∷ l) split))
]

abbrev orders_in_memory : AppDb
orders_in_memory = record {
  first_order = λ id s. find_order id s.orders;
  create_payment = λ p s. ok (record s { payments = s.payments ++ record p { id = 1 } ∷ [] }, 1);
  save_order = λ o s. ok (record s { orders = put_order o s.orders });
  commit = λ _ _. none;
}

orders_in_memory-IsApp : IsApp orders_in_memory
orders_in_memory-IsApp = record {
  first_row = λ id s o h. find_order-IsFirst id s.orders o h;
  create_row = λ p s s' id h. cc h;
  save_row = λ o s s' h. cc h;
}

abbrev order : Order
order = record {
  id = 7;
  status = "pending";
  username = "eve";
  ip = "10.5.50.2";
  checkout_request_id = "ws_CO_1";
  isp = "isp";
  device_id = "r1";
  is_home_user = false;
  devices = pos 2;
  service_plan = record { name = "weekly"; duration = pos 60 };
}

abbrev payload : MpesaCallbackPayload
payload = record {
  merchant_request_id = "m1";
  checkout_request_id = "ws_CO_1";
  result_code = pos 0;
  result_desc = "ok";
  amount = "20";
  mpesa_receipt_number = "ABC";
  transaction_date = "2025-05-01 10:00:00";
  phone_number = "254700000000";
}

abbrev shop : Shop
shop = record { orders = order ∷ []; payments = [] }

abbrev queue : QueueClient
queue = record { login_error = λ _. none; save_error = λ _. some "full" }

save_mpesa_payment-Paid_example :
    Paid orders_in_memory payload shop (save_mpesa_payment orders_in_memory payload shop)
save_mpesa_payment-Paid_example =
    save_mpesa_payment-Paid orders_in_memory orders_in_memory-IsApp payload shop

callback_answers_once_example :
    length (
      filter is_answer
        (mpesa_stk_handler_callback memory host queue orders_in_memory payload shop sample).0)
    ≡ 1
callback_answers_once_example =
    callback_answers_once memory host queue orders_in_memory payload shop sample

callback_tables_example :
    ((mpesa_stk_handler_callback memory host queue orders_in_memory payload shop sample).1 ≡ sample)
    ⊎ ((o : Order) × (find_order "ws_CO_1" (order ∷ []) ≡ found o)
        × (eq_ℤ (pos 0) (pos 0) ≡ true)
        × ((password : Option String) × Subscribed memory host
              (hotspot_user_of host (subscription_of payload o) password)
              sample
              (mpesa_stk_handler_callback memory host queue orders_in_memory payload shop
                sample).1))
callback_tables_example =
    callback_tables memory host queue orders_in_memory payload shop sample memory-IsSql

callback_logins_example :
    (logins (mpesa_stk_handler_callback memory host queue orders_in_memory payload shop sample).0
      ≡ [])
    ⊎ ((o : Order) × (find_order "ws_CO_1" (order ∷ []) ≡ found o)
        × (eq_ℤ (pos 0) (pos 0) ≡ true)
        × (logins
              (mpesa_stk_handler_callback memory host queue orders_in_memory payload shop sample).0
            ≡ login_without_password o ∷ []))
callback_logins_example = callback_logins memory host queue orders_in_memory payload shop sample

phones-Agree_example :
    ((stored_phone "112345678" ≡ format_phone_number "112345678") ↔ (true ≡ false))
    × ((stored_phone (format_phone_number "112345678") ≡ format_phone_number "112345678")
        ↔ (true ≡ false))
unfolding starts_with
phones-Agree_example = phones-Agree "112345678"

-- A callback for the order of the tests, with a number for the telephone.
abbrev stk_callback : StkCallback String
stk_callback = record {
  merchant_request_id = "m";
  checkout_request_id = "ws_CO_1";
  result_code = pos 0;
  result_desc = "ok";
  items = some (record { name = "PhoneNumber"; value = float "712345678" } ∷ []);
}

-- Numbers as their texts.
abbrev formats : Formats String
formats = record {
  unmarshal = λ body. ok stk_callback;
  decimal = λ x. x;
  whole = λ x. x;
  reformat_time = λ s. ok s;
}

abbrev after_request : Tables
after_request =
    (handle_request formats memory host queue orders_in_memory (ok (ok "{}")) shop sample).1

handle_request-tables_example :
    (after_request ≡ sample)
    ⊎ ((body : String) × (cb : StkCallback String) × (o : Order) × (◌≡◌
          {A = Outcome (Outcome String)}
          (ok (ok "{}"))
          (ok (ok body)))
        × (◌≡◌ {A = Outcome (StkCallback String)} (ok stk_callback) (ok cb))
        × (orders_in_memory.first_order cb.checkout_request_id shop ≡ found o)
        × (eq_ℤ cb.result_code (pos 0) ≡ true)
        × ((password : Option String) × Subscribed memory host
              (hotspot_user_of host (subscription_of (payload_of formats cb) o) password)
              sample
              after_request))
handle_request-tables_example =
    handle_request-tables formats memory host queue orders_in_memory (ok (ok "{}")) shop sample
      memory-IsSql
