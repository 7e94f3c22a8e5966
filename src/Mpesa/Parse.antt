-- ===== src/Mpesa/Parse.antt =====
-- `ParseCallback` of server/handler/mpesa_callback.go, and the head of the handler, which binds the
-- request, parses it and goes on with the payload. `json.Unmarshal`, the decimals and the times are
-- parameters; a number of JSON is a float64 of the type `Float`.
use wifigo.Base.{String, Option, none, some, List, [], ◌∷◌, if◌then◌else◌}
use wifigo.Base.Int.{ℤ}
use wifigo.Base.Texts.{◌==◌, concat}
use wifigo.Base.Outcome.{Outcome, ok, err}
use wifigo.Radius.Rows.{Tables}
use wifigo.Radius.Engine.{Engine}
use wifigo.Radius.Subscription.{Host}
use wifigo.Mpesa.Orders.{MpesaCallbackPayload, Shop, AppDb}
use wifigo.Mpesa.Callback.{Event, answer, QueueClient, mpesa_stk_handler_callback}
use wifigo.Mpesa.Phone.{stored_phone}

-- The `interface{}` of a value.
pub data Value (Float : Type 0) : Type 0 where
  float : Float → Value Float
  string : String → Value Float
  other : Value Float

-- `model.CallbackItem`
pub record CallbackItem (Float : Type 0) : Type 0 where
  pub name : String
  pub value : Value Float

-- `model.StkCallback`, with the items of the metadata, or none for the nil pointer.
pub record StkCallback (Float : Type 0) : Type 0 where
  pub merchant_request_id : String
  pub checkout_request_id : String
  pub result_code : ℤ
  pub result_desc : String
  pub items : Option (List (CallbackItem Float))

-- `json.Unmarshal` of the data, `decimal.NewFromFloat` as a text, `fmt.Sprintf("%.0f")`, and
-- `time.Parse` with the layout of M-Pesa followed by `Format`.
pub record Formats (Float : Type 0) : Type 0 where
  pub unmarshal : String → Outcome (StkCallback Float)
  pub decimal : Float → String
  pub whole : Float → String
  pub reformat_time : String → Outcome String

-- A date that does not parse is stored as it is.
unfoldable pub stored_date : Outcome String → String → String
stored_date (ok t) raw = t
stored_date (err why) raw = raw

abbrev with_details :
    MpesaCallbackPayload → String → String → String → String → MpesaCallbackPayload
with_details p amount receipt date phone = record {
  merchant_request_id = p.merchant_request_id;
  checkout_request_id = p.checkout_request_id;
  result_code = p.result_code;
  result_desc = p.result_desc;
  amount = amount;
  mpesa_receipt_number = receipt;
  transaction_date = date;
  phone_number = phone;
}

module _ {Float : Type 0} (f : Formats Float) where
  -- The cases of the two names whose values are numbers.
  unfoldable pub add_number : String → Float → MpesaCallbackPayload → MpesaCallbackPayload
  add_number name x p =
      if name == "Amount"
      then with_details p (f.decimal x) p.mpesa_receipt_number p.transaction_date p.phone_number
      else if name == "PhoneNumber"
      then with_details p p.amount p.mpesa_receipt_number p.transaction_date
          (stored_phone (f.whole x))
      else p

  -- The cases of the two names whose values are texts.
  unfoldable pub add_text : String → String → MpesaCallbackPayload → MpesaCallbackPayload
  add_text name s p =
      if name == "MpesaReceiptNumber"
      then with_details p p.amount s p.transaction_date p.phone_number
      else if name == "TransactionDate"
      then with_details p p.amount p.mpesa_receipt_number (stored_date (f.reformat_time s) s)
          p.phone_number
      else p

  unfoldable pub add_item : CallbackItem Float → MpesaCallbackPayload → MpesaCallbackPayload
  add_item item p = elim item.value [
    | float x ↦ add_number item.name x p
    | string s ↦ add_text item.name s p
    | other ↦ p
  ]

  -- The loop over the items.
  unfoldable pub add_items : List (CallbackItem Float) → MpesaCallbackPayload → MpesaCallbackPayload
  add_items [] p = p
  add_items (item ∷ items) p = add_items items (add_item item p)

  unfoldable pub payload_of : StkCallback Float → MpesaCallbackPayload
  payload_of cb =
      add_items (elim cb.items [ none ↦ [] | some items ↦ items ])
        (record {
          merchant_request_id = cb.merchant_request_id;
          checkout_request_id = cb.checkout_request_id;
          result_code = cb.result_code;
          result_desc = cb.result_desc;
          amount = "0";
          mpesa_receipt_number = "";
          transaction_date = "";
          phone_number = "";
        })

  unfoldable pub parse_callback : String → Outcome MpesaCallbackPayload
  parse_callback body = elim (f.unmarshal body) [
    | err why ↦ err (concat "unmarshal M-Pesa callback raw data error: " why)
    | ok cb ↦ ok (payload_of cb)
  ]

  -- `MpesaStkHandlerCallback` from the request on: the bound body, written out again by
  -- `json.Marshal`, or the error of either.
  unfoldable pub handle_request :
      Engine
      → Host
      → QueueClient
      → AppDb
      → Outcome (Outcome String)
      → Shop
      → Tables
      → List Event × Tables
  handle_request e host q db (err why) s t = (answer 400 "Invalid M-Pesa callback payload." ∷ [], t)
  handle_request e host q db (ok (err why)) s t =
      (answer 500 "Failed to serialize callback data." ∷ [], t)
  handle_request e host q db (ok (ok body)) s t = elim (parse_callback body) [
    | err why ↦ (answer 400 "Failed to parse M-Pesa callback details." ∷ [], t)
    | ok p ↦ mpesa_stk_handler_callback e host q db p s t
  ]
