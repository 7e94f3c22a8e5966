-- ===== src/Mpesa/Parsed.antt =====
-- The callback from the request on: what it takes from the JSON of the body.
use wifigo.Base.{
  String, true, ◌≡◌, refl, sym, ◌∙◌, ap, subst, ◌⊎◌, inl, inr, Option, List, [], ◌∷◌, Bool-cases,
}
use wifigo.Base.Int.{pos, eq_ℤ}
use wifigo.Base.Texts.{◌==◌}
use wifigo.Base.Outcome.{Outcome, ok, err, Outcome-cases}
use wifigo.Radius.Rows.{Tables}
use wifigo.Radius.Engine.{Engine, IsSql}
use wifigo.Radius.Subscription.{Host, hotspot_user_of}
use wifigo.Radius.Subscription.Managed.{Subscribed}
use wifigo.Mpesa.Orders.{Order, MpesaCallbackPayload, Shop, found, AppDb}
use wifigo.Mpesa.Callback.{QueueClient, subscription_of}
use wifigo.Mpesa.Callback.Handled.{callback_tables}
use wifigo.Mpesa.Parse.{
  Value, float, string, other, CallbackItem, StkCallback, Formats, add_number, add_text, add_item,
  add_items, payload_of, parse_callback, handle_request,
}

-- Two payloads of one request with one result.
record IsSameRequest (p q : MpesaCallbackPayload) : Type 0 where
  pub checkout_same : q.checkout_request_id ≡ p.checkout_request_id
  pub result_same : q.result_code ≡ p.result_code

module _ {Float : Type 0} (f : Formats Float) where
  add_number-IsSameRequest :
      (name : String) (x : Float) (p : MpesaCallbackPayload)
      → IsSameRequest p (add_number f name x p)
  unfolding add_number
  add_number-IsSameRequest name x p = elim (Bool-cases (name == "Amount")) [
    | inl a ↦ rw (add_number, a) (record { checkout_same = refl; result_same = refl })
    | inr a ↦ elim (Bool-cases (name == "PhoneNumber")) [
      | inl b ↦ rw (add_number, a, b) (record { checkout_same = refl; result_same = refl })
      | inr b ↦ rw (add_number, a, b) (record { checkout_same = refl; result_same = refl })
    ]
  ]

  add_text-IsSameRequest :
      (name s : String) (p : MpesaCallbackPayload) → IsSameRequest p (add_text f name s p)
  unfolding add_text
  add_text-IsSameRequest name s p = elim (Bool-cases (name == "MpesaReceiptNumber")) [
    | inl a ↦ rw (add_text, a) (record { checkout_same = refl; result_same = refl })
    | inr a ↦ elim (Bool-cases (name == "TransactionDate")) [
      | inl b ↦ rw (add_text, a, b) (record { checkout_same = refl; result_same = refl })
      | inr b ↦ rw (add_text, a, b) (record { checkout_same = refl; result_same = refl })
    ]
  ]

  add_value-IsSameRequest :
      (name : String) (v : Value Float) (p : MpesaCallbackPayload)
      → IsSameRequest p (add_item f (record { name = name; value = v }) p)
  unfolding add_item
  add_value-IsSameRequest name (float x) p = add_number-IsSameRequest name x p
  add_value-IsSameRequest name (string s) p = add_text-IsSameRequest name s p
  add_value-IsSameRequest name other p = record { checkout_same = refl; result_same = refl }

  add_items-IsSameRequest :
      (items : List (CallbackItem Float)) (p : MpesaCallbackPayload)
      → IsSameRequest p (add_items f items p)
  unfolding add_items
  add_items-IsSameRequest [] p = record { checkout_same = refl; result_same = refl }
  add_items-IsSameRequest (item ∷ items) p =
      let one = add_value-IsSameRequest item.name item.value p in
      let rest = add_items-IsSameRequest items (add_item f item p) in
      record {
        checkout_same = rest.checkout_same ∙ one.checkout_same;
        result_same = rest.result_same ∙ one.result_same;
      }

  payload_of-checkout :
      (cb : StkCallback Float) → (payload_of f cb).checkout_request_id ≡ cb.checkout_request_id
  unfolding payload_of
  payload_of-checkout cb = (add_items-IsSameRequest _ _).checkout_same

  payload_of-result : (cb : StkCallback Float) → (payload_of f cb).result_code ≡ cb.result_code
  unfolding payload_of
  payload_of-result cb = (add_items-IsSameRequest _ _).result_same

  -- A request to the callback leaves the RADIUS tables as they were; or its body is the JSON of a
  -- callback with the result code 0 whose request has an order, and the user of the order is
  -- created, or updated where the subscription had run out. The items of the metadata, whatever
  -- they are, change neither the request nor the result that this goes by. This holds whichever
  -- statements of the RADIUS database fail.
  pub handle_request-tables :
      (e : Engine) (host : Host) (q : QueueClient) (db : AppDb) (r : Outcome (Outcome String))
      (s : Shop) (t : Tables)
      → IsSql e
      → ((handle_request f e host q db r s t).1 ≡ t)
        ⊎ ((body : String) × (cb : StkCallback Float) × (o : Order) × (r ≡ ok (ok body))
            × (f.unmarshal body ≡ ok cb)
            × (db.first_order cb.checkout_request_id s ≡ found o)
            × (eq_ℤ cb.result_code (pos 0) ≡ true)
            × ((password : Option String) × Subscribed e host
                  (hotspot_user_of host (subscription_of (payload_of f cb) o) password)
                  t
                  (handle_request f e host q db r s t).1))
  unfolding handle_request parse_callback
  handle_request-tables e host q db (err why) s t sql = inl refl
  handle_request-tables e host q db (ok (err why)) s t sql = inl refl
  handle_request-tables e host q db (ok (ok body)) s t sql =
      elim (Outcome-cases (f.unmarshal body)) [
        | inr (why, broken) ↦ inl (rw (handle_request, parse_callback, broken) refl)
        | inl (cb, parsed) ↦
            rw (handle_request, parse_callback, parsed)
              (elim (callback_tables e host q db (payload_of f cb) s t sql) [
                | inl same ↦ inl same
                | inr (o, is_order, zero_code, subscribed) ↦ inr (
                  body,
                  cb,
                  o,
                  refl,
                  parsed,
                  subst (λ (id : String). db.first_order id s ≡ found o) (payload_of-checkout cb)
                      is_order,
                  ap (λ c. eq_ℤ c (pos 0)) (sym (payload_of-result cb)) ∙ zero_code,
                  subscribed,
                )
              ])
      ]
