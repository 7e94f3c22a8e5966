-- ===== src/Mpesa/Callback.antt =====
-- `MpesaStkHandlerCallback` of server/handler/mpesa_callback.go, from the parsed payload on.
pub mod Handled
pub mod Logins
use wifigo.Base.{
  ℕ, String, Bool, true, false, Option, none, some, List, [], ◌∷◌, ◌++◌, eqb, if◌then◌else◌,
}
use wifigo.Base.Int.{ℤ, pos, eq_ℤ}
use wifigo.Base.Texts.{◌==◌}
use wifigo.Base.Outcome.{Outcome, ok, err}
use wifigo.Radius.Rows.{Tables, HotspotSubscriptionRequest}
use wifigo.Radius.Engine.{Engine}
use wifigo.Radius.Transaction.{Field, text, number, details, pointer, null, Response, Result}
use wifigo.Radius.Subscription.{Host, manage_hotspot_user}
use wifigo.Mpesa.Orders.{
  Order, MpesaCallbackPayload, Shop, Missing, record_not_found, broken, Found, found, missing,
  AppDb,
}

-- `dto.MikrotikLogin`
pub record MikrotikLogin : Type 0 where
  pub device_id : String
  pub address : String
  pub username : String
  pub password : String

-- The queues of the queue package that the handler names.
pub data Queue : Type 0 where
  critical reporting : Queue

-- What the handler does besides the RADIUS tables, in order. The two commands that it enqueues at
-- the end by two goroutines are listed in the order of the source.
pub data Event : Type 0 where
  -- `h.wsHub.SendToIP(ip, …)`, with the type, the status and the message of the JSON text.
  send : String → String → String → String → Event
  -- `h.queue.EnqueueMikrotikCommand(…, ActionMikrotikLoginUser, …, QueueCritical)`
  enqueue_login : MikrotikLogin → Event
  -- `h.queue.EnqueueDatabaseOperation(…, ActionSaveMpesaCallback, …)`
  enqueue_save : MpesaCallbackPayload → Queue → Event
  -- `c.JSON(status, …)`, with its "message", "status" or "error".
  answer : ℕ → String → Event

-- The errors of the two enqueue calls, by the queue package.
pub record QueueClient : Type 0 where
  pub login_error : MikrotikLogin → Option String
  pub save_error : MpesaCallbackPayload → Option String

-- `password, _ := resp["password"].(string)`: the empty text where the value is no `string`.
unfoldable pub string_field : String → List (String × Field) → String
string_field key [] = ""
string_field key ((k, v) ∷ fields) =
    if k == key
    then elim v [ text s ↦ s | number _ ↦ "" | details _ ↦ "" | pointer _ ↦ "" | null ↦ "" ]
    else string_field key fields

abbrev pub subscription_of : MpesaCallbackPayload → Order → HotspotSubscriptionRequest
subscription_of p o = record {
  phone = p.phone_number;
  username = o.username;
  password = none;
  is_home_user = o.is_home_user;
  isp = o.isp;
  service_name = o.service_plan.name;
  duration = o.service_plan.duration;
  devices = o.devices;
}

abbrev pub login_of : Order → Response → MikrotikLogin
login_of o resp = record {
  device_id = o.device_id;
  address = o.ip;
  username = o.username;
  password = string_field "password" resp.body;
}

-- The messages on the account, by the status of `ManageHotspotUser`.
unfoldable pub account_messages : String → ℕ → List Event
account_messages ip status =
    if eqb status 409
    then send ip "create_account" "failed" "User already subscribed"
      ∷ send ip "payment" "success" "Payment already done"
      ∷ []
    else send ip "create_account" "success" "Account created/updated successfully" ∷ []

-- The response, by the errors of the login command and of the saving.
unfoldable pub combined : Option String → Option String → Event
combined none none = answer 200 "Payment processed successfully."
combined none (some _) =
    answer 202 "Payment processed, Mikrotik command enqueued, but DB save failed."
combined (some _) none = answer 500 "Payment processed, but Mikrotik command failed to enqueue."
combined (some _) (some _) =
    answer 500 "Payment processed, but Mikrotik command failed to enqueue. Also, DB save failed."

-- The commands that follow the account, and the response.
unfoldable pub commands : QueueClient → MpesaCallbackPayload → Order → Response → List Event
commands q p o resp =
    enqueue_login (login_of o resp)
    ∷ (if eqb resp.status 409
        then combined (q.login_error (login_of o resp)) none ∷ []
        else enqueue_save p critical
          ∷ combined (q.login_error (login_of o resp)) (q.save_error p)
          ∷ [])

-- What follows `ManageHotspotUser`.
unfoldable pub after_account :
    QueueClient → MpesaCallbackPayload → Order → Result → List Event × Tables
after_account q p o (resp, t) =
    if eqb resp.status 500
    then (
      answer 500 "Failed to create/manage RADIUS user."
          ∷ send o.ip "create_account" "failed" "Failed to create Account"
          ∷ [],
      t,
    )
    else (account_messages o.ip resp.status ++ commands q p o resp, t)

-- The handler, with the order that has been found.
unfoldable pub paid :
    Engine → Host → QueueClient → MpesaCallbackPayload → Order → Tables → List Event × Tables
paid e host q p o t =
    if eq_ℤ p.result_code (pos 0)
    then after_account q p o (manage_hotspot_user e host (subscription_of p o) true t)
    else (
      enqueue_save p reporting
          ∷ send o.ip "payment" "failed" p.result_desc
          ∷ answer 200 "Failed payment received and processed."
          ∷ [],
      t,
    )

unfoldable pub mpesa_stk_handler_callback :
    Engine → Host → QueueClient → AppDb → MpesaCallbackPayload → Shop → Tables → List Event × Tables
mpesa_stk_handler_callback e host q db p s t = elim (db.first_order p.checkout_request_id s) [
  | missing record_not_found ↦
      (answer 404 "Associated order not found for this M-Pesa callback." ∷ [], t)
  | missing (broken why) ↦ (answer 500 "Failed to fetch order from database." ∷ [], t)
  | found o ↦ paid e host q p o t
]
