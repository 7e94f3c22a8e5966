-- ===== src/Mpesa/Callback/Logins.antt =====
-- The login command that the callback enqueues.
use wifigo.Base.{
  ℕ, String, Bool, true, false, ◌≡◌, refl, ap, ◌∙◌, ◌⊎◌, inl, inr, Option, none, some, List, [],
  ◌∷◌, eqb, if◌then◌else◌, Bool-cases,
}
use wifigo.Base.Int.{pos, eq_ℤ}
use wifigo.Base.Texts.{◌==◌, concat}
use wifigo.Base.Outcome.{Outcome, ok, err}
use wifigo.Radius.Rows.{RadAttr, Tables, HotspotSubscriptionRequest}
use wifigo.Radius.Engine.{Engine}
use wifigo.Radius.Queries.{get_rad_check_attributes}
use wifigo.Radius.Transaction.{Result, refuse}
use wifigo.Radius.Create.{create_hotspot_user}
use wifigo.Radius.Update.{update_hotspot_user}
use wifigo.Radius.Subscription.{
  Host, UserStatus, no_exist, expired, not_expired, is_user_expired, stored_password,
  hotspot_user_of, relay, subscribe, manage_hotspot_user,
}
use wifigo.Mpesa.Orders.{Order, MpesaCallbackPayload, Shop, found, AppDb}
use wifigo.Mpesa.Callback.{
  MikrotikLogin, Event, QueueClient, string_field, subscription_of, account_messages, combined,
  commands, after_account, mpesa_stk_handler_callback,
}
use wifigo.Mpesa.Callback.Handled.{logins, Ends, callback-Ends}

-- The type assertion on the password of the answer fails.
abbrev NoText : Result → Type 0
NoText (r, _) = string_field "password" r.body ≡ ""

relay-NoText :
    (what : String) (good : ℕ) (req : HotspotSubscriptionRequest) (password : Option String)
    (x : Result)
    → NoText (relay what good req password x)
unfolding relay string_field ◌==◌
relay-NoText what good req password (r, t) = elim (Bool-cases (eqb r.status good)) [
  | inl b ↦ rw b refl
  | inr b ↦ rw b refl
]

module _ (e : Engine) (host : Host) (req : HotspotSubscriptionRequest) (t : Tables) where
  subscribe-NoText : (password : Option String) → NoText (subscribe e host req true password t)
  unfolding subscribe string_field ◌==◌
  subscribe-NoText password = split (is_user_expired e host req.username t)
    where
      split :
          (x : Outcome UserStatus)
          → NoText (elim x [
            | ok not_expired ↦ (
              refuse 409
                  (concat "User " (concat req.username " already has an active subscription")),
              t,
            )
            | ok no_exist ↦
                relay "Failed to create user: " 201 req password
                  (create_hotspot_user e (hotspot_user_of host req password) t)
            | ok expired ↦
                relay "Failed to update user: " 200 req password
                  (update_hotspot_user e (hotspot_user_of host req password) t)
            | err why ↦ (refuse 500 why, t)
          ])
      split (ok not_expired) = refl
      split (ok no_exist) = relay-NoText "Failed to create user: " 201 req password _
      split (ok expired) = relay-NoText "Failed to update user: " 200 req password _
      split (err why) = refl

  manage-NoText : NoText (manage_hotspot_user e host req true t)
  unfolding manage_hotspot_user string_field ◌==◌
  manage-NoText = home req.is_home_user (get_rad_check_attributes e req.username t)
    where
      home :
          (h : Bool) (x : Outcome (List RadAttr))
          → NoText (
              if h
              then elim x [
                | ok rows ↦ subscribe e host req true (stored_password rows req.password) t
                | err why ↦
                    (refuse 404 (concat "User " (concat req.username " does not exist!")), t)
              ]
              else subscribe e host req true req.password t)
      home false x = subscribe-NoText req.password
      home true (ok rows) = subscribe-NoText (stored_password rows req.password)
      home true (err why) = refl

combined-logins : (x y : Option String) → logins (combined x y ∷ []) ≡ []
unfolding combined
combined-logins none none = refl
combined-logins none (some _) = refl
combined-logins (some _) none = refl
combined-logins (some _) (some _) = refl

-- The login of an order with the password that is sent.
abbrev pub login_without_password : Order → MikrotikLogin
login_without_password o = record {
  device_id = o.device_id;
  address = o.ip;
  username = o.username;
  password = "";
}

after_account-logins :
    (q : QueueClient) (p : MpesaCallbackPayload) (o : Order) (r : Result)
    → NoText r
    → (logins (after_account q p o r).0 ≡ [])
      ⊎ (logins (after_account q p o r).0 ≡ login_without_password o ∷ [])
unfolding after_account account_messages commands
after_account-logins q p o (resp, t) no_text = elim (Bool-cases (eqb resp.status 500)) [
  | inl b ↦ inl (rw b refl)
  | inr b ↦ elim (Bool-cases (eqb resp.status 409)) [
    | inl c ↦
        inr
          (rw (b, c, no_text, combined-logins (q.login_error (login_without_password o)) none) refl)
    | inr c ↦ inr (
        rw
          (
            b,
            c,
            no_text,
            combined-logins (q.login_error (login_without_password o)) (q.save_error p),
          )
          refl)
  ]
]

-- The callback enqueues at most one login command, and only for a payment with the result code 0
-- and an order; the command has the device, address and username of the order, and an empty
-- password, even where the user has one: the answer of `ManageHotspotUser` holds a pointer, which
-- the type assertion to a text does not accept.
pub callback_logins :
    (e : Engine) (host : Host) (q : QueueClient) (db : AppDb) (p : MpesaCallbackPayload) (s : Shop)
    (t : Tables)
    → (logins (mpesa_stk_handler_callback e host q db p s t).0 ≡ [])
      ⊎ ((o : Order) × (db.first_order p.checkout_request_id s ≡ found o)
          × (eq_ℤ p.result_code (pos 0) ≡ true)
          × (logins (mpesa_stk_handler_callback e host q db p s t).0
              ≡ login_without_password o ∷ []))
unfolding Ends
callback_logins e host q db p s t = elim (callback-Ends e host q db p s t) [
  | inl (n, m, h) ↦ inl (rw h refl)
  | inr (inl (o, _, _, h)) ↦ inl (rw h refl)
  | inr (inr (o, found_o, zero_code, h)) ↦
      elim (after_account-logins q p o (manage_hotspot_user e host (subscription_of p o) true t)
        (manage-NoText e host (subscription_of p o) t)) [
          | inl nothing ↦ inl (ap (λ (r : List Event × Tables). logins r.0) h ∙ nothing)
          | inr one ↦
              inr (o, found_o, zero_code, ap (λ (r : List Event × Tables). logins r.0) h ∙ one)
        ]
]
