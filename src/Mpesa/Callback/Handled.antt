-- ===== src/Mpesa/Callback/Handled.antt =====
-- What the callback does, in every case.
use wifigo.Base.{
  ℕ, String, Bool, true, false, ◌≡◌, refl, ap, ◌⊎◌, inl, inr, Option, none, some, List, [], ◌∷◌,
  eqb, if◌then◌else◌, Bool-cases,
}
use wifigo.Base.Int.{pos, eq_ℤ}
use wifigo.Base.Lists.{length, filter}
use wifigo.Radius.Rows.{Tables}
use wifigo.Radius.Engine.{Engine, IsSql}
use wifigo.Radius.Transaction.{Result}
use wifigo.Radius.Subscription.{Host, hotspot_user_of, manage_hotspot_user}
use wifigo.Radius.Subscription.Managed.{Subscribed, manage_all_or_nothing}
use wifigo.Mpesa.Orders.{
  Order, MpesaCallbackPayload, Shop, record_not_found, broken, Found, found, missing, AppDb,
}
use wifigo.Mpesa.Callback.{
  MikrotikLogin, reporting, Event, send, enqueue_login, enqueue_save, answer, QueueClient,
  subscription_of, login_of, account_messages, combined, commands, after_account, paid,
  mpesa_stk_handler_callback,
}

abbrev pub is_answer : Event → Bool
is_answer (answer _ _) = true
is_answer _ = false

-- The login commands among the events.
abbrev pub logins : List Event → List MikrotikLogin
logins [] = []
logins (enqueue_login l ∷ es) = l ∷ logins es
logins (send _ _ _ _ ∷ es) = logins es
logins (enqueue_save _ _ ∷ es) = logins es
logins (answer _ _ ∷ es) = logins es

combined-answer : (x y : Option String) → is_answer (combined x y) ≡ true
unfolding combined
combined-answer none none = refl
combined-answer none (some _) = refl
combined-answer (some _) none = refl
combined-answer (some _) (some _) = refl

after_account-answer :
    (q : QueueClient) (p : MpesaCallbackPayload) (o : Order) (r : Result)
    → length (filter is_answer (after_account q p o r).0) ≡ 1
unfolding after_account account_messages commands
after_account-answer q p o (resp, t) = elim (Bool-cases (eqb resp.status 500)) [
  | inl b ↦ rw b refl
  | inr b ↦ elim (Bool-cases (eqb resp.status 409)) [
    | inl c ↦ rw (b, c, combined-answer (q.login_error (login_of o resp)) none) refl
    | inr c ↦ rw (b, c, combined-answer (q.login_error (login_of o resp)) (q.save_error p)) refl
  ]
]

-- What is made of a payment that failed.
abbrev pub turned_down : MpesaCallbackPayload → Order → List Event
turned_down p o =
    enqueue_save p reporting
    ∷ send o.ip "payment" "failed" p.result_desc
    ∷ answer 200 "Failed payment received and processed."
    ∷ []

module _ (e : Engine) (host : Host) (q : QueueClient) (db : AppDb) (p : MpesaCallbackPayload)
    (s : Shop) (t : Tables) where
  -- The order of the callback.
  abbrev pub IsOrder : Order → Type 0
  IsOrder o = db.first_order p.checkout_request_id s ≡ found o

  -- The three ends of the callback.
  unfoldable pub Ends : List Event × Tables → Type 0
  Ends r =
      ((n : ℕ) × (m : String) × (r ≡ (answer n m ∷ [], t)))
      ⊎ ((o : Order) × IsOrder o
          × (eq_ℤ p.result_code (pos 0) ≡ false)
          × (r ≡ (turned_down p o, t)))
      ⊎ ((o : Order) × IsOrder o
          × (eq_ℤ p.result_code (pos 0) ≡ true)
          × (r ≡ after_account q p o (manage_hotspot_user e host (subscription_of p o) true t)))

  paid-zero :
      (o : Order)
      → eq_ℤ p.result_code (pos 0) ≡ true
      → paid e host q p o t
        ≡ after_account q p o (manage_hotspot_user e host (subscription_of p o) true t)
  unfolding paid
  paid-zero o b =
      ap
        (λ c.
          if c
          then after_account q p o (manage_hotspot_user e host (subscription_of p o) true t)
          else (turned_down p o, t))
        b

  paid-other :
      (o : Order) → eq_ℤ p.result_code (pos 0) ≡ false → paid e host q p o t ≡ (turned_down p o, t)
  unfolding paid
  paid-other o b =
      ap
        (λ c.
          if c
          then after_account q p o (manage_hotspot_user e host (subscription_of p o) true t)
          else (turned_down p o, t))
        b

  abbrev looked_up : Found → List Event × Tables
  looked_up (missing record_not_found) =
      (answer 404 "Associated order not found for this M-Pesa callback." ∷ [], t)
  looked_up (missing (broken why)) = (answer 500 "Failed to fetch order from database." ∷ [], t)
  looked_up (found o) = paid e host q p o t

  pub callback-Ends : Ends (mpesa_stk_handler_callback e host q db p s t)
  unfolding mpesa_stk_handler_callback Ends
  callback-Ends = split (db.first_order p.checkout_request_id s) refl
    where
      split : (x : Found) → db.first_order p.checkout_request_id s ≡ x → Ends (looked_up x)
      split (missing record_not_found) h = inl (404, _, refl)
      split (missing (broken why)) h = inl (500, _, refl)
      split (found o) h = elim (Bool-cases (eq_ℤ p.result_code (pos 0))) [
        | inl b ↦ inr (inr (o, h, b, paid-zero o b))
        | inr b ↦ inr (inl (o, h, b, paid-other o b))
      ]

  -- The callback answers its request exactly once, whatever fails.
  pub callback_answers_once :
      length (filter is_answer (mpesa_stk_handler_callback e host q db p s t).0) ≡ 1
  unfolding Ends
  callback_answers_once = elim callback-Ends [
    | inl (n, m, h) ↦ rw h refl
    | inr (inl (o, _, _, h)) ↦ rw h refl
    | inr (inr (o, _, _, h)) ↦
        rw h (after_account-answer q p o (manage_hotspot_user e host (subscription_of p o) true t))
  ]

  after_account-tables : (o : Order) (r : Result) → (after_account q p o r).1 ≡ r.1
  unfolding after_account
  after_account-tables o (resp, u) = elim (Bool-cases (eqb resp.status 500)) [
    | inl b ↦ rw b refl
    | inr b ↦ rw b refl
  ]

  -- The callback leaves the RADIUS tables as they were; or the payment has the result code 0 and an
  -- order, and the user of the order is created, or updated where the subscription had run out,
  -- with the service plan of the order as group and its duration as expiration. This holds
  -- whichever statements of the RADIUS database fail.
  pub callback_tables :
      IsSql e
      → ((mpesa_stk_handler_callback e host q db p s t).1 ≡ t)
        ⊎ ((o : Order) × IsOrder o
            × (eq_ℤ p.result_code (pos 0) ≡ true)
            × ((password : Option String) × Subscribed e host
                  (hotspot_user_of host (subscription_of p o) password)
                  t
                  (mpesa_stk_handler_callback e host q db p s t).1))
  unfolding Ends
  callback_tables sql = elim callback-Ends [
    | inl (n, m, h) ↦ inl (rw h refl)
    | inr (inl (o, _, _, h)) ↦ inl (rw h refl)
    | inr (inr (o, found_o, zero_code, h)) ↦
        rw (h, after_account-tables o (manage_hotspot_user e host (subscription_of p o) true t))
          (elim (manage_all_or_nothing e sql host (subscription_of p o) t true) [
            | inl (_, (password, done)) ↦ inr (o, found_o, zero_code, (password, done))
            | inr (_, same) ↦ inl same
          ])
  ]
