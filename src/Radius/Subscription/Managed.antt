-- ===== src/Radius/Subscription/Managed.antt =====
-- How `ManageHotspotUser` ends.
use wifigo.Base.{
  ℕ, String, Bool, true, false, ◌≡◌, ◌≢◌, refl, ◌⊎◌, inl, inr, Option, List, [], ◌∷◌, eqb,
  if◌then◌else◌, Bool-cases, eqb_iff, arith,
}
use wifigo.Base.Texts.{concat}
use wifigo.Base.Outcome.{Outcome, ok, err}
use wifigo.Radius.Rows.{RadAttr, Tables, HotspotUserInput, HotspotSubscriptionRequest}
use wifigo.Radius.Engine.{Engine, IsSql, user_rows, counted}
use wifigo.Radius.Queries.{get_rad_check_attributes}
use wifigo.Radius.Transaction.{null, refuse, Result}
use wifigo.Radius.Create.{create_hotspot_user}
use wifigo.Radius.Create.Written.{created}
use wifigo.Radius.Create.Created.{create_all_or_nothing, create_not_200}
use wifigo.Radius.Update.{update_hotspot_user}
use wifigo.Radius.Update.Updated.{Updated}
use wifigo.Radius.Update.AllOrNothing.{update_all_or_nothing}
use wifigo.Radius.Subscription.{
  Host, UserStatus, no_exist, expired, not_expired, is_user_expired, stored_password,
  hotspot_user_of, relay, subscribe, manage_hotspot_user,
}

-- A new user is created, or the rows of one whose subscription has run out are updated.
abbrev pub Subscribed : Engine → Host → HotspotUserInput → Tables → Tables → Type 0
Subscribed e host i t t' =
    ((is_user_expired e host i.username t ≡ ok no_exist)
      × (counted (user_rows i.username) t ≡ 0)
      × (t' ≡ created i t))
    ⊎ ((is_user_expired e host i.username t ≡ ok expired) × Updated i t t')

-- What a request leaves behind, the password being one or another.
abbrev pub Manages : Engine → Host → HotspotSubscriptionRequest → Tables → Result → Type 0
Manages e host req t (r, t') =
    ((r.status ≡ 200)
      × ((password : Option String) × Subscribed e host (hotspot_user_of host req password) t t'))
    ⊎ ((r.status ≢ 200) × (t' ≡ t))

module _ (e : Engine) (sql : IsSql e) (host : Host) (req : HotspotSubscriptionRequest)
    (t : Tables) where
  Made : ℕ → Option String → Result → Type 0
  Made good password (r, t') =
      ((r.status ≡ good) × Subscribed e host (hotspot_user_of host req password) t t')
      ⊎ ((r.status ≢ good) × (r.status ≢ 200) × (t' ≡ t))

  relay-Manages :
      (what : String) (good : ℕ) (password : Option String) (x : Result)
      → Made good password x
      → Manages e host req t (relay what good req password x)
  unfolding relay Made
  relay-Manages what good password (r, t') (inl (fine, done)) =
      rw ((eqb_iff r.status good).1 fine) (inl (refl, (password, done)))
  relay-Manages what good password (r, t') (inr (bad, other, same)) =
      elim (Bool-cases (eqb r.status good)) [
        | inl b ↦ absurd (bad ((eqb_iff r.status good).0 b))
        | inr b ↦ rw b (inr (other, same))
      ]

  create-Made :
      (password : Option String)
      → is_user_expired e host req.username t ≡ ok no_exist
      → Made 201 password (create_hotspot_user e (hotspot_user_of host req password) t)
  unfolding Made
  create-Made password x =
      elim (create_all_or_nothing e sql (hotspot_user_of host req password) t) [
        | inl (good, absent, rows) ↦ inl (good, inl (x, absent, rows))
        | inr (bad, same) ↦ inr (bad, create_not_200 e (hotspot_user_of host req password) t, same)
      ]

  update-Made :
      (password : Option String)
      → is_user_expired e host req.username t ≡ ok expired
      → Made 200 password (update_hotspot_user e (hotspot_user_of host req password) t)
  unfolding Made
  update-Made password x =
      elim (update_all_or_nothing e sql (hotspot_user_of host req password) t) [
        | inl (good, rows) ↦ inl (good, inr (x, rows))
        | inr (bad, same) ↦ inr (bad, bad, same)
      ]

  subscribe-Manages :
      (is_subscribing : Bool) (password : Option String)
      → Manages e host req t (subscribe e host req is_subscribing password t)
  unfolding subscribe
  subscribe-Manages is_subscribing password =
      split (is_user_expired e host req.username t) refl is_subscribing
    where
      split :
          (x : Outcome UserStatus)
          → is_user_expired e host req.username t ≡ x
          → (b : Bool)
          → Manages e host req t (elim x [
            | ok not_expired ↦
                if b
                then (
                  refuse 409
                      (concat "User " (concat req.username " already has an active subscription")),
                  t,
                )
                else (record { body = ("error", null) ∷ []; status = 500 }, t)
            | ok no_exist ↦
                relay "Failed to create user: " 201 req password
                  (create_hotspot_user e (hotspot_user_of host req password) t)
            | ok expired ↦
                relay "Failed to update user: " 200 req password
                  (update_hotspot_user e (hotspot_user_of host req password) t)
            | err why ↦ (refuse 500 why, t)
          ])
      split (ok not_expired) x true = inr (omega arith, refl)
      split (ok not_expired) x false = inr (omega arith, refl)
      split (ok no_exist) x b =
          relay-Manages "Failed to create user: " 201 password _ (create-Made password x)
      split (ok expired) x b =
          relay-Manages "Failed to update user: " 200 password _ (update-Made password x)
      split (err why) x b = inr (omega arith, refl)

  -- `ManageHotspotUser` answers 200, and then, with some password, the user was absent and has been
  -- created, or the subscription of the user had run out and the user's rows have been updated; or
  -- it answers with another status, and the tables are as they were. In particular it never
  -- changes a user whose subscription is active. This holds whichever statements of the database
  -- fail.
  pub manage_all_or_nothing :
      (is_subscribing : Bool)
      → Manages e host req t (manage_hotspot_user e host req is_subscribing t)
  unfolding manage_hotspot_user
  manage_all_or_nothing is_subscribing =
      home req.is_home_user (get_rad_check_attributes e req.username t) is_subscribing
    where
      home :
          (h : Bool) (x : Outcome (List RadAttr)) (b : Bool)
          → Manages e host req t (
              if h
              then elim x [
                | ok rows ↦ subscribe e host req b (stored_password rows req.password) t
                | err why ↦
                    if b
                    then (refuse 404 (concat "User " (concat req.username " does not exist!")), t)
                    else subscribe e host req b req.password t
              ]
              else subscribe e host req b req.password t)
      home false x b = subscribe-Manages b req.password
      home true (ok rows) b = subscribe-Manages b (stored_password rows req.password)
      home true (err why) true = inr (omega arith, refl)
      home true (err why) false = subscribe-Manages false req.password
