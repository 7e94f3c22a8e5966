-- ===== src/Radius/Subscription.antt =====
-- `IsUserExpired` of server/handler/hotspot_user.go and `ManageHotspotUser` of
-- server/handler/radius.go.
pub mod Verdict
pub mod Managed
pub mod Activation
use wifigo.Base.{
  ℕ, String, Bool, true, false, Option, none, some, List, [], ◌∷◌, eqb, if◌then◌else◌,
}
use wifigo.Base.Int.{ℤ, pos, ◌+ℤ◌, lt_ℤ}
use wifigo.Base.Texts.{◌==◌, concat}
use wifigo.Base.Outcome.{Outcome, ok, err, wrap}
use wifigo.Radius.Rows.{RadAttr, Tables, AttrInput, HotspotUserInput, HotspotSubscriptionRequest}
use wifigo.Radius.Engine.{direct, Engine}
use wifigo.Radius.Queries.{user_exists, get_rad_check_attributes}
use wifigo.Radius.Transaction.{
  Response, Field, text, number, details, pointer, null, refuse, Result,
}
use wifigo.Radius.Create.{create_hotspot_user}
use wifigo.Radius.Update.{update_hotspot_user}

-- What the handlers use of the packages time and fmt. Instants are counted in seconds, as the
-- layout "Jan 2 2006 15:04:05" does.
pub record Host : Type 0 where
  -- `time.Now()`, where the new expiration is computed.
  pub now : ℤ
  -- `time.Now()`, where the old one is compared with it.
  pub checked : ℤ
  -- `t.Format("Jan 2 2006 15:04:05")`
  pub format : ℤ → String
  -- `time.ParseInLocation("Jan 2 2006 15:04:05", s, loc)`, in the location of `time.Now()`.
  pub parse : String → Outcome ℤ
  -- `fmt.Sprint(n)`
  pub sprint : ℤ → String

-- "NO_EXIST", "EXPIRED" and "NOT_EXPIRED"; "error" comes with the error.
pub data UserStatus : Type 0 where
  no_exist expired not_expired : UserStatus

-- The comparison of an expiration text with the clock.
unfoldable pub judge : Host → String → String → Outcome UserStatus
judge host username expiration =
    if expiration == "" then ok expired else elim (host.parse expiration) [
      | err why ↦
          err (concat "failed to parse expiration for user " (concat username (concat ": " why)))
      | ok expire_time ↦ ok (if lt_ℤ expire_time host.checked then expired else not_expired)
    ]

unfoldable pub is_user_expired : Engine → Host → String → Tables → Outcome UserStatus
is_user_expired e host username t = elim (user_exists e direct username t) [
  | err why ↦ err why
  | ok false ↦ ok no_exist
  | ok true ↦ elim (e.select_value direct username "Expiration" t) [
    | err why ↦
        err (concat "failed to fetch expiration for user " (concat username (concat ": " why)))
    | ok expiration ↦ judge host username expiration
  ]
]

-- The first `Cleartext-Password` of the user's rows, else the password of the request.
unfoldable pub stored_password : List RadAttr → Option String → Option String
stored_password [] password = password
stored_password (r ∷ rows) password =
    if r.attribute == "Cleartext-Password" then some r.value else stored_password rows password

-- `time.Now().Add(time.Duration(duration) * time.Second).Format(…)`, for durations that an `int64`
-- of nanoseconds holds.
abbrev pub expiration_of : Host → HotspotSubscriptionRequest → String
expiration_of host req = host.format (host.now +ℤ req.duration)

abbrev pub hotspot_user_of : Host → HotspotSubscriptionRequest → Option String → HotspotUserInput
hotspot_user_of host req password = record {
  username = req.username;
  password = password;
  check_attributes = some (
      record { attribute = "Expiration"; op = ":="; value = expiration_of host req }
      ∷ record { attribute = "Simultaneous-Use"; op = ":="; value = host.sprint req.devices }
      ∷ []);
  reply_attributes = none;
  groups = some (record { groupname = req.service_name; priority = some (pos 1) } ∷ []);
}

-- `fmt.Sprintf("…%v", resp["error"])`, for the texts that the handlers put there.
abbrev error_text : Response → String
error_text r = find r.body
  where
    find : List (String × Field) → String
    find [] = "<nil>"
    find ((key, text why) ∷ fields) = if key == "error" then why else find fields
    find ((key, number n) ∷ fields) = find fields
    find ((key, details d) ∷ fields) = find fields
    find ((key, pointer p) ∷ fields) = find fields
    find ((key, null) ∷ fields) = find fields

-- The end of a successful request.
abbrev subscribed : HotspotSubscriptionRequest → Option String → Response
subscribed req password = record {
  body =
      ("message", text "Subscription made successfully")
      ∷ ("username", text req.username)
      ∷ ("password", pointer password)
      ∷ ("group", text req.service_name)
      ∷ [];
  status = 200;
}

-- What is made of the answer of `CreateHotspotUser` or `UpdateHotspotUser`: `good` is the status
-- that it has to have.
unfoldable pub relay : String → ℕ → HotspotSubscriptionRequest → Option String → Result → Result
relay what good req password (resp, t) =
    if eqb resp.status good
    then (subscribed req password, t)
    else (refuse resp.status (concat what (error_text resp)), t)

-- The part after the password has been looked up.
unfoldable pub subscribe :
    Engine → Host → HotspotSubscriptionRequest → Bool → Option String → Tables → Result
subscribe e host req is_subscribing password t = elim (is_user_expired e host req.username t) [
  | ok not_expired ↦
      if is_subscribing
      then (
        refuse 409 (concat "User " (concat req.username " already has an active subscription")),
        t,
      )
      else (record { body = ("error", null) ∷ []; status = 500 }, t)
  | ok no_exist ↦
      relay "Failed to create user: " 201 req password
        (create_hotspot_user e (hotspot_user_of host req password) t)
  | ok expired ↦
      relay "Failed to update user: " 200 req password
        (update_hotspot_user e (hotspot_user_of host req password) t)
  | err why ↦ (refuse 500 why, t)
]

-- `getRadCheckAttributes` returns a nil slice with an error only: a scan into a slice makes one.
unfoldable pub manage_hotspot_user :
    Engine → Host → HotspotSubscriptionRequest → Bool → Tables → Result
manage_hotspot_user e host req is_subscribing t =
    if req.is_home_user
    then elim (get_rad_check_attributes e req.username t) [
      | ok rows ↦ subscribe e host req is_subscribing (stored_password rows req.password) t
      | err why ↦
          if is_subscribing
          then (refuse 404 (concat "User " (concat req.username " does not exist!")), t)
          else subscribe e host req is_subscribing req.password t
    ]
    else subscribe e host req is_subscribing req.password t
