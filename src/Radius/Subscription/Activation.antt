-- ===== src/Radius/Subscription/Activation.antt =====
-- What a user has after `ManageHotspotUser` answered 200, as `IsUserExpired` sees it.
use wifigo.Base.{
  ◌≤◌, String, Bool, false, ◌≡◌, ◌≢◌, refl, sym, ap, ◌∙◌, inl, inr, Option, none, some, List, [],
  ◌∷◌, ◌++◌, map, Bool-cases, arith,
}
use wifigo.Base.Int.{◌+ℤ◌, lt_ℤ}
use wifigo.Base.Texts.{◌==◌, test_self}
use wifigo.Base.Lists.{length, lookup, filter}
use wifigo.Base.Outcome.{ok}
use wifigo.Radius.Rows.{RadAttr, Tables, AttrInput, HotspotSubscriptionRequest}
use wifigo.Radius.Engine.{Engine, IsSql, SomeValue, counted, owns, is_attr}
use wifigo.Radius.Create.Written.{credential, attr_row}
use wifigo.Radius.Sync.Laws.{AtMostOnce, to_list}
use wifigo.Radius.Update.{Setting, attr_item}
use wifigo.Radius.Update.Columns.{settings_in}
use wifigo.Radius.Subscription.{
  Host, UserStatus, no_exist, expired, not_expired, is_user_expired, expiration_of, hotspot_user_of,
  manage_hotspot_user,
}
use wifigo.Radius.Subscription.Verdict.{Verdict, is_user_expired-Verdict}
use wifigo.Radius.Subscription.Managed.{Subscribed, manage_all_or_nothing}

-- A user without rows has none under a name.
absent_settings :
    (u a : String) (rows : List RadAttr)
    → length (filter (owns u) rows) ≡ 0
    → settings_in u a rows ≡ []
unfolding owns is_attr
absent_settings u a [] h = refl
absent_settings u a (r ∷ rows) h = ground (arith, absent_settings u a rows)

settings_in-append :
    (u a : String) (xs ys : List RadAttr)
    → settings_in u a (xs ++ ys) ≡ settings_in u a xs ++ settings_in u a ys
settings_in-append u a [] ys = refl
settings_in-append u a (x ∷ xs) ys = ground (arith, settings_in-append u a xs ys)

-- The names that the handlers write are distinct.
auth_type_other : ("Auth-Type" == "Expiration") ≡ false
unfolding ◌==◌
auth_type_other = refl

password_other : ("Cleartext-Password" == "Expiration") ≡ false
unfolding ◌==◌
password_other = refl

-- The credential of a new user is not an expiration.
credential_settings :
    (u : String) (p : Option String) (rows : List RadAttr)
    → settings_in u "Expiration" (credential u p ∷ rows) ≡ settings_in u "Expiration" rows
unfolding is_attr
credential_settings u none rows = rw (test_self u, auth_type_other)
credential_settings u (some p) rows = elim (Bool-cases (p == "")) [
  | inl b ↦ rw (b, test_self u, auth_type_other)
  | inr b ↦ rw (b, test_self u, password_other)
]

abbrev settings : RadAttr → Setting
settings r = (r.op, r.value)

-- The one value that a selection can give.
only_value :
    (o x v : String) (rows : List RadAttr)
    → map settings rows ≡ (o, x) ∷ []
    → SomeValue rows v
    → v ≡ x
only_value o x v rows one (inl (nothing, _)) = absurd (ground (arith, one, nothing))
only_value o x v rows one (inr (r, before, after, split, v_value)) =
    v_value ∙ first before (rw split at one)
  where
    first : (before : List RadAttr) → map settings (before ++ r ∷ after) ≡ (o, x) ∷ [] → r.value ≡ x
    first [] h = ground (arith, h)
    first (b ∷ []) h = absurd (ground (arith, h))
    first (b ∷ c ∷ before) h = absurd (ground (arith, h))

-- A row under a name is a row of the user.
settings-owned :
    (u a : String) (p : Setting) (rows : List RadAttr)
    → settings_in u a rows ≡ p ∷ []
    → length (filter (owns u) rows) ≢ 0
unfolding owns is_attr
settings-owned u a p [] h = ground arith
settings-owned u a p (r ∷ rows) h = ground (arith, settings-owned u a p rows)

-- The rows that a request writes, under the name of the expiration.
abbrev inputs_of : Host → HotspotSubscriptionRequest → List AttrInput
inputs_of host req =
    record { attribute = "Expiration"; op = ":="; value = expiration_of host req }
    ∷ record { attribute = "Simultaneous-Use"; op = ":="; value = host.sprint req.devices }
    ∷ []

new_settings :
    (host : Host) (req : HotspotSubscriptionRequest)
    → settings_in req.username "Expiration" (map (attr_row req.username) (inputs_of host req))
      ≡ (":=", expiration_of host req) ∷ []
unfolding is_attr ◌==◌
new_settings host req = rw (test_self req.username)

listed_once :
    (host : Host) (req : HotspotSubscriptionRequest)
    → AtMostOnce "Expiration" (map attr_item (inputs_of host req))
unfolding lookup ◌==◌
listed_once host req = ((λ _. refl), ((λ _. refl), tt))

listed :
    (host : Host) (req : HotspotSubscriptionRequest)
    → to_list (lookup "Expiration" (map attr_item (inputs_of host req)))
      ≡ (":=", expiration_of host req) ∷ []
unfolding lookup ◌==◌
listed host req = refl

not_password : ("Expiration" == "Cleartext-Password") ≡ false
unfolding ◌==◌
not_password = refl

not_auth_type : ("Expiration" == "Auth-Type") ≡ false
unfolding ◌==◌
not_auth_type = refl

-- The new expiration is the one that the user has after a successful request.
Subscribed-settings :
    (e : Engine) (host : Host) (req : HotspotSubscriptionRequest) (password : Option String)
    (t t' : Tables)
    → length (settings_in req.username "Expiration" t.radcheck) ≤ 1
    → Subscribed e host (hotspot_user_of host req password) t t'
    → settings_in req.username "Expiration" t'.radcheck ≡ (":=", expiration_of host req) ∷ []
unfolding counted
Subscribed-settings e host req password t t' few (inl (_, absent, made)) = rw made (
    settings_in-append req.username "Expiration" t.radcheck _
    ∙ rw (absent_settings req.username "Expiration" t.radcheck absent) (
        credential_settings req.username password (map (attr_row req.username) (inputs_of host req))
        ∙ new_settings host req))
Subscribed-settings e host req password t t' few (inr (_, updated)) =
    updated.checks_wanted (inputs_of host req) refl "Expiration" not_password not_auth_type
      (listed_once host req) few
    ∙ listed host req

-- What a later `IsUserExpired` finds, its clock not having passed the end of the duration.
active :
    (host later : Host) (req : HotspotSubscriptionRequest) (t' : Tables)
    → later.parse (expiration_of host req) ≡ ok (host.now +ℤ req.duration)
    → expiration_of host req ≢ ""
    → lt_ℤ (host.now +ℤ req.duration) later.checked ≡ false
    → settings_in req.username "Expiration" t'.radcheck ≡ (":=", expiration_of host req) ∷ []
    → (s : UserStatus) → Verdict later req.username t' s
    → s ≡ not_expired
unfolding counted
active host later req t' parses there early rows no_exist gone =
    absurd (settings-owned req.username "Expiration" _ t'.radcheck rows gone)
active host later req t' parses there early rows not_expired _ = refl
active host later req t' parses there early rows expired (_, (v, found, inl empty)) =
    absurd (there (sym (only_value ":=" (expiration_of host req) v _ rows found) ∙ empty))
active host later req t' parses there early rows expired (_, (v, found, inr (x, parsed, over))) =
    let same = only_value ":=" (expiration_of host req) v _ rows found in
    let again : later.parse (expiration_of host req) ≡ ok x = ap later.parse (sym same) ∙ parsed in
    absurd (ground (arith, again, parses, early, over))

-- A user who had at most one expiration has, after a request that `ManageHotspotUser` answered with
-- 200, an active subscription until the duration is over: where `IsUserExpired` then reports no
-- error, it says "NOT_EXPIRED". The layout of the expiration is assumed to be read back as it was
-- written, and not to be empty.
pub manage-active :
    (e : Engine)
    → IsSql e
    → (host later : Host) (req : HotspotSubscriptionRequest) (is_subscribing : Bool) (t : Tables)
      (s : UserStatus)
    → (manage_hotspot_user e host req is_subscribing t).0.status ≡ 200
    → length (settings_in req.username "Expiration" t.radcheck) ≤ 1
    → later.parse (expiration_of host req) ≡ ok (host.now +ℤ req.duration)
    → expiration_of host req ≢ ""
    → lt_ℤ (host.now +ℤ req.duration) later.checked ≡ false
    → is_user_expired e later req.username (manage_hotspot_user e host req is_subscribing t).1
      ≡ ok s
    → s ≡ not_expired
manage-active e sql host later req is_subscribing t s good few parses there early asked =
    elim (manage_all_or_nothing e sql host req t is_subscribing) [
      | inl (_, (password, done)) ↦
          active host later req _ parses there early
            (Subscribed-settings e host req password t _ few done) s
            (is_user_expired-Verdict e sql later req.username _ s asked)
      | inr (bad, _) ↦ absurd (bad good)
    ]
