-- ===== src/Mpesa/Phone.antt =====
-- Phone numbers: the normalisation in `ParseCallback` of server/handler/mpesa_callback.go and
-- `formatPhoneNumber` of server/handler/mpesa_stk.go.
pub mod Agreement
use Prim.Native.Nat.{ℕ}
use Prim.Native.Char.{code}
use Prim.Native.String
use Prim.Native.String.{len}
use wifigo.Base.{String, Bool, false, ◌&&◌, ◌||◌, eqb, if◌then◌else◌}
use wifigo.Base.Texts.{concat}
use wifigo.Base.Words.{has_prefix}

-- `s[0] == c`, and `s[:1] == string(c)`, of a text that is not empty.
unfoldable pub starts_with : ℕ → String → Bool
starts_with n String.[] = false
starts_with n (String.◌∷◌ c s) = eqb (code c) n

-- `s[1:]`, of a text that starts with a character of one byte.
unfoldable pub tail : String → String
tail String.[] = ""
tail (String.◌∷◌ c s) = s

-- The number as the callback stores it: 55, 49 and 48 are the digits 7, 1 and 0.
unfoldable pub stored_phone : String → String
stored_phone raw =
    if eqb (len raw) 9 && (starts_with 55 raw || starts_with 49 raw)
    then concat "254" raw
    else if eqb (len raw) 12 && has_prefix raw "254"
    then raw
    else if eqb (len raw) 10 && starts_with 48 raw
    then concat "254" (tail raw)
    else raw

-- `formatPhoneNumber`
unfoldable pub format_phone_number : String → String
format_phone_number phone =
    if eqb (len phone) 10 && starts_with 48 phone
    then concat "254" (tail phone)
    else if eqb (len phone) 9 && starts_with 55 phone
    then concat "254" phone
    else if eqb (len phone) 13 && has_prefix phone "+254"
    then tail phone
    else phone
