-- ===== src/Radius/Attributes/Upsert.antt =====
-- `AddOrUpdateRadCheckAttribute` of server/handler/hotspot_user.go.
use wifigo.Base.{String, Bool, false, ◌≡◌, ◌≢◌, List, [], ◌∷◌, map, ◌⊎◌, if◌then◌else◌}
use wifigo.Base.Texts.{◌==◌}
use wifigo.Radius.Rows.{Tables, AttrInput}
use wifigo.Radius.Engine.{direct, Engine, IsSql}
use wifigo.Radius.Queries.{check_attribute_exists, insert_rad_check, update_rad_check_attribute}
use wifigo.Radius.Transaction.{Response, text, Tx, pure, ◌>>=◌, ◌>>◌, write, query, failed, Result}
use wifigo.Radius.Transaction.Stops.{Stops}
use wifigo.Radius.Create.{op_or_default}
use wifigo.Radius.Update.{Setting}
use wifigo.Radius.Update.Columns.{settings_in}
use wifigo.Radius.Attributes.{require_user}

-- A row that is there is overwritten, as often as it is there; else one is added.
abbrev pub overwritten {ℓ} : {P : Type ℓ} → P → List P → List P
overwritten p [] = p ∷ []
overwritten p (_ ∷ old) = p ∷ map (λ _. p) old

-- What a successful upsert of a check attribute has done: the user's rows under its name hold the
-- setting, and there is one; rows under other names, and the other tables, are as they were.
pub record CheckSet (u a : String) (p : Setting) (t t' : Tables) : Type 0 where
  pub here : settings_in u a t'.radcheck ≡ overwritten p (settings_in u a t.radcheck)
  pub elsewhere :
      (b : String) → (a == b) ≡ false → settings_in u b t'.radcheck ≡ settings_in u b t.radcheck
  pub replies_left : t'.radreply ≡ t.radreply
  pub groups_left : t'.radusergroup ≡ t.radusergroup

-- What a handler that sets an attribute leaves behind.
abbrev pub Sets : String → String → Setting → Tables → Result → Type 0
Sets u a p t (r, t') = ((r.status ≡ 200) × CheckSet u a p t t') ⊎ ((r.status ≢ 200) × (t' ≡ t))

module _ (e : Engine) (sql : IsSql e) (u : String) (input : AttrInput) where
  abbrev pub setting : Setting
  setting = (op_or_default input.op, input.value)

  abbrev written : Bool → Tx (Unit {0})
  written exists =
      if exists
      then write
          (update_rad_check_attribute e u input.attribute (op_or_default input.op) input.value)
          (failed "Failed to update attribute: ")
      else write (insert_rad_check e direct u input.attribute (op_or_default input.op) input.value)
          (failed "Failed to add attribute: ")

  -- The whole handler, as one chain of steps.
  abbrev upsert : Tx Response
  upsert = do
    require_user e u
    exists ←
        query (check_attribute_exists e u input.attribute)
          (failed "Failed to check if attribute exists: ")
    written exists
    pure (record {
      body =
          ("message", text "Attribute updated successfully")
          ∷ ("username", text u)
          ∷ ("attribute", text input.attribute)
          ∷ ("value", text input.value)
          ∷ [];
      status = 200;
    })
