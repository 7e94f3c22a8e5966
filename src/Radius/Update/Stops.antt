-- ===== src/Radius/Update/Stops.antt =====
-- The status that `UpdateHotspotUser` answers with where one of its statements fails.
use wifigo.Base.{
  ℕ, String, Bool, false, Option, none, some, List, map, inl, inr, Bool-cases, if◌then◌else◌,
}
use wifigo.Base.Texts.{◌==◌}
use wifigo.Radius.Rows.{HotspotUserInput, AttrInput, RadUserGroupInput}
use wifigo.Radius.Engine.{Session, Engine}
use wifigo.Radius.Queries.{
  insert_rad_check, delete_rad_check_attribute_tx, get_rad_check_attributes_tx,
  get_rad_reply_attributes_tx, get_rad_user_groups_tx,
}
use wifigo.Radius.Transaction.{pure, write, query, failed}
use wifigo.Radius.Transaction.Stops.{Stops, >>=-Stops, >>-Stops, query-Stops, write-Stops}
use wifigo.Radius.Sync.{sync}
use wifigo.Radius.Sync.Stops.{sync-Stops}
use wifigo.Radius.Update.{
  check_column, reply_column, group_column, check_map, attr_map, group_map, attr_item, group_item,
  should_preserve, update_password, update_checks, update_replies, update_groups, update_steps,
}

module _ (Q : ℕ → Type 0) (q : Q 500) (e : Engine) (s : Session) (u : String) where
  update_password-Stops : (p : Option String) → Stops Q (update_password e s u p)
  unfolding update_password
  update_password-Stops none =
      >>-Stops Q
        (write (insert_rad_check e s u "Auth-Type" ":=" "Accept") (failed "Failed to add accept: "))
        _ (write-Stops Q _ _ (λ _. q)) (λ t. tt)
  update_password-Stops (some p) =
      >>-Stops Q
        (write (delete_rad_check_attribute_tx e s u "Cleartext-Password")
          (failed "Failed to update password: "))
        _ (write-Stops Q _ _ (λ _. q))
        (>>-Stops Q
          (if p == ""
            then pure tt
            else write (insert_rad_check e s u "Cleartext-Password" ":=" p)
                (failed "Failed to update password: "))
          _
          (λ t. elim (Bool-cases (p == "")) [
            | inl c ↦ rw c tt
            | inr c ↦ rw c (
                write-Stops Q (insert_rad_check e s u "Cleartext-Password" ":=" p)
                  (failed "Failed to update password: ") (λ _. q) t)
          ])
          (λ t. tt))

  update_checks-Stops :
      (added : Bool) (inputs : Option (List AttrInput)) → Stops Q (update_checks e s u added inputs)
  unfolding update_checks check_column
  update_checks-Stops added none t = tt
  update_checks-Stops added (some inputs) t =
      >>=-Stops Q
        (query (get_rad_check_attributes_tx e s u)
          (failed "Failed to get current check attributes: "))
        (λ rows.
          sync (check_column e s u) (should_preserve added) (check_map rows) (map attr_item inputs))
        (query-Stops Q _ _ (λ _. q))
        (λ rows.
          sync-Stops Q (check_column e s u) (λ k p. write-Stops Q _ _ (λ _. q))
            (λ k p. write-Stops Q _ _ (λ _. q)) (λ k. write-Stops Q _ _ (λ _. q))
            (should_preserve added) (check_map rows) (map attr_item inputs))
        t

  update_replies-Stops : (inputs : Option (List AttrInput)) → Stops Q (update_replies e s u inputs)
  unfolding update_replies reply_column
  update_replies-Stops none t = tt
  update_replies-Stops (some inputs) t =
      >>=-Stops Q
        (query (get_rad_reply_attributes_tx e s u)
          (failed "Failed to get current reply attributes: "))
        (λ rows. sync (reply_column e s u) (λ _. false) (attr_map rows) (map attr_item inputs))
        (query-Stops Q _ _ (λ _. q))
        (λ rows.
          sync-Stops Q (reply_column e s u) (λ k p. write-Stops Q _ _ (λ _. q))
            (λ k p. write-Stops Q _ _ (λ _. q)) (λ k. write-Stops Q _ _ (λ _. q)) (λ _. false)
            (attr_map rows) (map attr_item inputs))
        t

  update_groups-Stops :
      (inputs : Option (List RadUserGroupInput)) → Stops Q (update_groups e s u inputs)
  unfolding update_groups group_column
  update_groups-Stops none t = tt
  update_groups-Stops (some inputs) t =
      >>=-Stops Q (query (get_rad_user_groups_tx e s u) (failed "Failed to get current groups: "))
        (λ rows. sync (group_column e s u) (λ _. false) (group_map rows) (map group_item inputs))
        (query-Stops Q _ _ (λ _. q))
        (λ rows.
          sync-Stops Q (group_column e s u) (λ k p. write-Stops Q _ _ (λ _. q))
            (λ k p. write-Stops Q _ _ (λ _. q)) (λ k. write-Stops Q _ _ (λ _. q)) (λ _. false)
            (group_map rows) (map group_item inputs))
        t

pub update_steps-Stops :
    (Q : ℕ → Type 0)
    → Q 500
    → (e : Engine) (i : HotspotUserInput) (s : Session) → Stops Q (update_steps e i s)
unfolding update_steps
update_steps-Stops Q q e i s =
    >>=-Stops Q (update_password e s i.username i.password) _
      (update_password-Stops Q q e s i.username i.password)
      λ added.
        >>-Stops Q (update_checks e s i.username added i.check_attributes) _
          (update_checks-Stops Q q e s i.username added i.check_attributes)
          (>>-Stops Q (update_replies e s i.username i.reply_attributes) _
            (update_replies-Stops Q q e s i.username i.reply_attributes)
            (>>-Stops Q (update_groups e s i.username i.groups) _
              (update_groups-Stops Q q e s i.username i.groups) (λ t. tt)))
