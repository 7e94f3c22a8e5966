-- ===== src/Radius/Update/AllOrNothing.antt =====
-- The whole of `UpdateHotspotUser` (server/handler/hotspot_user.go), with its transaction.
use wifigo.Base.{
  String, Bool, true, false, ◌≡◌, ◌≢◌, refl, subst, ◌∙◌, Option, none, ◌⊎◌, inl, inr, arith,
}
use wifigo.Base.Texts.{◌==◌}
use wifigo.Base.Outcome.{Outcome, ok, err}
use wifigo.Radius.Rows.{Tables, HotspotUserInput}
use wifigo.Radius.Engine.{Session, direct, tx, Engine, IsSql}
use wifigo.Radius.Queries.{user_exists}
use wifigo.Radius.Transaction.{go, Result, finish, failed, refuse}
use wifigo.Radius.Transaction.Steps.{After, >>=-After, finish-Ended}
use wifigo.Radius.Update.{
  should_preserve, update_password, update_checks, update_replies, update_groups, update_steps,
  update_hotspot_user,
}
use wifigo.Radius.Update.Steps.{update_groups-view, update_replies-view, update_checks-view}
use wifigo.Radius.Update.Stops.{update_steps-Stops}
use wifigo.Radius.Update.Updated.{
  Updated, password-settings, groups_before, replies_before, replies_after, checks_after,
  others_after,
}

unpreserved :
    (added : Bool) (a : String)
    → (a == "Cleartext-Password") ≡ false
    → (a == "Auth-Type") ≡ false
    → should_preserve added a ≡ false
unfolding should_preserve
unpreserved added a p q = ground arith

module _ (e : Engine) (sql : IsSql e) (began : Option String) (i : HotspotUserInput) where
  no_groups :
      (s : Session) (t t' : Tables)
      → update_groups e s i.username none t ≡ go tt t'
      → t'.radusergroup ≡ t.radusergroup
  unfolding update_groups
  no_groups s t t' h = ground arith

  no_replies :
      (s : Session) (t t' : Tables)
      → update_replies e s i.username none t ≡ go tt t'
      → t'.radreply ≡ t.radreply
  unfolding update_replies
  no_replies s t t' h = ground arith

  update_steps-Updated :
      (t : Tables)
      → After (update_steps e i (tx began)) t (λ r t'. (r.status ≡ 200) × Updated i t t')
  unfolding update_steps
  update_steps-Updated t =
      >>=-After (update_password e (tx began) i.username i.password) _ t λ added t₁ ran₁.
        >>=-After (update_checks e (tx began) i.username added i.check_attributes) _ t₁ λ _ t₂ ran₂.
          >>=-After (update_replies e (tx began) i.username i.reply_attributes) _ t₂ λ _ t₃ ran₃.
            >>=-After (update_groups e (tx began) i.username i.groups) _ t₃ λ _ t₄ ran₄ r t' done.
              let last : t₄ ≡ t' = ground arith in
              (
                ground arith,
                subst (Updated i t) last (record {
                  groups_wanted = λ inputs given g once few.
                      let before =
                        groups_before e sql began i t t₁ t₂ t₃ t₄ added ran₁ ran₂ ran₃ ran₄ in
                      update_groups-view e sql began i.username inputs g t₃ once (rw before few) tt
                        t₄ (rw given at ran₄);
                  replies_wanted = λ inputs given a once few.
                      let before =
                        replies_before e sql began i t t₁ t₂ t₃ t₄ added ran₁ ran₂ ran₃ ran₄ in
                      let after =
                        replies_after e sql began i t t₁ t₂ t₃ t₄ added ran₁ ran₂ ran₃ ran₄ in
                      rw after (
                        update_replies-view e sql began i.username inputs a t₂ once (rw before few)
                          tt t₃ (rw given at ran₃));
                  checks_wanted = λ inputs given a not_password not_auth once few.
                      let before =
                        password-settings e sql began i a t t₁ added not_password not_auth ran₁ in
                      let after =
                        checks_after e sql began i t t₁ t₂ t₃ t₄ added ran₁ ran₂ ran₃ ran₄ in
                      rw after (
                        update_checks-view e sql began i.username added inputs a t₁ not_password
                          (unpreserved added a not_password not_auth) once (rw before few) tt t₂
                          (rw given at ran₂));
                  groups_left = λ absent.
                      no_groups (tx began) t₃ t₄ (rw absent at ran₄)
                      ∙ groups_before e sql began i t t₁ t₂ t₃ t₄ added ran₁ ran₂ ran₃ ran₄;
                  replies_left = λ absent.
                      replies_after e sql began i t t₁ t₂ t₃ t₄ added ran₁ ran₂ ran₃ ran₄
                      ∙ (no_replies (tx began) t₂ t₃ (rw absent at ran₃)
                          ∙ replies_before e sql began i t t₁ t₂ t₃ t₄ added ran₁ ran₂ ran₃ ran₄);
                  others_left = others_after e sql began i t t₁ t₂ t₃ t₄ added ran₁ ran₂ ran₃ ran₄;
                }),
              )

-- What an update that began at `t` leaves behind.
abbrev pub Updates : HotspotUserInput → Tables → Result → Type 0
Updates i t (r, t') = ((r.status ≡ 200) × Updated i t t') ⊎ ((r.status ≢ 200) × (t' ≡ t))

-- `UpdateHotspotUser` answers 200, and then the rows of the user are those that the request asks
-- for, as `Updated` says, and the rows of every other user are as they were; or it answers with
-- another status, and the tables are as they were. This holds whichever statements of the database
-- fail.
pub update_all_or_nothing :
    (e : Engine)
    → IsSql e
    → (i : HotspotUserInput) (t : Tables) → Updates i t (update_hotspot_user e i t)
unfolding update_hotspot_user
update_all_or_nothing e sql i t = split (user_exists e direct i.username t)
  where
    ends : Updates i t (finish e t (update_steps e i (tx (e.begin t)) t))
    ends =
        elim (finish-Ended e 200 (omega arith) (update_steps e i (tx (e.begin t)))
          (update_steps-Stops (λ n. n ≢ 200) (omega arith) e i (tx (e.begin t)))
          (λ v r v' ran. (update_steps-Updated e sql (e.begin t) i v r v' ran).0) t) [
            | inl (good, ran) ↦ inl (good, (update_steps-Updated e sql (e.begin t) i t _ _ ran).1)
            | inr same ↦ inr same
          ]

    split :
        (x : Outcome Bool)
        → Updates i t (elim x [
          | err why ↦ (failed "Failed to check if user exists: " why, t)
          | ok false ↦ (refuse 404 "User not found", t)
          | ok true ↦ finish e t (update_steps e i (tx (e.begin t)) t)
        ])
    split (err why) = inr (omega arith, refl)
    split (ok false) = inr (omega arith, refl)
    split (ok true) = ends
