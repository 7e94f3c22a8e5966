-- ===== src/Radius/Attributes/Removal.antt =====
-- The three handlers that delete what a user has under one name.
use wifigo.Base.{
  String, Bool, true, false, not, ◌≡◌, ◌≢◌, refl, List, [], ◌∷◌, ◌⊎◌, inl, inr, if◌then◌else◌,
  arith,
}
use wifigo.Base.Lists.{filter, filter-filter_none, filter-filter_all}
use wifigo.Base.Outcome.{Outcome, wrap, wrap-ok}
use wifigo.Radius.Rows.{Tables}
use wifigo.Radius.Engine.{
  checks, replies, Statement, delete_attr, delete_group, direct, Engine, IsSql, effect, is_attr,
  is_group,
}
use wifigo.Radius.Queries.{
  check_attribute_exists, reply_attribute_exists, user_group_exists, delete_rad_check_attribute,
  delete_rad_reply_attribute, delete_rad_user_group,
}
use wifigo.Radius.Transaction.{
  Response, text, Tx, ◌>>=◌, ◌>>◌, write, query, failed, refuse, stop_if, pure, Result,
}
use wifigo.Radius.Transaction.Steps.{After, >>=-After, query-After, write-After, stop_if-After}
use wifigo.Radius.Transaction.Stops.{
  Stops, >>=-Stops, >>-Stops, query-Stops, write-Stops, stop_if-Stops,
}
use wifigo.Radius.Attributes.{
  unguarded, require_user, delete_rad_check_attribute_of, delete_rad_reply_attribute_of,
  delete_rad_user_group_of,
}
use wifigo.Radius.Attributes.Guard.{unguarded-Ended, require_user-go, require_user-Stops}

-- The rows that satisfy a test are gone, and the others are as they were.
pub record Cut {ℓ} {A : Type ℓ} (p : A → Bool) (old new : List A) : Type ℓ where
  pub gone : filter p new ≡ []
  pub kept : filter (λ x. not (p x)) new ≡ filter (λ x. not (p x)) old

filter-Cut {ℓ} : {A : Type ℓ} (p : A → Bool) (xs : List A) → Cut p xs (filter (λ x. not (p x)) xs)
filter-Cut p xs = record {
  gone = filter-filter_none p (λ x. not (p x)) xs (λ x h. ground (arith, h));
  kept = filter-filter_all (λ x. not (p x)) (λ x. not (p x)) xs (λ x h. h);
}

-- The chain of steps that the three handlers share.
module _ (e : Engine) (sql : IsSql e) (u : String) (exists : Tables → Outcome Bool)
    (asking missing deleting prefix : String) (st : Statement) (r : Response)
    (good : r.status ≡ 200) where
  abbrev removal : Tx Response
  removal = do
    require_user e u
    there ← query exists (failed asking)
    stop_if (if there then false else true) (refuse 404 missing)
    write (λ t. wrap prefix (e.exec direct st t)) (failed deleting)
    pure r

  removal-After : (t : Tables) → After removal t (λ x t'. (x.status ≡ 200) × (t' ≡ effect st t))
  removal-After t = >>=-After {P = Done} (require_user e u) _ t λ _ t₁ asked.
      query-After {P = Done} exists (failed asking) _ t₁ λ there found.
        stop_if-After {P = Done} (if there then false else true) (refuse 404 missing) _ t₁ λ _.
          write-After {P = Done} (λ v. wrap prefix (e.exec direct st v)) (failed deleting) _ t₁
            λ t₂ ran x t' done.
              let same : t₁ ≡ t = require_user-go e u t t₁ asked in
              let last : t' ≡ t₂ = ground arith in
              let answer : x ≡ r = ground arith in
              let did =
                sql.exec_effect direct st t₁ t₂ (wrap-ok prefix (e.exec direct st t₁) ran) in
              (rw answer good, rw (last, did, same))
    where
      Done : Response → Tables → Type 0
      Done x t' = (x.status ≡ 200) × (t' ≡ effect st t)

  removal-Stops : Stops (λ n. n ≢ 200) removal
  removal-Stops =
      >>-Stops (λ n. n ≢ 200) (require_user e u) _
        (require_user-Stops (λ n. n ≢ 200) (omega arith) (omega arith) e u)
        (>>=-Stops (λ n. n ≢ 200) (query exists (failed asking)) _
          (query-Stops (λ n. n ≢ 200) _ _ (λ _. omega arith))
          (λ there.
            >>-Stops (λ n. n ≢ 200) (stop_if (if there then false else true) (refuse 404 missing)) _
              (stop_if-Stops (λ n. n ≢ 200) (if there then false else true) (refuse 404 missing)
                (omega arith))
              (>>-Stops (λ n. n ≢ 200)
                (write (λ t. wrap prefix (e.exec direct st t)) (failed deleting)) _
                (write-Stops (λ n. n ≢ 200) _ (failed deleting) (λ _. omega arith)) (λ _. tt))))

  -- It ends with the effect of its statement, or with no effect.
  Effected : Tables → Result → Type 0
  Effected t (x, t') = ((x.status ≡ 200) × (t' ≡ effect st t)) ⊎ ((x.status ≢ 200) × (t' ≡ t))

  removal-Effected : (t : Tables) → Effected t (unguarded removal t)
  unfolding Effected
  removal-Effected t =
      elim (unguarded-Ended 200 removal removal-Stops (λ t₀ x t' h. (removal-After t₀ x t' h).0)
        t) [ inl (fine, ran) ↦ inl (removal-After t _ _ ran) | inr same ↦ inr same ]

-- The answers of the handlers that delete.
abbrev deleted_answer : String → String → String → String → Response
deleted_answer message u key name = record {
  body = ("message", text message) ∷ ("username", text u) ∷ (key, text name) ∷ [];
  status = 200;
}

-- What a handler that deletes from one table leaves behind.
abbrev pub CutsCheck : String → String → Tables → Result → Type 0
CutsCheck u a t (r, t') =
    ((r.status ≡ 200)
      × Cut (is_attr u a) t.radcheck t'.radcheck
      × (t'.radreply ≡ t.radreply)
      × (t'.radusergroup ≡ t.radusergroup))
    ⊎ ((r.status ≢ 200) × (t' ≡ t))

abbrev pub CutsReply : String → String → Tables → Result → Type 0
CutsReply u a t (r, t') =
    ((r.status ≡ 200)
      × Cut (is_attr u a) t.radreply t'.radreply
      × (t'.radcheck ≡ t.radcheck)
      × (t'.radusergroup ≡ t.radusergroup))
    ⊎ ((r.status ≢ 200) × (t' ≡ t))

abbrev pub CutsGroup : String → String → Tables → Result → Type 0
CutsGroup u g t (r, t') =
    ((r.status ≡ 200)
      × Cut (is_group u g) t.radusergroup t'.radusergroup
      × (t'.radcheck ≡ t.radcheck)
      × (t'.radreply ≡ t.radreply))
    ⊎ ((r.status ≢ 200) × (t' ≡ t))

-- `DeleteRadCheckAttribute` answers 200, and then the user has no row under the name of the
-- attribute in `radcheck`, and all other rows of `radcheck` and the other two tables are as they
-- were; or it answers with another status, and the tables are as they were. This holds whichever
-- statements of the database fail.
pub check_delete_all_or_nothing :
    (e : Engine)
    → IsSql e
    → (u a : String) (t : Tables) → CutsCheck u a t (delete_rad_check_attribute_of e u a t)
unfolding delete_rad_check_attribute_of delete_rad_check_attribute effect Effected
check_delete_all_or_nothing e sql u a t =
    elim (removal-Effected e sql u (check_attribute_exists e u a)
      "Failed to check if attribute exists: " "Attribute not found" "Failed to delete attribute: "
      "failed to delete radcheck attribute: " (delete_attr checks u a)
      (deleted_answer "Attribute deleted successfully" u "attribute" a) refl t) [
        | inl (good, h) ↦ inl (good, rw h (filter-Cut (is_attr u a) t.radcheck), rw h, rw h)
        | inr same ↦ inr same
      ]

-- `DeleteRadReplyAttribute` answers 200, and then the user has no row under the name of the
-- attribute in `radreply`, and all other rows of `radreply` and the other two tables are as they
-- were; or it answers with another status, and the tables are as they were. This holds whichever
-- statements of the database fail.
pub reply_delete_all_or_nothing :
    (e : Engine)
    → IsSql e
    → (u a : String) (t : Tables) → CutsReply u a t (delete_rad_reply_attribute_of e u a t)
unfolding delete_rad_reply_attribute_of delete_rad_reply_attribute effect Effected
reply_delete_all_or_nothing e sql u a t =
    elim (removal-Effected e sql u (reply_attribute_exists e u a)
      "Failed to check if attribute exists: " "Attribute not found" "Failed to delete attribute: "
      "failed to delete radreply attribute: " (delete_attr replies u a)
      (deleted_answer "Reply attribute deleted successfully" u "attribute" a) refl t) [
        | inl (good, h) ↦ inl (good, rw h (filter-Cut (is_attr u a) t.radreply), rw h, rw h)
        | inr same ↦ inr same
      ]

-- `DeleteRadUserGroup` answers 200, and then the user is not a member of the group, and all other
-- memberships and the two tables of attributes are as they were; or it answers with another
-- status, and the tables are as they were. This holds whichever statements of the database fail.
pub group_delete_all_or_nothing :
    (e : Engine)
    → IsSql e
    → (u g : String) (t : Tables) → CutsGroup u g t (delete_rad_user_group_of e u g t)
unfolding delete_rad_user_group_of delete_rad_user_group effect Effected
group_delete_all_or_nothing e sql u g t =
    elim (removal-Effected e sql u (user_group_exists e u g) "Failed to check if user is in group: "
      "User is not a member of this group" "Failed to delete user from group: "
      "failed to delete radusergroup: " (delete_group u g)
      (deleted_answer "User removed from group successfully" u "groupname" g) refl t) [
        | inl (good, h) ↦ inl (good, rw h (filter-Cut (is_group u g) t.radusergroup), rw h, rw h)
        | inr same ↦ inr same
      ]
