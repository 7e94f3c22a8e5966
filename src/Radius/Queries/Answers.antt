-- ===== src/Radius/Queries/Answers.antt =====
-- What the queries of the helper functions have found, where they report no error.
use wifigo.Base.{ℕ, String, Bool, ◌≡◌, refl, ltb, Bool-cases, inl, inr, arith}
use wifigo.Base.Outcome.{Outcome, ok, err, wrap}
use wifigo.Radius.Rows.{Tables}
use wifigo.Radius.Engine.{
  Session, direct, tx, Engine, IsSql, Count, user_rows, attr_rows, group_rows, counted, checks,
  replies,
}
use wifigo.Radius.Queries.{
  positive, user_exists, check_attribute_exists, reply_attribute_exists, user_group_exists,
}

module _ (e : Engine) (sql : IsSql e) where
  positive-ok :
      (prefix : String) (s : Session) (q : Count) (t : Tables) (b : Bool)
      → positive (wrap prefix (e.count s q t)) ≡ ok b
      → b ≡ ltb 0 (counted q t)
  positive-ok prefix s q t b h = split (e.count s q t) refl
    where
      split : (r : Outcome ℕ) → e.count s q t ≡ r → b ≡ ltb 0 (counted q t)
      split (ok n) c = ground (arith, sql.count_rows s q t n c)
      split (err why) c = ground arith

  pub user_exists-ok :
      (s : Session) (u : String) (t : Tables) (b : Bool)
      → user_exists e s u t ≡ ok b
      → b ≡ ltb 0 (counted (user_rows u) t)
  unfolding user_exists
  user_exists-ok direct u t b h = elim (Bool-cases e.available) [
    | inl up ↦ positive-ok "failed to query user existence: " direct (user_rows u) t b (rw up at h)
    | inr down ↦ ground arith
  ]
  user_exists-ok (tx x) u t b h =
      positive-ok "failed to query user existence: " (tx x) (user_rows u) t b h

  pub check_attribute_exists-ok :
      (u a : String) (t : Tables) (b : Bool)
      → check_attribute_exists e u a t ≡ ok b
      → b ≡ ltb 0 (counted (attr_rows checks u a) t)
  unfolding check_attribute_exists
  check_attribute_exists-ok u a t b h =
      positive-ok "failed to check radcheck attribute existence: " direct (attr_rows checks u a) t b
        h

  pub reply_attribute_exists-ok :
      (u a : String) (t : Tables) (b : Bool)
      → reply_attribute_exists e u a t ≡ ok b
      → b ≡ ltb 0 (counted (attr_rows replies u a) t)
  unfolding reply_attribute_exists
  reply_attribute_exists-ok u a t b h =
      positive-ok "failed to check radreply attribute existence: " direct (attr_rows replies u a) t
        b h

  pub user_group_exists-ok :
      (u g : String) (t : Tables) (b : Bool)
      → user_group_exists e u g t ≡ ok b
      → b ≡ ltb 0 (counted (group_rows u g) t)
  unfolding user_group_exists
  user_group_exists-ok u g t b h =
      positive-ok "failed to check user group existence: " direct (group_rows u g) t b h
