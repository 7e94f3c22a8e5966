-- ===== src/Radius/Create/Deleted.antt =====
-- What `DeleteHotspotUser` has removed when it answers 200.
use wifigo.Base.{
  ℕ, String, Bool, true, false, ◌≡◌, ◌≢◌, ◌⊎◌, refl, sym, ◌∙◌, inl, inr, none, [], not, arith,
}
use wifigo.Base.Texts.{test_ne, eq_of_test}
use wifigo.Base.Lists.{filter, filter-filter_none, filter-filter_all}
use wifigo.Base.Outcome.{Outcome, ok, err}
use wifigo.Radius.Rows.{RadAttr, RadUserGroup, Tables}
use wifigo.Radius.Engine.{
  checks, replies, Session, direct, tx, Engine, IsSql, effect, delete_user_attrs,
  delete_user_groups, owns, belongs,
}
use wifigo.Radius.Queries.{user_exists}
use wifigo.Radius.Transaction.{Response, go, failed, refuse, Result, in_transaction}
use wifigo.Radius.Transaction.Steps.{After, write-After, in_transaction-Ended}
use wifigo.Radius.Transaction.Stops.{Stops, >>-Stops, write-Stops}
use wifigo.Radius.Create.{delete_steps, delete_hotspot_user}

-- The tables without the user's rows.
abbrev pub deleted : String → Tables → Tables
deleted u t = record {
  radcheck = filter (λ r. not (owns u r)) t.radcheck;
  radreply = filter (λ r. not (owns u r)) t.radreply;
  radusergroup = filter (λ r. not (belongs u r)) t.radusergroup;
}

delete_steps-After :
    (e : Engine)
    → IsSql e
    → (u : String) (t : Tables) → After (delete_steps e u (tx none)) t (λ r t'. t' ≡ deleted u t)
unfolding delete_steps effect
delete_steps-After e sql u t =
    write-After (e.exec (tx none) (delete_user_attrs checks u)) _ _ t λ t₁ ran₁.
      write-After (e.exec (tx none) (delete_user_attrs replies u)) _ _ t₁ λ t₂ ran₂.
        write-After (e.exec (tx none) (delete_user_groups u)) _ _ t₂ λ t₃ ran₃ r t' done.
          let e₀ : t' ≡ t₃ = ground arith in
          let e₁ = sql.exec_effect (tx none) (delete_user_attrs checks u) t t₁ ran₁ in
          let e₂ = sql.exec_effect (tx none) (delete_user_attrs replies u) t₁ t₂ ran₂ in
          let e₃ = sql.exec_effect (tx none) (delete_user_groups u) t₂ t₃ ran₃ in
          rw (e₀, e₃, e₂, e₁)

delete_steps-status :
    (e : Engine) (u : String) (t : Tables)
    → After (delete_steps e u (tx none)) t (λ r _. r.status ≡ 200)
unfolding delete_steps
delete_steps-status e u t =
    write-After (e.exec (tx none) (delete_user_attrs checks u)) _ _ t λ t₁ _.
      write-After (e.exec (tx none) (delete_user_attrs replies u)) _ _ t₁ λ t₂ _.
        write-After (e.exec (tx none) (delete_user_groups u)) _ _ t₂ λ t₃ _ r t' done. ground arith

delete_steps-Stops :
    (Q : ℕ → Type 0)
    → Q 500
    → (e : Engine) (u : String) (s : Session) → Stops Q (delete_steps e u s)
unfolding delete_steps
delete_steps-Stops Q q e u s =
    >>-Stops Q _ _
      (write-Stops Q (e.exec s (delete_user_attrs checks u))
        (failed "Failed to delete from radcheck: ") (λ _. q))
      (>>-Stops Q _ _
        (write-Stops Q (e.exec s (delete_user_attrs replies u))
          (failed "Failed to delete from radreply: ") (λ _. q))
        (>>-Stops Q _ _
          (write-Stops Q (e.exec s (delete_user_groups u))
            (failed "Failed to delete from radusergroup: ") (λ _. q))
          (λ _. tt)))

-- Nothing of user `u` is left, and the rows of every other user are as they were.
pub record Removed (u : String) (t t' : Tables) : Type 0 where
  pub checks_gone : filter (owns u) t'.radcheck ≡ []
  pub replies_gone : filter (owns u) t'.radreply ≡ []
  pub groups_gone : filter (belongs u) t'.radusergroup ≡ []
  pub checks_kept : (v : String) → v ≢ u → filter (owns v) t'.radcheck ≡ filter (owns v) t.radcheck
  pub replies_kept : (v : String) → v ≢ u → filter (owns v) t'.radreply ≡ filter (owns v) t.radreply
  pub groups_kept :
      (v : String) → v ≢ u → filter (belongs v) t'.radusergroup ≡ filter (belongs v) t.radusergroup

owns_other : (u v : String) (r : RadAttr) → v ≢ u → owns v r ≡ true → not (owns u r) ≡ true
unfolding owns
owns_other u v r ne h =
    ground (arith, test_ne r.username u (λ e. ne (sym (eq_of_test r.username v h) ∙ e)))

belongs_other :
    (u v : String) (r : RadUserGroup) → v ≢ u → belongs v r ≡ true → not (belongs u r) ≡ true
unfolding belongs
belongs_other u v r ne h =
    ground (arith, test_ne r.username u (λ e. ne (sym (eq_of_test r.username v h) ∙ e)))

not-false : (b : Bool) → not b ≡ true → b ≡ false
not-false b h = ground arith

deleted-Removed : (u : String) (t : Tables) → Removed u t (deleted u t)
deleted-Removed u t = record {
  checks_gone =
      filter-filter_none (owns u) (λ r. not (owns u r)) t.radcheck (λ r. not-false (owns u r));
  replies_gone =
      filter-filter_none (owns u) (λ r. not (owns u r)) t.radreply (λ r. not-false (owns u r));
  groups_gone =
      filter-filter_none (belongs u) (λ r. not (belongs u r)) t.radusergroup
        (λ r. not-false (belongs u r));
  checks_kept = λ v ne.
      filter-filter_all (owns v) (λ r. not (owns u r)) t.radcheck (λ r. owns_other u v r ne);
  replies_kept = λ v ne.
      filter-filter_all (owns v) (λ r. not (owns u r)) t.radreply (λ r. owns_other u v r ne);
  groups_kept = λ v ne.
      filter-filter_all (belongs v) (λ r. not (belongs u r)) t.radusergroup
        (λ r. belongs_other u v r ne);
}

-- What a deletion that began at `t` leaves behind.
abbrev pub Deletes : String → Tables → Result → Type 0
Deletes u t (r, t') = ((r.status ≡ 200) × Removed u t t') ⊎ ((r.status ≢ 200) × (t' ≡ t))

-- `DeleteHotspotUser` answers 200, and then no row of the user is left in any of the three tables
-- and the rows of every other user are as they were; or it answers with another status, and the
-- tables are as they were. This holds whichever statements of the database fail.
pub delete_all_or_nothing :
    (e : Engine) → IsSql e → (u : String) (t : Tables) → Deletes u t (delete_hotspot_user e u t)
unfolding delete_hotspot_user
delete_all_or_nothing e sql u t = split (user_exists e direct u t)
  where
    removed : (r : Response) (t' : Tables) → delete_steps e u (tx none) t ≡ go r t' → Removed u t t'
    removed r t' ran = rw (delete_steps-After e sql u t r t' ran) (deleted-Removed u t)

    split :
        (x : Outcome Bool)
        → Deletes u t (elim x [
          | err why ↦ (failed "Failed to check if user exists: " why, t)
          | ok false ↦ (refuse 404 "User not found", t)
          | ok true ↦ in_transaction e (delete_steps e u) t
        ])
    split (err why) = inr (omega arith, refl)
    split (ok false) = inr (omega arith, refl)
    split (ok true) =
        elim (in_transaction-Ended e 200 (omega arith) (delete_steps e u)
          (delete_steps-Stops (λ n. n ≢ 200) (omega arith) e u (tx none)) (delete_steps-status e u)
          t) [ inl (good, ran) ↦ inl (good, removed _ _ ran) | inr same ↦ inr same ]
