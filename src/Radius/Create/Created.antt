-- ===== src/Radius/Create/Created.antt =====
-- What `CreateHotspotUser` has written when it answers 201.
use mathlib.Core.List.{append_assoc}
use wifigo.Base.{ℕ, String, ◌≡◌, ◌≢◌, ◌⊎◌, inl, inr, Option, none, some, Bool-cases, arith}
use wifigo.Base.Texts.{◌==◌}
use wifigo.Radius.Rows.{Tables, HotspotUserInput}
use wifigo.Radius.Engine.{Session, tx, Engine, IsSql, user_rows, counted}
use wifigo.Radius.Queries.{user_exists, insert_rad_check}
use wifigo.Radius.Queries.Answers.{user_exists-ok}
use wifigo.Radius.Transaction.{Result, query, stop_if, for_each, failed, refuse}
use wifigo.Radius.Transaction.Steps.{
  >>=-After, After, query-After, stop_if-After, in_transaction-Ended, in_transaction-status,
}
use wifigo.Radius.Transaction.Stops.{
  Stops, >>=-Stops, >>-Stops, query-Stops, write-Stops, stop_if-Stops, for_each-Stops,
}
use wifigo.Radius.Create.{
  items, add_credentials, add_check, add_reply, add_group, create_steps, create_hotspot_user,
}
use wifigo.Radius.Create.Written.{
  created, add_credentials-go, checks-After, replies-After, groups-After,
}

-- Where all the steps of a creation go on, the user was absent, and the rows are added.
pub create_steps-After :
    (e : Engine)
    → IsSql e
    → (i : HotspotUserInput) (t : Tables)
    → After
        (create_steps e i (tx none))
        t
        (λ r t'. (counted (user_rows i.username) t ≡ 0) × (t' ≡ created i t))
unfolding create_steps
create_steps-After e sql i t =
    query-After (user_exists e (tx none) i.username) (failed "Failed to check if user exists: ") _ t
      λ exists asked. stop_if-After exists (refuse 409 "User already exists") _ t λ fresh.
        >>=-After (add_credentials e (tx none) i.username i.password) _ t λ _ t₁ credentials.
          >>=-After (for_each (add_check e (tx none) i.username) (items i.check_attributes)) _ t₁
            λ _ t₂ checked.
              >>=-After (for_each (add_reply e (tx none) i.username) (items i.reply_attributes)) _
                t₂
                λ _ t₃ replied.
                  >>=-After (for_each (add_group e (tx none) i.username) (items i.groups)) _ t₃
                    λ _ t₄ grouped r t' done.
                      let e₀ : t' ≡ t₄ = ground arith in
                      let e₁ =
                        add_credentials-go e sql (tx none) i.username i.password t t₁ credentials in
                      let e₂ =
                        checks-After e sql i.username (items i.check_attributes) t₁ tt t₂ checked in
                      let e₃ =
                        replies-After e sql i.username (items i.reply_attributes) t₂ tt t₃
                          replied in
                      let e₄ = groups-After e sql i.username (items i.groups) t₃ tt t₄ grouped in
                      let absent = user_exists-ok e sql (tx none) i.username t exists asked in
                      (ground arith, rw (e₀, e₄, e₃, e₂, e₁, append_assoc))

create_steps-status :
    (e : Engine) (i : HotspotUserInput) (s : Session) (t : Tables)
    → After (create_steps e i s) t (λ r _. r.status ≡ 201)
unfolding create_steps
create_steps-status e i s t =
    query-After (user_exists e s i.username) (failed "Failed to check if user exists: ") _ t
      λ exists _. stop_if-After exists (refuse 409 "User already exists") _ t λ _.
        >>=-After (add_credentials e s i.username i.password) _ t λ _ t₁ _.
          >>=-After (for_each (add_check e s i.username) (items i.check_attributes)) _ t₁ λ _ t₂ _.
            >>=-After (for_each (add_reply e s i.username) (items i.reply_attributes)) _ t₂
              λ _ t₃ _.
                >>=-After (for_each (add_group e s i.username) (items i.groups)) _ t₃
                  λ _ t₄ _ r t' done. ground arith

add_credentials-Stops :
    (Q : ℕ → Type 0)
    → Q 500
    → (e : Engine) (s : Session) (u : String) (p : Option String)
    → Stops Q (add_credentials e s u p)
unfolding add_credentials
add_credentials-Stops Q q e s u none t =
    write-Stops Q (insert_rad_check e s u "Auth-Type" ":=" "Accept")
      (failed "Failed to add accept: ") (λ _. q) t
add_credentials-Stops Q q e s u (some p) t = elim (Bool-cases (p == "")) [
  | inl b ↦ rw b (
      write-Stops Q (insert_rad_check e s u "Auth-Type" ":=" "Accept")
        (failed "Failed to add accept: ") (λ _. q) t)
  | inr b ↦ rw b (
      write-Stops Q (insert_rad_check e s u "Cleartext-Password" ":=" p)
        (failed "Failed to add password: ") (λ _. q) t)
]

-- Where a creation stops, the answer is a conflict or an internal error.
create_steps-Stops :
    (Q : ℕ → Type 0)
    → Q 500
    → Q 409
    → (e : Engine) (i : HotspotUserInput) (s : Session) → Stops Q (create_steps e i s)
unfolding create_steps add_check add_reply add_group
create_steps-Stops Q q c e i s =
    >>=-Stops Q (query (user_exists e s i.username) (failed "Failed to check if user exists: ")) _
      (query-Stops Q _ _ (λ _. q))
      λ exists.
        >>-Stops Q (stop_if exists (refuse 409 "User already exists")) _
          (stop_if-Stops Q exists _ c)
          (>>-Stops Q (add_credentials e s i.username i.password) _
            (add_credentials-Stops Q q e s i.username i.password)
            (>>-Stops Q (for_each (add_check e s i.username) (items i.check_attributes)) _
              (for_each-Stops Q _ _ (λ _. write-Stops Q _ _ (λ _. q)))
              (>>-Stops Q (for_each (add_reply e s i.username) (items i.reply_attributes)) _
                (for_each-Stops Q _ _ (λ _. write-Stops Q _ _ (λ _. q)))
                (>>-Stops Q (for_each (add_group e s i.username) (items i.groups)) _
                  (for_each-Stops Q _ _ (λ _. write-Stops Q _ _ (λ _. q))) (λ _. tt)))))

-- What a creation that began at `t` leaves behind.
abbrev pub Creates : HotspotUserInput → Tables → Result → Type 0
Creates i t (r, t') =
    ((r.status ≡ 201) × (counted (user_rows i.username) t ≡ 0) × (t' ≡ created i t))
    ⊎ ((r.status ≢ 201) × (t' ≡ t))

-- `CreateHotspotUser` answers 201, and then the user had no row in `radcheck` before, and the
-- tables have gained exactly the rows of the request; or it answers with another status, and the
-- three tables are as they were. This holds whichever statements of the database fail.
pub create_all_or_nothing :
    (e : Engine)
    → IsSql e
    → (i : HotspotUserInput) (t : Tables) → Creates i t (create_hotspot_user e i t)
unfolding create_hotspot_user
create_all_or_nothing e sql i t =
    elim (in_transaction-Ended e 201 (omega arith) (create_steps e i)
      (create_steps-Stops (λ n. n ≢ 201) (omega arith) (omega arith) e i (tx none))
      (create_steps-status e i (tx none)) t) [
        | inl (good, ran) ↦
            let (absent, rows) = create_steps-After e sql i t _ _ ran in inl (good, absent, rows)
        | inr same ↦ inr same
      ]

-- `CreateHotspotUser` never answers 200.
pub create_not_200 :
    (e : Engine) (i : HotspotUserInput) (t : Tables) → (create_hotspot_user e i t).0.status ≢ 200
unfolding create_hotspot_user
create_not_200 e i t =
    in_transaction-status (λ n. n ≢ 200) (omega arith) e (create_steps e i) t
      (create_steps-Stops (λ n. n ≢ 200) (omega arith) (omega arith) e i (tx none) t)
      (λ r t' h. omega (arith, create_steps-status e i (tx none) t r t' h))
