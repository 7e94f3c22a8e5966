-- ===== src/Radius/Create/Written.antt =====
-- The rows that the parts of `CreateHotspotUser` write.
use mathlib.Core.List.{append-nil, append_assoc}
use wifigo.Base.{
  String, ◌≡◌, ◌∙◌, inl, inr, Option, none, some, List, [], ◌∷◌, ◌++◌, map, if◌then◌else◌,
  Bool-cases, arith,
}
use wifigo.Base.Texts.{◌==◌}
use wifigo.Radius.Rows.{
  RadAttr, RadUserGroup, Tables, AttrInput, RadUserGroupInput, HotspotUserInput,
}
use wifigo.Radius.Engine.{
  checks, replies, Session, tx, Engine, IsSql, effect, insert_attr, insert_group,
}
use wifigo.Radius.Queries.{insert_rad_check, insert_rad_reply, insert_rad_user_group}
use wifigo.Radius.Transaction.{go, for_each}
use wifigo.Radius.Transaction.Steps.{After, apply_all, for_each-After}
use wifigo.Radius.Create.{
  default_op, op_or_default, priority_or_default, items, add_credentials, add_check, add_reply,
  add_group,
}

-- The row of an attribute of the request.
abbrev pub attr_row : String → AttrInput → RadAttr
attr_row u a = record {
  username = u;
  attribute = a.attribute;
  op = if a.op == "" then default_op else a.op;
  value = a.value;
}

abbrev pub group_row : String → RadUserGroupInput → RadUserGroup
group_row u g = record {
  username = u;
  groupname = g.groupname;
  priority = priority_or_default g.priority;
}

-- The row that lets the user in: a password, or none where none is given.
abbrev pub credential : String → Option String → RadAttr
credential u none = record { username = u; attribute = "Auth-Type"; op = ":="; value = "Accept" }
credential u (some password) =
    if password == ""
    then record { username = u; attribute = "Auth-Type"; op = ":="; value = "Accept" }
    else record { username = u; attribute = "Cleartext-Password"; op = ":="; value = password }

-- The tables with the new user's rows behind the old ones.
abbrev pub created : HotspotUserInput → Tables → Tables
created i t = record {
  radcheck =
      t.radcheck
      ++ credential i.username i.password ∷ map (attr_row i.username) (items i.check_attributes);
  radreply = t.radreply ++ map (attr_row i.username) (items i.reply_attributes);
  radusergroup = t.radusergroup ++ map (group_row i.username) (items i.groups);
}

module _ (e : Engine) (sql : IsSql e) where
  pub add_credentials-go :
      (s : Session) (u : String) (p : Option String) (t t' : Tables)
      → add_credentials e s u p t ≡ go tt t'
      → t' ≡ record t { radcheck = t.radcheck ++ credential u p ∷ [] }
  unfolding add_credentials insert_rad_check effect
  add_credentials-go s u none t t' h =
      sql.exec_effect s (insert_attr checks u "Auth-Type" ":=" "Accept") t t' (ground arith)
  add_credentials-go s u (some p) t t' h = elim (Bool-cases (p == "")) [
    | inl b ↦
        rw b
          (sql.exec_effect s (insert_attr checks u "Auth-Type" ":=" "Accept") t t' (ground arith))
    | inr b ↦
        rw b
          (sql.exec_effect s (insert_attr checks u "Cleartext-Password" ":=" p) t t' (ground arith))
  ]

  add_check-go :
      (s : Session) (u : String) (a : AttrInput) (t t' : Tables)
      → add_check e s u a t ≡ go tt t'
      → t' ≡ record t { radcheck = t.radcheck ++ attr_row u a ∷ [] }
  unfolding add_check insert_rad_check effect
  add_check-go s u a t t' h =
      sql.exec_effect s (insert_attr checks u a.attribute (op_or_default a.op) a.value) t t'
        (ground arith)

  add_reply-go :
      (u : String) (a : AttrInput) (t t' : Tables)
      → add_reply e (tx none) u a t ≡ go tt t'
      → t' ≡ record t { radreply = t.radreply ++ attr_row u a ∷ [] }
  unfolding add_reply insert_rad_reply effect
  add_reply-go u a t t' h =
      sql.exec_effect (tx none) (insert_attr replies u a.attribute (op_or_default a.op) a.value) t
        t' (ground arith)

  add_group-go :
      (u : String) (g : RadUserGroupInput) (t t' : Tables)
      → add_group e (tx none) u g t ≡ go tt t'
      → t' ≡ record t { radusergroup = t.radusergroup ++ group_row u g ∷ [] }
  unfolding add_group insert_rad_user_group effect
  add_group-go u g t t' h =
      sql.exec_effect (tx none) (insert_group u g.groupname (priority_or_default g.priority)) t t'
        (ground arith)

module _ (u : String) where
  apply_all-checks :
      (xs : List AttrInput) (t : Tables)
      → apply_all (λ a t. record t { radcheck = t.radcheck ++ attr_row u a ∷ [] }) xs t
        ≡ record t { radcheck = t.radcheck ++ map (attr_row u) xs }
  unfolding apply_all
  apply_all-checks [] t = rw append-nil
  apply_all-checks (x ∷ xs) t = rw (apply_all-checks xs, append_assoc)

  apply_all-replies :
      (xs : List AttrInput) (t : Tables)
      → apply_all (λ a t. record t { radreply = t.radreply ++ attr_row u a ∷ [] }) xs t
        ≡ record t { radreply = t.radreply ++ map (attr_row u) xs }
  unfolding apply_all
  apply_all-replies [] t = rw append-nil
  apply_all-replies (x ∷ xs) t = rw (apply_all-replies xs, append_assoc)

  apply_all-groups :
      (xs : List RadUserGroupInput) (t : Tables)
      → apply_all (λ g t. record t { radusergroup = t.radusergroup ++ group_row u g ∷ [] }) xs t
        ≡ record t { radusergroup = t.radusergroup ++ map (group_row u) xs }
  unfolding apply_all
  apply_all-groups [] t = rw append-nil
  apply_all-groups (x ∷ xs) t = rw (apply_all-groups xs, append_assoc)

module _ (e : Engine) (sql : IsSql e) (u : String) where
  pub checks-After :
      (xs : List AttrInput) (t : Tables)
      → After
          (for_each (add_check e (tx none) u) xs)
          t
          (λ _ t'. t' ≡ record t { radcheck = t.radcheck ++ map (attr_row u) xs })
  checks-After xs t x t' h =
      for_each-After (add_check e (tx none) u) _
        (λ a v _ v' k. add_check-go e sql (tx none) u a v v' k) xs t tt t' h
      ∙ apply_all-checks u xs t

  pub replies-After :
      (xs : List AttrInput) (t : Tables)
      → After
          (for_each (add_reply e (tx none) u) xs)
          t
          (λ _ t'. t' ≡ record t { radreply = t.radreply ++ map (attr_row u) xs })
  replies-After xs t x t' h =
      for_each-After (add_reply e (tx none) u) _ (λ a v _ v' k. add_reply-go e sql u a v v' k) xs t
        tt t' h
      ∙ apply_all-replies u xs t

  pub groups-After :
      (xs : List RadUserGroupInput) (t : Tables)
      → After
          (for_each (add_group e (tx none) u) xs)
          t
          (λ _ t'. t' ≡ record t { radusergroup = t.radusergroup ++ map (group_row u) xs })
  groups-After xs t x t' h =
      for_each-After (add_group e (tx none) u) _ (λ g v _ v' k. add_group-go e sql u g v v' k) xs t
        tt t' h
      ∙ apply_all-groups u xs t
