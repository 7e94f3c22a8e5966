-- ===== src/Radius/Engine.antt =====
-- The SQL statements that server/handler/hotspot_user.go sends to the RADIUS database, and the
-- database that runs them. The database is a parameter: it may fail any statement, for any reason;
-- `IsSql` states what a statement does that does not fail.
use wifigo.Base.{ℕ, String, Bool, ◌&&◌, not, ◌≡◌, Option, List, [], ◌∷◌, ◌++◌, if◌then◌else◌, ◌⊎◌}
use wifigo.Base.Int.{ℤ}
use wifigo.Base.Texts.{◌==◌}
use wifigo.Base.Outcome.{Outcome, ok}
use wifigo.Base.Lists.{length, filter}
use wifigo.Radius.Rows.{RadAttr, RadUserGroup, Tables}

-- The two tables of attributes.
pub data AttrTable : Type 0 where
  checks replies : AttrTable

-- The statements that write, with their arguments in the order of the SQL text.
pub data Statement : Type 0 where
  insert_attr : AttrTable → String → String → String → String → Statement
  insert_group : String → String → ℤ → Statement
  update_attr : AttrTable → String → String → String → String → Statement
  update_group : ℤ → String → String → Statement
  delete_attr : AttrTable → String → String → Statement
  delete_group : String → String → Statement
  delete_user_attrs : AttrTable → String → Statement
  delete_user_groups : String → Statement

-- The `SELECT COUNT(*)` queries.
pub data Count : Type 0 where
  user_rows : String → Count
  attr_rows : AttrTable → String → String → Count
  group_rows : String → String → Count

-- A statement runs on a connection of the pool, or in a transaction, whose `Begin` may have
-- left an error behind (`tx.Error`).
pub data Session : Type 0 where
  direct : Session
  tx : Option String → Session

pub record Engine : Type 0 where
  -- `gdatabase.GetDB(config.RadiusDB)` is not nil.
  pub available : Bool
  -- `tx.Error` after `db.Begin()`.
  pub begin : Tables → Option String
  pub exec : Session → Statement → Tables → Outcome Tables
  pub count : Session → Count → Tables → Outcome ℕ
  pub select_attrs : Session → AttrTable → String → Tables → Outcome (List RadAttr)
  pub select_groups : Session → String → Tables → Outcome (List RadUserGroup)
  -- `SELECT value … WHERE username = ? AND attribute = ? LIMIT 1` of `radcheck`, scanned into a text.
  pub select_value : Session → String → String → Tables → Outcome String
  -- `tx.Commit().Error`, in a transaction that has made these tables of the first ones.
  pub commit : Tables → Tables → Option String

unfoldable pub attrs : AttrTable → Tables → List RadAttr
attrs checks t = t.radcheck
attrs replies t = t.radreply

unfoldable pub set_attrs : AttrTable → List RadAttr → Tables → Tables
set_attrs checks rows t = record t { radcheck = rows }
set_attrs replies rows t = record t { radreply = rows }

-- `username = ?`
unfoldable pub owns : String → RadAttr → Bool
owns u r = r.username == u

-- `username = ? AND attribute = ?`
unfoldable pub is_attr : String → String → RadAttr → Bool
is_attr u a r = r.username == u && r.attribute == a

unfoldable pub belongs : String → RadUserGroup → Bool
belongs u r = r.username == u

unfoldable pub is_group : String → String → RadUserGroup → Bool
is_group u g r = r.username == u && r.groupname == g

-- `UPDATE … SET op = ?, value = ? WHERE username = ? AND attribute = ?`
unfoldable pub set_attr : String → String → String → String → List RadAttr → List RadAttr
set_attr op value u a [] = []
set_attr op value u a (r ∷ rows) =
    (if is_attr u a r then record r { op = op; value = value } else r) ∷ set_attr op value u a rows

unfoldable pub set_priority : ℤ → String → String → List RadUserGroup → List RadUserGroup
set_priority p u g [] = []
set_priority p u g (r ∷ rows) =
    (if is_group u g r then record r { priority = p } else r) ∷ set_priority p u g rows

-- What each statement does to the tables.
unfoldable pub effect : Statement → Tables → Tables
unfolding attrs set_attrs
effect (insert_attr tab u a o v) t =
    set_attrs tab (attrs tab t ++ (record { username = u; attribute = a; op = o; value = v } ∷ []))
      t
effect (insert_group u g p) t = record t {
  radusergroup = t.radusergroup ++ (record { username = u; groupname = g; priority = p } ∷ []);
}
effect (update_attr tab o v u a) t = set_attrs tab (set_attr o v u a (attrs tab t)) t
effect (update_group p u g) t = record t { radusergroup = set_priority p u g t.radusergroup }
effect (delete_attr tab u a) t = set_attrs tab (filter (λ r. not (is_attr u a r)) (attrs tab t)) t
effect (delete_group u g) t = record t {
  radusergroup = filter (λ r. not (is_group u g r)) t.radusergroup;
}
effect (delete_user_attrs tab u) t = set_attrs tab (filter (λ r. not (owns u r)) (attrs tab t)) t
effect (delete_user_groups u) t = record t {
  radusergroup = filter (λ r. not (belongs u r)) t.radusergroup;
}

-- The rows that each query counts.
unfoldable pub counted : Count → Tables → ℕ
unfolding attrs
counted (user_rows u) t = length (filter (owns u) t.radcheck)
counted (attr_rows tab u a) t = length (filter (is_attr u a) (attrs tab t))
counted (group_rows u g) t = length (filter (is_group u g) t.radusergroup)

-- `LIMIT 1` without an order gives some row, and a scan without a row leaves the text empty.
abbrev pub SomeValue : List RadAttr → String → Type 0
SomeValue rows v =
    ((rows ≡ []) × (v ≡ ""))
    ⊎ ((r : RadAttr) × (before : List RadAttr) × (after : List RadAttr) × (rows
          ≡ before ++ r ∷ after)
        × (v ≡ r.value))

-- What the handlers rely on: a statement that reports no error has done what its SQL text says,
-- texts being compared exactly.
pub record IsSql (e : Engine) : Type 0 where
  pub exec_effect :
      (s : Session) (st : Statement) (t t' : Tables) → e.exec s st t ≡ ok t' → t' ≡ effect st t
  pub count_rows :
      (s : Session) (q : Count) (t : Tables) (n : ℕ) → e.count s q t ≡ ok n → n ≡ counted q t
  pub select_attrs_rows :
      (s : Session) (tab : AttrTable) (u : String) (t : Tables) (rows : List RadAttr)
      → e.select_attrs s tab u t ≡ ok rows
      → rows ≡ filter (owns u) (attrs tab t)
  pub select_groups_rows :
      (s : Session) (u : String) (t : Tables) (rows : List RadUserGroup)
      → e.select_groups s u t ≡ ok rows
      → rows ≡ filter (belongs u) t.radusergroup
  pub select_value_row :
      (s : Session) (u a : String) (t : Tables) (v : String)
      → e.select_value s u a t ≡ ok v
      → SomeValue (filter (is_attr u a) t.radcheck) v
