-- ===== src/Radius/Rows.antt =====
-- The RADIUS tables and their rows (server/database/model/radius.go), and the requests of
-- server/dto/radius.go. `radcheck` and `radreply` have the same columns. The autoincrement `id`
-- columns, which no operation reads, are left out.
use wifigo.Base.{String, Bool, Option, List}
use wifigo.Base.Int.{ℤ}

-- A row of `radcheck` or of `radreply`.
pub record RadAttr : Type 0 where
  pub username : String
  pub attribute : String
  pub op : String
  pub value : String

pub record RadUserGroup : Type 0 where
  pub username : String
  pub groupname : String
  pub priority : ℤ

pub record Tables : Type 0 where
  pub radcheck : List RadAttr
  pub radreply : List RadAttr
  pub radusergroup : List RadUserGroup

-- `RadCheckInput` and `RadReplyInput`.
pub record AttrInput : Type 0 where
  pub attribute : String
  pub op : String
  pub value : String

pub record RadUserGroupInput : Type 0 where
  pub groupname : String
  pub priority : Option ℤ

-- The three slices are `none` where the request leaves them out (a nil slice in Go).
pub record HotspotUserInput : Type 0 where
  pub username : String
  pub password : Option String
  pub check_attributes : Option (List AttrInput)
  pub reply_attributes : Option (List AttrInput)
  pub groups : Option (List RadUserGroupInput)

pub record HotspotUser : Type 0 where
  pub username : String
  pub check_attributes : List RadAttr
  pub reply_attributes : List RadAttr
  pub groups : List RadUserGroup

pub record HotspotSubscriptionRequest : Type 0 where
  pub phone : String
  pub username : String
  pub password : Option String
  pub is_home_user : Bool
  pub isp : String
  pub service_name : String
  pub duration : ℤ
  pub devices : ℤ
