-- ===== src/Radius/Update/Laws.antt =====
-- The three columns of `UpdateHotspotUser` as instances of the laws of Sync.Laws.
use wifigo.Base.{String, true, ◌&&◌, ◌≡◌, Option, arith}
use wifigo.Base.Int.{eq_ℤ_iff}
use wifigo.Base.Texts.{◌==◌, eq_of_test}
use wifigo.Radius.Engine.{
  checks, replies, tx, Engine, IsSql, effect, insert_attr, update_attr, delete_attr, insert_group,
  update_group, delete_group,
}
use wifigo.Radius.Queries.{
  insert_rad_check, insert_rad_reply, insert_rad_user_group, update_rad_check_attribute_tx,
  update_rad_reply_attribute_tx, update_rad_user_group_tx, delete_rad_check_attribute_tx,
  delete_rad_reply_attribute_tx, delete_rad_user_group_tx,
}
use wifigo.Radius.Sync.Laws.{ColumnLaws}
use wifigo.Radius.Update.{Setting, check_column, reply_column, group_column}
use wifigo.Radius.Update.Columns.{
  settings_in, priorities_in, settings_in-insert, settings_in-update, settings_in-delete,
  priorities_in-insert, priorities_in-update, priorities_in-delete,
}

same_setting : (p q : Setting) → (p.0 == q.0 && p.1 == q.1) ≡ true → p ≡ q
same_setting (a, b) (c, d) h = ground (arith, eq_of_test a c, eq_of_test b d)

module _ (e : Engine) (sql : IsSql e) (began : Option String) (u : String) where
  pub check_column-Laws :
      ColumnLaws (check_column e (tx began) u) (λ a t. settings_in u a t.radcheck)
  unfolding check_column insert_rad_check update_rad_check_attribute_tx
      delete_rad_check_attribute_tx effect
  check_column-Laws = record {
    same_eq = same_setting;
    update_view = λ k p t x t' h j.
        rw (sql.exec_effect (tx began) (update_attr checks p.0 p.1 u k) t t' (ground arith))
          (settings_in-update u k j p.0 p.1 t.radcheck);
    insert_view = λ k p t x t' h j.
        rw (sql.exec_effect (tx began) (insert_attr checks u k p.0 p.1) t t' (ground arith))
          (settings_in-insert u k j p.0 p.1 t.radcheck);
    delete_view = λ k t x t' h j.
        rw (sql.exec_effect (tx began) (delete_attr checks u k) t t' (ground arith))
          (settings_in-delete u k j t.radcheck);
  }

  pub reply_column-Laws :
      ColumnLaws (reply_column e (tx began) u) (λ a t. settings_in u a t.radreply)
  unfolding reply_column insert_rad_reply update_rad_reply_attribute_tx
      delete_rad_reply_attribute_tx effect
  reply_column-Laws = record {
    same_eq = same_setting;
    update_view = λ k p t x t' h j.
        rw (sql.exec_effect (tx began) (update_attr replies p.0 p.1 u k) t t' (ground arith))
          (settings_in-update u k j p.0 p.1 t.radreply);
    insert_view = λ k p t x t' h j.
        rw (sql.exec_effect (tx began) (insert_attr replies u k p.0 p.1) t t' (ground arith))
          (settings_in-insert u k j p.0 p.1 t.radreply);
    delete_view = λ k t x t' h j.
        rw (sql.exec_effect (tx began) (delete_attr replies u k) t t' (ground arith))
          (settings_in-delete u k j t.radreply);
  }

  pub group_column-Laws :
      ColumnLaws (group_column e (tx began) u) (λ g t. priorities_in u g t.radusergroup)
  unfolding group_column insert_rad_user_group update_rad_user_group_tx delete_rad_user_group_tx
      effect
  group_column-Laws = record {
    same_eq = λ p q. (eq_ℤ_iff p q).0;
    update_view = λ k p t x t' h j.
        rw (sql.exec_effect (tx began) (update_group p u k) t t' (ground arith))
          (priorities_in-update u k j p t.radusergroup);
    insert_view = λ k p t x t' h j.
        rw (sql.exec_effect (tx began) (insert_group u k p) t t' (ground arith))
          (priorities_in-insert u k j p t.radusergroup);
    delete_view = λ k t x t' h j.
        rw (sql.exec_effect (tx began) (delete_group u k) t t' (ground arith))
          (priorities_in-delete u k j t.radusergroup);
  }
