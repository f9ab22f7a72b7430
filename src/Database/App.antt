-- ===== src/Database/App.antt =====
-- The tables of the modules beside durable delivery, and the outcome of a call on them.
use app_template.Prelude.{List}
use app_template.Models.Files.{File, ObjectKey}
use app_template.Models.Notifications.{Notification, NotificationDelivery, User}
use app_template.Models.Errors.{Result, ok, err}
use app_template.Database.Tables.{Db}

pub record AppDb : Type 0 where
  pub core : Db
  pub files : List File
  -- the objects whose deletion the storage was asked for
  pub deleted_objects : List ObjectKey
  pub notifications : List Notification
  pub deliveries : List NotificationDelivery
  pub users : List User

-- A call returns or raises, and leaves the tables that it committed: a call may commit a failure
-- and then raise.
abbrev pub Outcome {ℓ} : Type ℓ → Type ℓ
Outcome A = Result A × AppDb

-- What raises before anything is written ends the call.
unfoldable pub check {ℓ κ} :
    {A : Type ℓ} {B : Type κ} → AppDb → Result A → (A → Outcome B) → Outcome B
check db (err e) rest = (err e, db)
check db (ok a) rest = rest a
