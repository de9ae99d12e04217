-- ===== src/Service/Friends.antt =====
-- backend/social/internal/service/friend_service.go
use otus_highload.Base.{String, List, Option}
use otus_highload.Base.Errors.{Error, Result, ok, err}
use otus_highload.Storage.{Db}
use otus_highload.Storage.Friends
use otus_highload.Feed.Notifier.{FeedJson, notify_add_friend, notify_delete_friend}

-- The database, and the notifications that wait for the updater.
pub record App (Raw : Type 0) : Type 0 where
  pub db : Db
  pub queue : List Raw

-- How the environment answers the calls of one operation: the database and the broker.
pub record Faults : Type 0 where
  pub storage : Option Error
  pub broker : Option Error

-- `_ = s.notifier.…`: the error of a notification is dropped.
abbrev pub notified : {Raw A : Type 0} → A → Db → Option Error × List Raw → Result A × App Raw
notified a db (e, queue) = (ok a, record { db = db; queue = queue })

module _ {Raw : Type 0} (json : FeedJson Raw) (faults : Faults) where
  unfoldable pub after_add :
      String → String → Result (Unit {0}) × Db → List Raw → Result (Unit {0}) × App Raw
  after_add user friend (err e, db) queue = (err e, record { db = db; queue = queue })
  after_add user friend (ok _, db) queue =
      notified tt db (notify_add_friend json faults.broker user friend queue)

  unfoldable pub add_friend : String → String → App Raw → Result (Unit {0}) × App Raw
  unfolding after_add
  add_friend user friend app =
      after_add user friend (Friends.add_friend faults.storage user friend app.db) app.queue

  unfoldable pub after_delete :
      String → String → Result (Unit {0}) × Db → List Raw → Result (Unit {0}) × App Raw
  after_delete user friend (err e, db) queue = (err e, record { db = db; queue = queue })
  after_delete user friend (ok _, db) queue =
      notified tt db (notify_delete_friend json faults.broker user friend queue)

  unfoldable pub delete_friend : String → String → App Raw → Result (Unit {0}) × App Raw
  unfolding after_delete
  delete_friend user friend app =
      after_delete user friend (Friends.delete_friend faults.storage user friend app.db) app.queue
