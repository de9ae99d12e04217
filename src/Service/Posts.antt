-- ===== src/Service/Posts.antt =====
-- backend/social/internal/service/post_service.go
use otus_highload.Base.{ℕ, String, List}
use otus_highload.Base.Errors.{Result, ok, err}
use otus_highload.Storage.{PostExtended, Db}
use otus_highload.Storage.Posts
use otus_highload.Feed.Notifier.{
  FeedJson, notify_create_post, notify_update_post, notify_delete_post,
}
use otus_highload.Service.Friends.{App, Faults, notified}

module _ {Raw : Type 0} (json : FeedJson Raw) (faults : Faults) where
  unfoldable pub after_create : Result PostExtended × Db → List Raw → Result PostExtended × App Raw
  after_create (err e, db) queue = (err e, record { db = db; queue = queue })
  after_create (ok post, db) queue =
      notified post db (notify_create_post json faults.broker post queue)

  -- `id` is the fresh identifier of combuuid, `now` the time of the database.
  unfoldable pub create_post :
      String → ℕ → String → String → App Raw → Result PostExtended × App Raw
  unfolding after_create
  create_post id now user text app =
      after_create
        (Posts.create_post faults.storage now
          (record { id = id; author_user_id = user; text = text }) app.db)
        app.queue

  unfoldable pub after_update : Result PostExtended × Db → List Raw → Result PostExtended × App Raw
  after_update (err e, db) queue = (err e, record { db = db; queue = queue })
  after_update (ok post, db) queue =
      notified post db (notify_update_post json faults.broker post queue)

  unfoldable pub update_post : String → String → String → App Raw → Result PostExtended × App Raw
  unfolding after_update
  update_post user post_id text app =
      after_update
        (Posts.update_post faults.storage
          (record { id = post_id; author_user_id = user; text = text }) app.db)
        app.queue

  unfoldable pub after_delete :
      String → String → Result (Unit {0}) × Db → List Raw → Result (Unit {0}) × App Raw
  after_delete user post_id (err e, db) queue = (err e, record { db = db; queue = queue })
  after_delete user post_id (ok _, db) queue =
      notified tt db (notify_delete_post json faults.broker post_id user queue)

  unfoldable pub delete_post : String → String → App Raw → Result (Unit {0}) × App Raw
  unfolding after_delete
  delete_post user post_id app =
      after_delete user post_id (Posts.delete_post faults.storage post_id user app.db) app.queue

  unfoldable pub get_post_by_id : String → String → App Raw → Result PostExtended
  get_post_by_id user post_id app = Posts.get_post_by_id faults.storage post_id user app.db
