-- ===== src/Service/Lost.antt =====
-- A call of the friend or post service whose connection to the database ends after the statement.
use otus_highload.Base.{String, ◌≡◌, refl, sym, ap, ◌∙◌, List, Option, none, some}
use otus_highload.Base.Errors.{Error, Result, ok, err, lost}
use otus_highload.Storage.{PostExtended, Db, run, map_error}
use otus_highload.Storage.Friends.{insert_friend, remove_friend}
use otus_highload.Storage.Posts.{insert_post, replace_content, remove_post}
use otus_highload.Storage.Friends as Friends
use otus_highload.Storage.Posts as Posts
use otus_highload.Feed.Notifier.{FeedJson}
use otus_highload.Service.Friends.{App, Faults}
use otus_highload.Service.Friends as FriendService
use otus_highload.Service.Posts as PostService
use otus_highload.Service.Calls.{
  Call, add_friend, delete_friend, create_post, update_post, delete_post, call, outcome,
}

mapped-1 : {A : Type 0} (f : Error → Error) (r : Result A × Db) → r.1 ≡ (map_error f r).1
mapped-1 f (ok a, d) = refl
mapped-1 f (err e, d) = refl

outcome-1 : {Raw A : Type 0} (r : Result A × App Raw) → r.1.db ≡ (outcome r).1.db
outcome-1 (ok a, app) = refl
outcome-1 (err e, app) = refl

-- Nothing but the tables of a storage's answer is kept by a service.
lost_after :
    {Raw A : Type 0} (f : Error → Error) (statement : Db → Result A × Db)
    (after : Result A × Db → List Raw → Result A × App Raw) (app : App Raw)
    → ((r : Result A × Db) → (after r app.queue).1.db ≡ r.1)
    → ((e : Error) (d : Db)
        → after (err e, d) app.queue ≡ (err e, record { db = d; queue = app.queue }))
    → outcome (after (map_error f (run (some lost) statement app.db)) app.queue) ≡ (
      some (f lost),
      record {
        db = (outcome (after (map_error f (run none statement app.db)) app.queue)).1.db;
        queue = app.queue;
      },
    )
lost_after f statement after app tables bad =
    ap outcome (bad (f lost) (statement app.db).1)
    ∙ ap (λ d. (some (f lost), record { db = d; queue = app.queue }))
        (mapped-1 f (statement app.db)
          ∙ sym (tables (map_error f (statement app.db)))
          ∙ outcome-1 (after (map_error f (statement app.db)) app.queue))

abbrev pub with_storage : Option Error → Option Error → Faults
with_storage storage broker = record { storage = storage; broker = broker }

module _ {Raw : Type 0} (json : FeedJson Raw) where
  module _ (faults : Faults) (queue : List Raw) where
    tables_added :
        (user friend : String) (r : Result (Unit {0}) × Db)
        → (FriendService.after_add json faults user friend r queue).1.db ≡ r.1
    unfolding FriendService.after_add
    tables_added user friend (ok a, d) = refl
    tables_added user friend (err e, d) = refl

    tables_ended :
        (user friend : String) (r : Result (Unit {0}) × Db)
        → (FriendService.after_delete json faults user friend r queue).1.db ≡ r.1
    unfolding FriendService.after_delete
    tables_ended user friend (ok a, d) = refl
    tables_ended user friend (err e, d) = refl

    tables_created :
        (r : Result PostExtended × Db) → (PostService.after_create json faults r queue).1.db ≡ r.1
    unfolding PostService.after_create
    tables_created (ok a, d) = refl
    tables_created (err e, d) = refl

    tables_updated :
        (r : Result PostExtended × Db) → (PostService.after_update json faults r queue).1.db ≡ r.1
    unfolding PostService.after_update
    tables_updated (ok a, d) = refl
    tables_updated (err e, d) = refl

    tables_deleted :
        (user post_id : String) (r : Result (Unit {0}) × Db)
        → (PostService.after_delete json faults user post_id r queue).1.db ≡ r.1
    unfolding PostService.after_delete
    tables_deleted user post_id (ok a, d) = refl
    tables_deleted user post_id (err e, d) = refl

  -- A call of the friend or post service whose connection to the database ends after the server has
  -- run the statement answers with an error and queues no notification, but the tables are those of
  -- the call without this fault.
  pub call-lost :
      (c : Call) (broker : Option Error) (app : App Raw)
      → (e : Error) × (call json (with_storage (some lost) broker) c app ≡ (
        some e,
        record { db = (call json (with_storage none broker) c app).1.db; queue = app.queue },
      ))
  unfolding FriendService.add_friend FriendService.delete_friend PostService.create_post
      PostService.update_post PostService.delete_post FriendService.after_add
      FriendService.after_delete PostService.after_create PostService.after_update
      PostService.after_delete Friends.add_friend Friends.delete_friend Posts.create_post
      Posts.update_post Posts.delete_post
  call-lost (add_friend user friend) broker app = (
    _,
    lost_after Friends.add_friend_error (insert_friend user friend)
        (FriendService.after_add json (with_storage none broker) user friend) app
        (tables_added (with_storage none broker) app.queue user friend) (λ e d. refl),
  )
  call-lost (delete_friend user friend) broker app = (
    _,
    lost_after Friends.delete_friend_error (remove_friend user friend)
        (FriendService.after_delete json (with_storage none broker) user friend) app
        (tables_ended (with_storage none broker) app.queue user friend) (λ e d. refl),
  )
  call-lost (create_post id now user text) broker app = (
    _,
    lost_after Posts.create_post_error
        (insert_post now (record { id = id; author_user_id = user; text = text }))
        (PostService.after_create json (with_storage none broker)) app
        (tables_created (with_storage none broker) app.queue) (λ e d. refl),
  )
  call-lost (update_post user post_id text) broker app = (
    _,
    lost_after Posts.post_error
        (replace_content (record { id = post_id; author_user_id = user; text = text }))
        (PostService.after_update json (with_storage none broker)) app
        (tables_updated (with_storage none broker) app.queue) (λ e d. refl),
  )
  call-lost (delete_post user post_id) broker app = (
    _,
    lost_after Posts.post_error (remove_post post_id user)
        (PostService.after_delete json (with_storage none broker) user post_id) app
        (tables_deleted (with_storage none broker) app.queue user post_id) (λ e d. refl),
  )
