-- ===== src/Service/Calls.antt =====
-- One call of the services that change the feed, and what a successful one did.
use otus_highload.Base.{ℕ, String, ◌≡◌, refl, List, Option, none, some}
use otus_highload.Base.Errors.{Error, Result, ok, err}
use otus_highload.Storage.{PostExtended, Db}
use otus_highload.Feed.Notifier.{
  FeedJson, notify_add_friend, notify_delete_friend, notify_create_post, notify_update_post,
  notify_delete_post,
}
use otus_highload.Service.Friends.{App, Faults}
use otus_highload.Service.Friends as FriendService
use otus_highload.Service.Posts as PostService

-- The calls of the two services that change what a feed shows.
pub data Call : Type 0 where
  add_friend delete_friend : String → String → Call
  create_post : String → ℕ → String → String → Call
  update_post : String → String → String → Call
  delete_post : String → String → Call

-- Only whether the call failed, and the state after it.
abbrev pub outcome : {Raw A : Type 0} → Result A × App Raw → Option Error × App Raw
outcome (ok a, app) = (none, app)
outcome (err e, app) = (some e, app)

abbrev pub call : {Raw : Type 0} → FeedJson Raw → Faults → Call → App Raw → Option Error × App Raw
call json faults (add_friend user friend) app =
    outcome (FriendService.add_friend json faults user friend app)
call json faults (delete_friend user friend) app =
    outcome (FriendService.delete_friend json faults user friend app)
call json faults (create_post id now user text) app =
    outcome (PostService.create_post json faults id now user text app)
call json faults (update_post user post_id text) app =
    outcome (PostService.update_post json faults user post_id text app)
call json faults (delete_post user post_id) app =
    outcome (PostService.delete_post json faults user post_id app)

-- The database and the queue after a call whose storage succeeded.
pub record Succeeded {Raw A : Type 0} (r : Result A × Db) (queue : List Raw) (app : App Raw)
    : Type 0 where
  pub value : A
  pub stored : r.0 ≡ ok value
  pub db : app.db ≡ r.1
  pub queued : app.queue ≡ queue

module _ {Raw : Type 0} (json : FeedJson Raw) (faults : Faults) (queue : List Raw) where
  pub add_friend-Succeeded :
      (user friend : String) (r : Result (Unit {0}) × Db)
      → (outcome (FriendService.after_add json faults user friend r queue)).0 ≡ none
      → Succeeded r
          (notify_add_friend json faults.broker user friend queue).1
          (outcome (FriendService.after_add json faults user friend r queue)).1
  unfolding FriendService.after_add
  add_friend-Succeeded user friend (err e, db) h = cc
  add_friend-Succeeded user friend (ok a, db) h = record {
    value = a;
    stored = refl;
    db = refl;
    queued = refl;
  }

  pub delete_friend-Succeeded :
      (user friend : String) (r : Result (Unit {0}) × Db)
      → (outcome (FriendService.after_delete json faults user friend r queue)).0 ≡ none
      → Succeeded r
          (notify_delete_friend json faults.broker user friend queue).1
          (outcome (FriendService.after_delete json faults user friend r queue)).1
  unfolding FriendService.after_delete
  delete_friend-Succeeded user friend (err e, db) h = cc
  delete_friend-Succeeded user friend (ok a, db) h = record {
    value = a;
    stored = refl;
    db = refl;
    queued = refl;
  }

  pub delete_post-Succeeded :
      (user post_id : String) (r : Result (Unit {0}) × Db)
      → (outcome (PostService.after_delete json faults user post_id r queue)).0 ≡ none
      → Succeeded r
          (notify_delete_post json faults.broker post_id user queue).1
          (outcome (PostService.after_delete json faults user post_id r queue)).1
  unfolding PostService.after_delete
  delete_post-Succeeded user post_id (err e, db) h = cc
  delete_post-Succeeded user post_id (ok a, db) h = record {
    value = a;
    stored = refl;
    db = refl;
    queued = refl;
  }

  pub create_post-Succeeded :
      (r : Result PostExtended × Db)
      → (outcome (PostService.after_create json faults r queue)).0 ≡ none
      → (post : PostExtended) × (r.0 ≡ ok post)
        × Succeeded r
            (notify_create_post json faults.broker post queue).1
            (outcome (PostService.after_create json faults r queue)).1
  unfolding PostService.after_create
  create_post-Succeeded (err e, db) h = cc
  create_post-Succeeded (ok post, db) h =
      (post, refl, record { value = post; stored = refl; db = refl; queued = refl })

  pub update_post-Succeeded :
      (r : Result PostExtended × Db)
      → (outcome (PostService.after_update json faults r queue)).0 ≡ none
      → (post : PostExtended) × (r.0 ≡ ok post)
        × Succeeded r
            (notify_update_post json faults.broker post queue).1
            (outcome (PostService.after_update json faults r queue)).1
  unfolding PostService.after_update
  update_post-Succeeded (err e, db) h = cc
  update_post-Succeeded (ok post, db) h =
      (post, refl, record { value = post; stored = refl; db = refl; queued = refl })
