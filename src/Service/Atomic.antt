-- ===== src/Service/Atomic.antt =====
-- A call of a service that fails before the server has run its statement leaves the tables and the queue as they were.
use otus_highload.Base.{false, ℕ, String, ◌≡◌, refl, sym, ap, inl, inr, List}
use otus_highload.Base.Errors.{Error, Result, ok, err}
use otus_highload.Storage.{Db, after_commit}
use otus_highload.Storage.Atomic.{
  Atomic, add_friend-Atomic, delete_friend-Atomic, create_post-Atomic, update_post-Atomic,
  delete_post-Atomic,
}
use otus_highload.Feed.Notifier.{FeedJson}
use otus_highload.Service.Friends.{App, Faults}
use otus_highload.Service.Friends as FriendService
use otus_highload.Service.Posts as PostService

-- An operation that hands on the failure of the storage and drops that of the notification.
handed_on :
    {Raw A : Type 0} (after : Result A × Db → List Raw → Result A × App Raw)
    → ((a : A) (d : Db) (queue : List Raw) → (after (ok a, d) queue).0 ≡ ok a)
    → ((e : Error) (d : Db) (queue : List Raw)
        → after (err e, d) queue ≡ (err e, record { db = d; queue = queue }))
    → (r : Result A × Db) (app : App Raw) → Atomic r app.db
    → Atomic (after r app.queue) app
handed_on after good bad (ok a, d) app h = inl (a, good a d app.queue)
handed_on after good bad (err e, d) app (inl (a, p)) = cc
handed_on after good bad (err e, d) app (inr (e', p)) =
    inr (e, rw (sym (ap (λ q. q.1) p)) (bad e d app.queue))

module _ {Raw : Type 0} (json : FeedJson Raw) (faults : Faults)
    (early : after_commit faults.storage ≡ false) where
  pub service_add_friend-Atomic :
      (user friend : String) (app : App Raw)
      → Atomic (FriendService.add_friend json faults user friend app) app
  unfolding FriendService.add_friend
  service_add_friend-Atomic user friend app =
      handed_on (FriendService.after_add json faults user friend) (λ a d q. refl) (λ e d q. refl) _
        app (add_friend-Atomic faults.storage early user friend app.db)

  pub service_delete_friend-Atomic :
      (user friend : String) (app : App Raw)
      → Atomic (FriendService.delete_friend json faults user friend app) app
  unfolding FriendService.delete_friend
  service_delete_friend-Atomic user friend app =
      handed_on (FriendService.after_delete json faults user friend) (λ a d q. refl) (λ e d q. refl)
        _ app (delete_friend-Atomic faults.storage early user friend app.db)

  pub service_create_post-Atomic :
      (id : String) (now : ℕ) (user text : String) (app : App Raw)
      → Atomic (PostService.create_post json faults id now user text app) app
  unfolding PostService.create_post
  service_create_post-Atomic id now user text app =
      handed_on (PostService.after_create json faults) (λ a d q. refl) (λ e d q. refl) _ app
        (create_post-Atomic faults.storage early now _ app.db)

  pub service_update_post-Atomic :
      (user post_id text : String) (app : App Raw)
      → Atomic (PostService.update_post json faults user post_id text app) app
  unfolding PostService.update_post
  service_update_post-Atomic user post_id text app =
      handed_on (PostService.after_update json faults) (λ a d q. refl) (λ e d q. refl) _ app
        (update_post-Atomic faults.storage early _ app.db)

  pub service_delete_post-Atomic :
      (user post_id : String) (app : App Raw)
      → Atomic (PostService.delete_post json faults user post_id app) app
  unfolding PostService.delete_post
  service_delete_post-Atomic user post_id app =
      handed_on (PostService.after_delete json faults user post_id) (λ a d q. refl) (λ e d q. refl)
        _ app (delete_post-Atomic faults.storage early post_id user app.db)
