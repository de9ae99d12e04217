-- ===== src/Service/Pending/Told.antt =====
-- What the updater hears of the notification of a call.
use otus_highload.Base.{◌≡◌, sym, ap, ◌∙◌, [], ◌∷◌, ◌++◌, none}
use otus_highload.Storage.{Post, PostExtended}
use otus_highload.Storage.Friends
use otus_highload.Storage.Friends.{user_ids_with_friend}
use otus_highload.Storage.Posts
use otus_highload.Storage.Success.{create_post-ok, update_post-ok, find_post-row}
use otus_highload.Feed.Notifier.{FeedJson}
use otus_highload.Feed.Heard.{Heard, of_friend, of_author, heard}
use otus_highload.Feed.Accepted.{
  heard-add_friend, heard-delete_friend, heard-create_post, heard-update_post, heard-delete_post,
}
use otus_highload.Service.Friends.{App, Faults}
use otus_highload.Service.Friends as FriendService
use otus_highload.Service.Posts as PostService
use otus_highload.Service.Calls.{
  Call, add_friend, delete_friend, create_post, update_post, delete_post, call,
  add_friend-Succeeded, delete_friend-Succeeded, create_post-Succeeded, update_post-Succeeded,
  delete_post-Succeeded,
}

-- What the updater hears of a call.
abbrev pub told : Call → Heard
told (add_friend user friend) = of_friend user friend
told (delete_friend user friend) = of_friend user friend
told (create_post id now user text) = of_author user
told (update_post user post_id text) = of_author user
told (delete_post user post_id) = of_author user

module _ {Raw : Type 0} (json : FeedJson Raw) where
  pub call-heard :
      (c : Call) (faults : Faults) (app : App Raw) (body : Raw)
      → (call json faults c app).0 ≡ none
      → (call json faults c app).1.queue ≡ app.queue ++ body ∷ []
      → heard json body ≡ told c
  unfolding FriendService.add_friend FriendService.delete_friend PostService.create_post
      PostService.update_post PostService.delete_post
  call-heard (add_friend user friend) faults app body done queued =
      let s =
        add_friend-Succeeded json faults app.queue user friend
          (Friends.add_friend faults.storage user friend app.db) done in
      heard-add_friend json faults.broker app.queue body user friend (sym s.queued ∙ queued)
  call-heard (delete_friend user friend) faults app body done queued =
      let s =
        delete_friend-Succeeded json faults app.queue user friend
          (Friends.delete_friend faults.storage user friend app.db) done in
      heard-delete_friend json faults.broker app.queue body user friend (sym s.queued ∙ queued)
  call-heard (delete_post user post_id) faults app body done queued =
      let s =
        delete_post-Succeeded json faults app.queue user post_id
          (Posts.delete_post faults.storage post_id user app.db) done in
      heard-delete_post json faults.broker app.queue body post_id user (sym s.queued ∙ queued)
  call-heard (create_post id now user text) faults app body done queued =
      let post : Post = record { id = id; author_user_id = user; text = text } in
      let (made, stored, s) =
        create_post-Succeeded json faults app.queue
          (Posts.create_post faults.storage now post app.db) done in
      heard-create_post json faults.broker app.queue body made (sym s.queued ∙ queued)
      ∙ ap of_author (
          ap (λ (p : PostExtended). p.author_user_id)
            (create_post-ok faults.storage app.db now post made stored).0)
  call-heard (update_post user post_id text) faults app body done queued =
      let post : Post = record { id = post_id; author_user_id = user; text = text } in
      let (made, stored, s) =
        update_post-Succeeded json faults app.queue (Posts.update_post faults.storage post app.db)
          done in
      heard-update_post json faults.broker app.queue body made (sym s.queued ∙ queued)
      ∙ ap of_author
          (find_post-row post_id user _ made
            (update_post-ok faults.storage app.db post made stored).1).1
