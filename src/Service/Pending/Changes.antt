-- ===== src/Service/Pending/Changes.antt =====
-- One change of the tables and the notification of it, while others may wait.
use otus_highload.Base.{
  subst, ℕ, String, ◌≡◌, sym, ap, ◌∙◌, ◌⊎◌, inl, inr, true, false, [], ◌∷◌, ◌++◌, none, any, ◌==◌,
  ◌&&◌, eq_iff, Bool-cases, arith,
}
use otus_highload.Storage.{Post, PostExtended, Db}
use otus_highload.Storage.Friends
use otus_highload.Storage.Friends.{user_ids_with_friend}
use otus_highload.Storage.Posts
use otus_highload.Storage.Feed.{posts_feed}
use otus_highload.Storage.Success.{
  add_friend-ok, delete_friend-ok, create_post-ok, update_post-ok, delete_post-ok,
}
use otus_highload.Feed.Notifier.{FeedJson}
use otus_highload.Feed.Query.{
  SameOthers, without_friend, members_of-without, SameOthers-cons, SameOthers-set_content,
  SameOthers-keep,
}
use otus_highload.Feed.Heard.{
  Heard, of_friend, of_author, of_subscribers, of_membership, of_feed, heard,
}
use otus_highload.Feed.Coherence.Updates.{PostsChanged, FriendsChanged}
use otus_highload.Service.Friends.{App, Faults}
use otus_highload.Service.Friends as FriendService
use otus_highload.Service.Posts as PostService
use otus_highload.Service.Calls.{
  Call, add_friend, delete_friend, create_post, update_post, delete_post, call,
  add_friend-Succeeded, delete_friend-Succeeded, create_post-Succeeded, update_post-Succeeded,
  delete_post-Succeeded,
}
use otus_highload.Service.Pending.Told.{told, call-heard}
use otus_highload.Service.Tables.{friends_added, friends_removed, posts_changed}

-- What a message names covers what changed in the answers of the queries.
pub record Changed (n : ℕ) (before db : Db) (h : Heard) : Type 0 where
  pub subscribers :
      (a : String)
      → (of_subscribers a h ≡ true) ⊎ (user_ids_with_friend db a ≡ user_ids_with_friend before a)
  pub members :
      (k a : String)
      → (of_membership k a h ≡ true)
        ⊎ (any (λ x. x == k) (user_ids_with_friend db a)
            ≡ any (λ x. x == k) (user_ids_with_friend before a))
  pub feeds :
      (k : String) → (of_feed db k h ≡ true) ⊎ (posts_feed n 0 db k ≡ posts_feed n 0 before k)

module _ (n : ℕ) (before db : Db) where
  friends-Changed :
      (user friend : String)
      → FriendsChanged n before db user friend
      → ((k a : String)
          → ((user == k) && (friend == a)) ≡ false
          → any (λ x. x == k) (user_ids_with_friend db a)
            ≡ any (λ x. x == k) (user_ids_with_friend before a))
      → Changed n before db (of_friend user friend)
  friends-Changed user friend changed others = record {
    subscribers = λ a. elim (Bool-cases (friend == a)) [
      | inl same ↦ inl same
      | inr differs ↦ inr (changed.other_subscribers a (λ e. cc ((eq_iff friend a).1 e)))
    ];
    members = λ k a. elim (Bool-cases ((user == k) && (friend == a))) [
      | inl same ↦ inl same
      | inr differs ↦ inr (others k a differs)
    ];
    feeds = λ k. elim (Bool-cases (user == k)) [
      | inl same ↦ inl same
      | inr differs ↦ inr (changed.other_feeds k (λ e. cc ((eq_iff user k).1 e)))
    ];
  }

  members_added :
      (user friend : String)
      → db ≡ record before {
        friends = (record { user_id = user; friend_id = friend }) ∷ before.friends;
      }
      → (k a : String) → ((user == k) && (friend == a)) ≡ false
      → any (λ x. x == k) (user_ids_with_friend db a)
        ≡ any (λ x. x == k) (user_ids_with_friend before a)
  unfolding user_ids_with_friend
  members_added user friend e k a h = rw e (ground arith)

  members_removed :
      (user friend : String)
      → db ≡ record before { friends = without_friend user friend before.friends }
      → (k a : String) → ((user == k) && (friend == a)) ≡ false
      → any (λ x. x == k) (user_ids_with_friend db a)
        ≡ any (λ x. x == k) (user_ids_with_friend before a)
  unfolding user_ids_with_friend
  members_removed user friend e k a h = rw e (members_of-without user friend k a before.friends h)

  posts-Changed :
      (author : String) → PostsChanged n before db author → Changed n before db (of_author author)
  posts-Changed author changed = record {
    subscribers = λ a. inr (changed.subscriptions a);
    members = λ k a. inr (ap (λ l. any (λ x. x == k) l) (changed.subscriptions a));
    feeds = λ k. elim (Bool-cases (any (λ x. x == k) (user_ids_with_friend db author))) [
      | inl named ↦ inl named
      | inr out ↦ inr (changed.other_feeds k out)
    ];
  }

module _ {Raw : Type 0} (json : FeedJson Raw) (n : ℕ) where
  call-told :
      (c : Call) (faults : Faults) (app : App Raw)
      → (call json faults c app).0 ≡ none
      → Changed n app.db (call json faults c app).1.db (told c)
  unfolding FriendService.add_friend FriendService.delete_friend PostService.create_post
      PostService.update_post PostService.delete_post
  call-told (add_friend user friend) faults app done =
      let s =
        add_friend-Succeeded json faults app.queue user friend
          (Friends.add_friend faults.storage user friend app.db) done in
      let tables = s.db ∙ (add_friend-ok faults.storage user friend app.db s.value s.stored).0 in
      friends-Changed n app.db _ user friend (friends_added n app.db _ user friend tables)
        (members_added n app.db _ user friend tables)
  call-told (delete_friend user friend) faults app done =
      let s =
        delete_friend-Succeeded json faults app.queue user friend
          (Friends.delete_friend faults.storage user friend app.db) done in
      let tables = s.db ∙ (delete_friend-ok faults.storage user friend app.db s.value s.stored).0 in
      friends-Changed n app.db _ user friend (friends_removed n app.db _ user friend tables)
        (members_removed n app.db _ user friend tables)
  call-told (delete_post user post_id) faults app done =
      let s =
        delete_post-Succeeded json faults app.queue user post_id
          (Posts.delete_post faults.storage post_id user app.db) done in
      posts-Changed n app.db _ user (
        posts_changed n app.db _ user _
          (s.db ∙ delete_post-ok faults.storage app.db post_id user s.value s.stored)
          (SameOthers-keep post_id user app.db.posts))
  call-told (create_post id now user text) faults app done =
      let post : Post = record { id = id; author_user_id = user; text = text } in
      let (made, stored, s) =
        create_post-Succeeded json faults app.queue
          (Posts.create_post faults.storage now post app.db) done in
      let (same, tables) = create_post-ok faults.storage app.db now post made stored in
      let author : made.author_user_id ≡ user = ap (λ (p : PostExtended). p.author_user_id) same in
      posts-Changed n app.db _ user (
        posts_changed n app.db _ user _ (s.db ∙ tables) (
          subst (λ a. SameOthers a (made ∷ app.db.posts) app.db.posts) author
            (SameOthers-cons made app.db.posts)))
  call-told (update_post user post_id text) faults app done =
      let post : Post = record { id = post_id; author_user_id = user; text = text } in
      let (made, stored, s) =
        update_post-Succeeded json faults app.queue (Posts.update_post faults.storage post app.db)
          done in
      posts-Changed n app.db _ user (
        posts_changed n app.db _ user _
          (s.db ∙ (update_post-ok faults.storage app.db post made stored).0)
          (SameOthers-set_content post_id user text app.db.posts))

  -- The notification of a call that succeeds names all that the call changed.
  pub call-Changed :
      (c : Call) (faults : Faults) (app : App Raw) (body : Raw)
      → (call json faults c app).0 ≡ none
      → (call json faults c app).1.queue ≡ app.queue ++ body ∷ []
      → Changed n app.db (call json faults c app).1.db (heard json body)
  call-Changed c faults app body done queued =
      subst (Changed n app.db (call json faults c app).1.db)
        (sym (call-heard json c faults app body done queued)) (call-told c faults app done)
