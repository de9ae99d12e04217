-- ===== src/Service/Tables.antt =====
-- What a change of the tables alters in the answers of the queries behind the caches.
use otus_highload.Base.{ℕ, String, ◌≡◌, refl, ap, List, ◌∷◌, take, drop, eq_iff, arith}
use otus_highload.Storage.{PostExtended, Db}
use otus_highload.Storage.Friends.{user_ids_with_friend}
use otus_highload.Storage.Feed.{feed_rows, order_by_create_time, posts_feed}
use otus_highload.Feed.Query.{
  without_friend, SameOthers, subscribers_of-without, feed_rows-without, feed_rows-SameOthers,
}
use otus_highload.Feed.Coherence.Updates.{PostsChanged, FriendsChanged}

module _ (n : ℕ) (before db : Db) where
  feed_of_rows :
      (k : String)
      → feed_rows k db.friends db.posts ≡ feed_rows k before.friends before.posts
      → posts_feed n 0 db k ≡ posts_feed n 0 before k
  unfolding posts_feed
  feed_of_rows k e = ap (λ rows. take n (drop 0 (order_by_create_time rows))) e

  pub friends_added :
      (user friend : String)
      → db ≡ record before {
        friends = (record { user_id = user; friend_id = friend }) ∷ before.friends;
      }
      → FriendsChanged n before db user friend
  unfolding user_ids_with_friend feed_rows
  friends_added user friend e = record {
    other_subscribers = λ k h. rw e (ground (arith, eq_iff friend k));
    other_feeds = λ k h. feed_of_rows k (rw e (ground (arith, eq_iff user k)));
  }

  pub friends_removed :
      (user friend : String)
      → db ≡ record before { friends = without_friend user friend before.friends }
      → FriendsChanged n before db user friend
  unfolding user_ids_with_friend
  friends_removed user friend e = record {
    other_subscribers = λ k h. rw e (subscribers_of-without user friend k before.friends h);
    other_feeds = λ k h.
        feed_of_rows k (rw e (feed_rows-without user friend k before.friends before.posts h));
  }

  pub posts_changed :
      (author : String) (posts : List PostExtended)
      → db ≡ record before { posts = posts }
      → SameOthers author posts before.posts
      → PostsChanged n before db author
  unfolding user_ids_with_friend
  posts_changed author posts e same = record {
    subscriptions = λ k. rw e refl;
    other_feeds = λ k out.
        feed_of_rows k (
          rw e
            (feed_rows-SameOthers author k before.friends posts before.posts same (rw e at out)));
  }
