-- ===== src/Service/Pending/Tests.antt =====
-- A post that is published while a feed is cached, handled later.
use otus_highload.Base.{String, ◌≡◌, refl, subst, [], ◌∷◌, arith}
use otus_highload.Storage.{Db}
use otus_highload.Cache.Fresh.{IsUserKey}
use otus_highload.Feed.Notifier as Notifier
use otus_highload.Feed.Updater.{Caches, process_event}
use otus_highload.Feed.Coherence.Updates.{Coherent}
use otus_highload.Service.Calls.{create_post}
use otus_highload.Service.Pending.Histories.{
  World, calls, handles, reads, Reach, here, next, Covered, reach-Covered, quiet-Coherent,
}
use otus_highload.Feed.Heard.{heard, of_author}
use otus_highload.Service.Pending.Invariant.{Coherent-Pending}
use otus_highload.Samples.Server.{Entries, short-IsUserKey}
use otus_highload.Samples.Formats.{
  FeedMessage, feed_json, ids-RoundTrips, posts-RoundTrips, sample_post, envelope, post,
}
use otus_highload.Samples.Tables as Tables
use otus_highload.Samples.Tables.{ann_follows_bob, updater, empty_caches, quiet, app_of}

abbrev post_message : FeedMessage
post_message =
    envelope Notifier.create_post (post (record { user_id = "bob"; post = sample_post "hi" }))

abbrev posted : Db
posted = record ann_follows_bob { posts = sample_post "hi" ∷ [] }

abbrev start : World FeedMessage Entries
start = record { app = app_of ann_follows_bob; caches = empty_caches }

-- Ann's feed, without posts, is cached.
abbrev ann_cached : Caches Entries
ann_cached = record empty_caches {
  feed =
      (otus_highload.Cache.Cacher.feed_get_or_load updater.feed_redis updater.feed_converter
        updater.max_feed_length (Tables.reads ann_follows_bob "ann") empty_caches.feed "ann").1;
}

abbrev waiting : World FeedMessage Entries
waiting = record { app = record { db = posted; queue = post_message ∷ [] }; caches = ann_cached }

abbrev settled : World FeedMessage Entries
settled = record {
  app = record { db = posted; queue = [] };
  caches = (process_event updater feed_json (Tables.reads posted) post_message ann_cached).1;
}

read_then_posted : Reach feed_json updater start waiting
unfolding otus_highload.Cache.Load.get_or_load otus_highload.Cache.Cacher.reload_feed
    otus_highload.Storage.Feed.get_posts_feed_by_user_id otus_highload.Service.Posts.create_post
    otus_highload.Storage.Posts.create_post Notifier.notify_create_post
read_then_posted =
    next
      (next here (
        reads (Tables.reads ann_follows_bob "ann") "ann" (short-IsUserKey "ann" (omega arith))
          (refl, refl) refl refl))
      (calls (create_post "1" 7 "bob" "hi") quiet post_message refl refl refl)

bob_key : (author : String) → heard feed_json post_message ≡ of_author author → IsUserKey author
bob_key author e =
    let same : "bob" ≡ author = ground arith in
    subst IsUserKey same (short-IsUserKey "bob" (omega arith))

then_handled : Reach feed_json updater start settled
unfolding process_event otus_highload.Feed.Updater.process_notification
    otus_highload.Feed.Updater.process_update_feed otus_highload.Feed.Updater.after_subscribers
    otus_highload.Cache.Cacher.subscribers_get_or_load otus_highload.Cache.Load.get_or_load
    otus_highload.Storage.Friends.get_user_ids_with_friend otus_highload.Feed.Updater.update_feeds
    otus_highload.Feed.Updater.later_error otus_highload.Feed.Updater.load_and_send
    otus_highload.Feed.Updater.after_feed_load otus_highload.Cache.Cacher.feed_load
    otus_highload.Storage.Feed.get_posts_feed_by_user_id
then_handled =
    next read_then_posted
      (handles (Tables.reads posted) post_message [] (λ k. (refl, refl)) bob_key refl refl refl)

start-Coherent : Coherent updater ann_follows_bob empty_caches
start-Coherent = record { subscribers = λ user key text h. cc; feeds = λ user key text h. cc }

reach-Covered_example : Covered feed_json updater waiting
reach-Covered_example =
    reach-Covered feed_json updater posts-RoundTrips ids-RoundTrips
      (Coherent-Pending feed_json updater ann_follows_bob [] empty_caches start-Coherent)
      read_then_posted

quiet-Coherent_example : Coherent updater posted settled.caches
quiet-Coherent_example =
    quiet-Coherent feed_json updater posts-RoundTrips ids-RoundTrips start-Coherent then_handled
      refl
