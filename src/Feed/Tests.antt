-- ===== src/Feed/Tests.antt =====
-- Pages of the feed of ann, who follows bob.
use otus_highload.Base.{◌^◌, ◌-◌, ◌≡◌, refl, [], ◌∷◌, arith}
use otus_highload.Base.Int.{pos}
use otus_highload.Storage.{Db}
use otus_highload.Storage.Feed.{posts_feed}
use otus_highload.Feed.Page.{posts, get_user_posts}
use otus_highload.Feed.Page.Window.{get_user_posts_overflow, get_user_posts-query}
use otus_highload.Samples.Server.{Entries, short-IsUserKey}
use otus_highload.Samples.Formats.{posts_converter, posts-RoundTrips, some-FreshAt, sample_post}
use otus_highload.Samples.Tables.{ann_follows_bob, updater, reads}

abbrev one_post : Db
one_post = record ann_follows_bob { posts = sample_post "hi" ∷ [] }

abbrev cached_post : Entries
cached_post = ("ann", "hi") ∷ []

get_user_posts_overflow_example :
    (get_user_posts updater (reads one_post "ann") (pos (2 ^ 63 - 1)) (pos 1) cached_post "ann").0
    ≡ posts []
unfolding otus_highload.Cache.Cacher.feed_get_or_load otus_highload.Cache.Load.get_or_load
get_user_posts_overflow_example =
    get_user_posts_overflow updater (reads one_post "ann") cached_post "ann" (2 ^ 63 - 1) 1
      (sample_post "hi" ∷ []) (omega arith) (omega arith) (omega arith) refl

get_user_posts-query_example :
    (get_user_posts updater (reads one_post "ann") (pos 2) (pos 0) cached_post "ann").0
    ≡ posts (posts_feed 2 0 one_post "ann")
unfolding posts_feed otus_highload.Cache.Cacher.feed_get_or_load
    otus_highload.Cache.Load.get_or_load
get_user_posts-query_example =
    get_user_posts-query updater (reads one_post "ann") cached_post "ann" 2 0 one_post
      (sample_post "hi" ∷ []) posts-RoundTrips (short-IsUserKey "ann" (omega arith)) (refl, refl)
      (some-FreshAt posts_converter "hi" _ refl) (omega arith) (omega arith) refl
