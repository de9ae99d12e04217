-- ===== src/Service/Tests.antt =====
-- The services and the updater at the sample tables.
use otus_highload.Base.{◌≡◌, none, some, [], ◌∷◌}
use otus_highload.Storage.{Db}
use otus_highload.Feed.Notifier as Notifier
use otus_highload.Service.Calls.{call, create_post}
use otus_highload.Service.Lost.{with_storage, call-lost}
use otus_highload.Base.Errors.{Error, lost}
use otus_highload.Samples.Formats.{FeedMessage, feed_json, sample_post, envelope, post}
use otus_highload.Samples.Tables.{ann_follows_bob, app_of}

abbrev posted : Db
posted = record ann_follows_bob { posts = sample_post "hi" ∷ [] }

abbrev post_message : FeedMessage
post_message =
    envelope Notifier.create_post (post (record { user_id = "bob"; post = sample_post "hi" }))

call-lost_example :
    (e : Error) × (call feed_json
        (with_storage (some lost) none)
        (create_post "1" 7 "bob" "hi")
        (app_of ann_follows_bob)
      ≡ (
        some e,
        record {
          db =
              (call feed_json
                (with_storage none none)
                (create_post "1" 7 "bob" "hi")
                (app_of ann_follows_bob)).1.db;
          queue = [];
        },
      ))
call-lost_example = call-lost feed_json (create_post "1" 7 "bob" "hi") none (app_of ann_follows_bob)
