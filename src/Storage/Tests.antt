-- ===== src/Storage/Tests.antt =====
-- The statements at the sample tables.
use otus_highload.Base.{◌≡◌, refl, ◌≤◌, false, [], ◌∷◌, none, length, any}
use otus_highload.Base.Errors.{ok}
use otus_highload.Storage.{Post, Db}
use otus_highload.Storage.Posts.{create_post, update_post, get_post_by_id}
use otus_highload.Storage.Feed.{posts_feed}
use otus_highload.Storage.Order.{by_author, posts_feed-followed}
use otus_highload.Storage.RoundTrip.{get_post_by_id-create_post, get_post_by_id-update_post}
use otus_highload.Storage.Integrity.{Consistent}
use otus_highload.Storage.Statements.{adds_friend, execute}
use otus_highload.Storage.Constraints.{execute-Consistent}
use otus_highload.Samples.Formats.{sample_post}
use otus_highload.Samples.Tables.{strangers, ann_follows_bob}

abbrev written : Db
written = record ann_follows_bob { posts = sample_post "hi" ∷ [] }

abbrev hello : Post
hello = record { id = "1"; author_user_id = "bob"; text = "hello" }

execute-Consistent_example : Consistent (execute none (adds_friend "ann" "bob") strangers)
execute-Consistent_example = execute-Consistent none (adds_friend "ann" "bob") strangers (record {
  users_once = (refl, (refl, tt));
  friends_once = tt;
  posts_once = tt;
  friends_known = tt;
  authors_known = tt;
})

get_post_by_id-create_post_example :
    get_post_by_id none "1" "bob" (create_post none 7 hello ann_follows_bob).1
    ≡ ok (sample_post "hello")
unfolding create_post
get_post_by_id-create_post_example =
    get_post_by_id-create_post none 7 hello ann_follows_bob _ (sample_post "hello") refl refl

get_post_by_id-update_post_example :
    ((update_post none hello written).0 ≡ ok (sample_post "hello"))
    × (get_post_by_id none "1" "bob" (update_post none hello written).1 ≡ ok (sample_post "hello"))
unfolding get_post_by_id
get_post_by_id-update_post_example =
    get_post_by_id-update_post hello written (sample_post "hi") refl

posts_feed-followed_example :
    (length (posts_feed 5 0 written "ann") ≤ 5)
    × (any (by_author "eve") (posts_feed 5 0 written "ann") ≡ false)
posts_feed-followed_example = posts_feed-followed 5 0 written "ann" "eve" refl
