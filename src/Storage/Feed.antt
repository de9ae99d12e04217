-- ===== src/Storage/Feed.antt =====
-- backend/social/internal/storage/sql/post_feed_storage.go
use otus_highload.Base.{ℕ, String, List, [], ◌∷◌, ◌++◌, ◌==◌, leb, keep, take, drop, if◌then◌else◌}
use otus_highload.Base.Errors.{Result}
use otus_highload.Storage.{Rows, rows_of, Friend, PostExtended, Db}

-- friends f JOIN posts p ON f.friend_id = p.user_id WHERE f.user_id = $1
unfoldable pub feed_rows : String → List Friend → List PostExtended → List PostExtended
feed_rows user [] posts = []
feed_rows user (f ∷ fs) posts =
    let rest = feed_rows user fs posts in
    if f.user_id == user then keep (λ p. p.author_user_id == f.friend_id) posts ++ rest else rest

-- ORDER BY create_time DESC. SQL leaves the order of equal times open; here it is the table's.
unfoldable pub insert_by_time : PostExtended → List PostExtended → List PostExtended
insert_by_time p [] = p ∷ []
insert_by_time p (q ∷ qs) =
    if leb q.create_time p.create_time then p ∷ q ∷ qs else q ∷ insert_by_time p qs

unfoldable pub order_by_create_time : List PostExtended → List PostExtended
unfolding insert_by_time
order_by_create_time [] = []
order_by_create_time (p ∷ ps) = insert_by_time p (order_by_create_time ps)

-- getPostsFeedByUserIdSQL
unfoldable pub posts_feed : ℕ → ℕ → Db → String → List PostExtended
unfolding feed_rows order_by_create_time
posts_feed limit offset db user =
    take limit (drop offset (order_by_create_time (feed_rows user db.friends db.posts)))

unfoldable pub get_posts_feed_by_user_id : Rows → ℕ → ℕ → String → Db → Result (List PostExtended)
unfolding posts_feed
get_posts_feed_by_user_id rows limit offset user db = rows_of rows (posts_feed limit offset db user)
