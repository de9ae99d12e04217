-- ===== src/Storage/RoundTrip.antt =====
-- What a query of posts and friendships answers after the operation that wrote them.
use otus_highload.Base.{
  ℕ, String, ◌≡◌, refl, inl, inr, false, List, [], ◌∷◌, Option, none, some, not, keep, ◌==◌, ◌&&◌,
  eq_refl, arith, Option-cases,
}
use otus_highload.Base.Errors.{Error, ok, err, post_not_found}
use otus_highload.Storage.{Friend, Post, PostExtended, Db, is_friend}
use otus_highload.Storage.Friends.{add_friend, delete_friend}
use otus_highload.Storage.Posts.{
  create_post, update_post, delete_post, get_post_by_id, find_post, set_content, is_post_of,
  with_text,
}
use otus_highload.Storage.Success.{add_friend-ok}

-- Where no row fits, none is deleted.
keep-not_friend :
    (user friend : String) (rs : List Friend)
    → is_friend rs user friend ≡ false
    → keep (λ r. not (r.user_id == user && r.friend_id == friend)) rs ≡ rs
keep-not_friend user friend [] h = refl
keep-not_friend user friend (r ∷ rs) h = ground (arith, keep-not_friend user friend rs)

-- A friend that was added can be deleted again, and this restores the tables, when no statement
-- fails for the environment.
pub delete_friend-add_friend :
    (user friend : String) (db : Db)
    → (add_friend none user friend db).0 ≡ ok tt
    → delete_friend none user friend (add_friend none user friend db).1 ≡ (ok tt, db)
unfolding delete_friend
delete_friend-add_friend user friend db h =
    let (e, fresh) = add_friend-ok none user friend db tt h in
    rw (e, eq_refl user, eq_refl friend, keep-not_friend user friend db.friends fresh) refl

-- A post that was created is what its author reads under its identifier, when the query does not
-- fail and the replica that answers has the posts that the master has after the insert.
pub get_post_by_id-create_post :
    (fault : Option Error) (now : ℕ) (post : Post) (db served : Db) (created : PostExtended)
    → (create_post fault now post db).0 ≡ ok created
    → served.posts ≡ (create_post fault now post db).1.posts
    → get_post_by_id none post.id post.author_user_id served ≡ ok created
unfolding create_post get_post_by_id
get_post_by_id-create_post (some e) now post db served created h at = cc
get_post_by_id-create_post none now post db served created h at =
    rw at (ground (arith, h, eq_refl post.id, eq_refl post.author_user_id))

find_post-set_content :
    (post_id user text : String) (ps : List PostExtended) (old : PostExtended)
    → find_post post_id user ps ≡ some old
    → find_post post_id user (set_content post_id user text ps) ≡ some (with_text text old)
unfolding find_post set_content
find_post-set_content post_id user text [] old h = cc
find_post-set_content post_id user text (p ∷ ps) old h =
    ground (arith, find_post-set_content post_id user text ps old)

-- When no statement fails for the environment, an update of a post that its author can read
-- answers with, and leaves to be read, that post with
-- the new text; both times stay those of the post before, the time of its update too.
pub get_post_by_id-update_post :
    (post : Post) (db : Db) (old : PostExtended)
    → get_post_by_id none post.id post.author_user_id db ≡ ok old
    → ((update_post none post db).0 ≡ ok (with_text post.text old))
      × (get_post_by_id none post.id post.author_user_id (update_post none post db).1
          ≡ ok (with_text post.text old))
unfolding update_post get_post_by_id
get_post_by_id-update_post post db old h =
    elim (Option-cases (find_post post.id post.author_user_id db.posts)) [
      | inl e ↦ ground (arith, e)
      | inr (p, e) ↦
          let same : p ≡ old = ground (arith, e) in
          let new = find_post-set_content post.id post.author_user_id post.text db.posts p e in
          rw (new, same) (refl, rw (new, same) refl)
    ]

find_post-keep :
    (post_id user : String) (ps : List PostExtended)
    → find_post post_id user (keep (λ p. not (is_post_of post_id user p)) ps) ≡ none
unfolding find_post
find_post-keep post_id user [] = refl
find_post-keep post_id user (p ∷ ps) = ground (arith, find_post-keep post_id user ps)

-- When no statement fails for the environment, a post that its author can read can be deleted, and
-- is not found after that.
pub get_post_by_id-delete_post :
    (post_id user : String) (db : Db) (old : PostExtended)
    → get_post_by_id none post_id user db ≡ ok old
    → ((delete_post none post_id user db).0 ≡ ok tt)
      × (get_post_by_id none post_id user (delete_post none post_id user db).1 ≡ err post_not_found)
unfolding delete_post get_post_by_id
get_post_by_id-delete_post post_id user db old h =
    elim (Option-cases (find_post post_id user db.posts)) [
      | inl e ↦ ground (arith, e)
      | inr (p, e) ↦ rw (e, find_post-keep post_id user db.posts) (refl, refl)
    ]
