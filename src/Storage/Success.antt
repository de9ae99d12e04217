-- ===== src/Storage/Success.antt =====
-- What a storage operation that ended without an error did to the tables.
use otus_highload.Base.{
  ℕ, String, ◌≡◌, refl, true, false, List, [], ◌∷◌, Option, some, not, keep, ◌==◌, ◌&&◌, eq_iff,
  arith,
}
use otus_highload.Base.Errors.{Error, Result, ok, err}
use otus_highload.Storage.{Post, PostExtended, Db, map_error, is_friend}
use otus_highload.Storage.Friends.{add_friend, delete_friend}
use otus_highload.Storage.Posts.{
  create_post, update_post, delete_post, is_post_of, set_content, find_post,
}

pub map_error-ok :
    {A : Type 0} (f : Error → Error) (r : Result A × Db) (a : A)
    → (map_error f r).0 ≡ ok a
    → (r.0 ≡ ok a) × ((map_error f r).1 ≡ r.1)
map_error-ok f (ok b, db) a h = (h, refl)
map_error-ok f (err e, db) a h = cc

module _ (fault : Option Error) (user friend : String) (db : Db) where
  -- A friend is added as one new row, where there was none.
  pub add_friend-ok :
      (t : Unit {0})
      → (add_friend fault user friend db).0 ≡ ok t
      → ((add_friend fault user friend db).1
          ≡ record db { friends = (record { user_id = user; friend_id = friend }) ∷ db.friends })
        × (is_friend db.friends user friend ≡ false)
  unfolding add_friend
  add_friend-ok t h = ground arith

  pub delete_friend-ok :
      (t : Unit {0})
      → (delete_friend fault user friend db).0 ≡ ok t
      → ((delete_friend fault user friend db).1 ≡ record db {
        friends = keep (λ r. not (r.user_id == user && r.friend_id == friend)) db.friends;
      })
        × (is_friend db.friends user friend ≡ true)
  unfolding delete_friend
  delete_friend-ok t h = ground arith

pub find_post-row :
    (post_id user : String) (ps : List PostExtended) (p : PostExtended)
    → find_post post_id user ps ≡ some p
    → (p.id ≡ post_id) × (p.author_user_id ≡ user)
unfolding find_post
find_post-row post_id user [] p h = cc
find_post-row post_id user (q ∷ ps) p h =
    ground
      (arith, find_post-row post_id user ps p, eq_iff q.id post_id, eq_iff q.author_user_id user)

module _ (fault : Option Error) (db : Db) where
  pub create_post-ok :
      (now : ℕ) (post : Post) (created : PostExtended)
      → (create_post fault now post db).0 ≡ ok created
      → (created ≡ record { post = post; create_time = now; update_time = now })
        × ((create_post fault now post db).1 ≡ record db { posts = created ∷ db.posts })
  unfolding create_post
  create_post-ok now post created h = ground arith

  pub update_post-ok :
      (post : Post) (updated : PostExtended)
      → (update_post fault post db).0 ≡ ok updated
      → ((update_post fault post db).1
          ≡ record db { posts = set_content post.id post.author_user_id post.text db.posts })
        × (find_post post.id post.author_user_id
              (set_content post.id post.author_user_id post.text db.posts)
            ≡ some updated)
  unfolding update_post
  update_post-ok post updated h = ground arith

  pub delete_post-ok :
      (post_id user : String) (t : Unit {0})
      → (delete_post fault post_id user db).0 ≡ ok t
      → (delete_post fault post_id user db).1
        ≡ record db { posts = keep (λ p. not (is_post_of post_id user p)) db.posts }
  unfolding delete_post
  delete_post-ok post_id user t h = ground arith
