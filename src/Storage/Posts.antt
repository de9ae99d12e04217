-- ===== src/Storage/Posts.antt =====
-- backend/social/internal/storage/sql/post_storage.go
use otus_highload.Base.{
  ℕ, String, Bool, List, [], ◌∷◌, Option, none, some, not, ◌==◌, ◌&&◌, keep, any, if◌then◌else◌,
}
use otus_highload.Base.Errors.{
  Error, Result, ok, err, user_not_found, post_not_found, no_rows, pg_error,
}
use otus_highload.Storage.{Post, PostExtended, Db, run, map_error, has_user}
use otus_highload.Storage.Friends.{foreign_key_violation, unique_violation}

-- createPostSQL at the time `now`, under the primary key and the foreign key of `posts`.
unfoldable pub insert_post : ℕ → Post → Db → Result PostExtended × Db
insert_post now post db =
    let created : PostExtended = record { post = post; create_time = now; update_time = now } in
    if any (λ p. p.id == post.id) db.posts
    then (err (pg_error unique_violation), db)
    else if has_user db.users post.author_user_id
    then (ok created, record db { posts = created ∷ db.posts })
    else (err (pg_error foreign_key_violation), db)

unfoldable pub create_post_error : Error → Error
create_post_error (pg_error code) =
    if code == foreign_key_violation then user_not_found else pg_error code
create_post_error e = e

unfoldable pub create_post : Option Error → ℕ → Post → Db → Result PostExtended × Db
unfolding insert_post create_post_error
create_post fault now post db = map_error create_post_error (run fault (insert_post now post) db)

-- WHERE id = $1 AND user_id = $2
abbrev pub is_post_of : String → String → PostExtended → Bool
is_post_of post_id user p = p.id == post_id && p.author_user_id == user

-- The row that a query on the primary key finds.
unfoldable pub find_post : String → String → List PostExtended → Option PostExtended
find_post post_id user [] = none
find_post post_id user (p ∷ ps) =
    if is_post_of post_id user p then some p else find_post post_id user ps

-- SET content = $3: the times stay as they are.
abbrev pub with_text : String → PostExtended → PostExtended
with_text text p = record p { post = record p.post { text = text } }

unfoldable pub set_content : String → String → String → List PostExtended → List PostExtended
set_content post_id user text [] = []
set_content post_id user text (p ∷ ps) =
    (if is_post_of post_id user p then with_text text p else p) ∷ set_content post_id user text ps

abbrev returning_post : Option PostExtended → Db → Db → Result PostExtended × Db
returning_post none old new = (err no_rows, old)
returning_post (some p) old new = (ok p, new)

-- updatePostSQL
unfoldable pub replace_content : Post → Db → Result PostExtended × Db
unfolding find_post set_content
replace_content post db =
    let posts = set_content post.id post.author_user_id post.text db.posts in
    returning_post (find_post post.id post.author_user_id posts) db (record db { posts = posts })

-- pgx.ErrNoRows is ErrPostNotFound in UpdatePost, DeletePost and GetPostById.
unfoldable pub post_error : Error → Error
post_error no_rows = post_not_found
post_error e = e

unfoldable pub update_post : Option Error → Post → Db → Result PostExtended × Db
unfolding replace_content post_error
update_post fault post db = map_error post_error (run fault (replace_content post) db)

abbrev returning_unit : Option PostExtended → Db → Db → Result (Unit {0}) × Db
returning_unit none old new = (err no_rows, old)
returning_unit (some p) old new = (ok tt, new)

-- deletePostByIdSQL
unfoldable pub remove_post : String → String → Db → Result (Unit {0}) × Db
unfolding find_post
remove_post post_id user db =
    returning_unit (find_post post_id user db.posts) db
      (record db { posts = keep (λ p. not (is_post_of post_id user p)) db.posts })

unfoldable pub delete_post : Option Error → String → String → Db → Result (Unit {0}) × Db
unfolding remove_post post_error
delete_post fault post_id user db = map_error post_error (run fault (remove_post post_id user) db)

abbrev found_post : Option PostExtended → Result PostExtended
found_post none = err post_not_found
found_post (some p) = ok p

unfoldable pub get_post_by_id : Option Error → String → String → Db → Result PostExtended
unfolding find_post
get_post_by_id (some e) post_id user db = err e
get_post_by_id none post_id user db = found_post (find_post post_id user db.posts)
