-- ===== src/Storage/Friends.antt =====
-- backend/social/internal/storage/sql/friend_storage.go
use otus_highload.Base.{String, List, ◌∷◌, Option, not, ◌==◌, ◌&&◌, keep, map, if◌then◌else◌}
use otus_highload.Base.Errors.{
  Error, Result, ok, err, user_not_found, user_already_exists, no_rows, pg_error,
}
use otus_highload.Storage.{Rows, rows_of, Db, run, map_error, has_user, is_friend}

abbrev pub foreign_key_violation : String
foreign_key_violation = "23503"

abbrev pub unique_violation : String
unique_violation = "23505"

-- addFriendSQL, under the table's primary key and its two foreign keys.
unfoldable pub insert_friend : String → String → Db → Result (Unit {0}) × Db
insert_friend user friend db =
    if is_friend db.friends user friend
    then (err (pg_error unique_violation), db)
    else if has_user db.users user && has_user db.users friend
    then (
      ok tt,
      record db { friends = (record { user_id = user; friend_id = friend }) ∷ db.friends },
    )
    else (err (pg_error foreign_key_violation), db)

-- What AddFriend makes of the error of `s.db.Write`.
unfoldable pub add_friend_error : Error → Error
add_friend_error (pg_error code) =
    if code == foreign_key_violation
    then user_not_found
    else if code == unique_violation
    then user_already_exists
    else pg_error code
add_friend_error e = e

unfoldable pub add_friend : Option Error → String → String → Db → Result (Unit {0}) × Db
unfolding insert_friend add_friend_error
add_friend fault user friend db =
    map_error add_friend_error (run fault (insert_friend user friend) db)

-- deleteFriendSQL; scanning its row fails with pgx.ErrNoRows where no row was deleted.
unfoldable pub remove_friend : String → String → Db → Result (Unit {0}) × Db
remove_friend user friend db =
    if is_friend db.friends user friend
    then (
      ok tt,
      record db {
        friends = keep (λ r. not (r.user_id == user && r.friend_id == friend)) db.friends;
      },
    )
    else (err no_rows, db)

unfoldable pub delete_friend_error : Error → Error
delete_friend_error no_rows = user_not_found
delete_friend_error e = e

unfoldable pub delete_friend : Option Error → String → String → Db → Result (Unit {0}) × Db
unfolding remove_friend delete_friend_error
delete_friend fault user friend db =
    map_error delete_friend_error (run fault (remove_friend user friend) db)

-- getUserIdsWithFriend: the subscribers of a user.
unfoldable pub user_ids_with_friend : Db → String → List String
user_ids_with_friend db friend = map (λ r. r.user_id) (keep (λ r. r.friend_id == friend) db.friends)

unfoldable pub get_user_ids_with_friend : Rows → String → Db → Result (List String)
unfolding user_ids_with_friend
get_user_ids_with_friend rows friend db = rows_of rows (user_ids_with_friend db friend)
