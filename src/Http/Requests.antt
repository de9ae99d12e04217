-- ===== src/Http/Requests.antt =====
-- The requests of one user about friends and posts, and the status of their answers.
use otus_highload.Base.{ℕ, String, Option}
use otus_highload.Feed.Notifier.{FeedJson}
use otus_highload.Service.Friends.{App, Faults}
use otus_highload.Http.{
  Response, success, bad_request, unauthorized, not_found, internal_error, panicked,
}
use otus_highload.Http.Friends.{put_friend_set_user_id, put_friend_delete_user_id}
use otus_highload.Http.Posts.{
  post_post_create, put_post_update, put_post_delete_id, get_post_get_id,
}

pub data Request : Type 0 where
  sets_friend deletes_friend : String → Request
  -- With the identifier and the time that the post gets.
  creates_post : String → ℕ → String → Request
  updates_post : String → String → Request
  deletes_post gets_post : String → Request

-- A panic is answered with nothing.
abbrev pub status_of : {A : Type 0} → Response A → ℕ
status_of (success a) = 200
status_of bad_request = 400
status_of unauthorized = 401
status_of not_found = 404
status_of (internal_error e) = 500
status_of panicked = 0

abbrev pub answered : {A S : Type 0} → Response A × S → ℕ × S
answered (r, s) = (status_of r, s)

module _ {Raw : Type 0} (json : FeedJson Raw) (faults : Faults) (context : Option String) where
  abbrev pub serve : Request → App Raw → ℕ × App Raw
  serve (sets_friend friend) app = answered (put_friend_set_user_id json faults context friend app)
  serve (deletes_friend friend) app =
      answered (put_friend_delete_user_id json faults context friend app)
  serve (creates_post id now text) app =
      answered (post_post_create json faults id now context text app)
  serve (updates_post post_id text) app =
      answered (put_post_update json faults context post_id text app)
  serve (deletes_post post_id) app = answered (put_post_delete_id json faults context post_id app)
  serve (gets_post post_id) app = answered (get_post_get_id json faults context post_id app)
