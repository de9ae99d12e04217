-- ===== src/Http/Friends.antt =====
-- The handlers of /friend.
use otus_highload.Base.{String, Option, some}
use otus_highload.Base.Errors.{Result, ok, err, user_not_found, user_already_exists}
use otus_highload.Feed.Notifier.{FeedJson}
use otus_highload.Service.Friends.{App, Faults, add_friend, delete_friend}
use otus_highload.Http.{
  Response, success, bad_request, not_found, internal_error, get_user_id, with_user, answer_if,
  with_response,
}

abbrev pub add_friend_response : Result (Unit {0}) → Response (Unit {0})
add_friend_response (ok t) = success t
add_friend_response (err e) =
    answer_if user_not_found e not_found
      (answer_if user_already_exists e bad_request (internal_error (some e)))

abbrev pub delete_friend_response : Result (Unit {0}) → Response (Unit {0})
delete_friend_response (ok t) = success t
delete_friend_response (err e) = answer_if user_not_found e not_found (internal_error (some e))

module _ {Raw : Type 0} (json : FeedJson Raw) (faults : Faults) where
  unfoldable pub put_friend_set_user_id :
      Option String → String → App Raw → Response (Unit {0}) × App Raw
  put_friend_set_user_id context friend app =
      with_user (get_user_id context)
        (λ user s. with_response add_friend_response (add_friend json faults user friend s)) app

  unfoldable pub put_friend_delete_user_id :
      Option String → String → App Raw → Response (Unit {0}) × App Raw
  put_friend_delete_user_id context friend app =
      with_user (get_user_id context)
        (λ user s. with_response delete_friend_response (delete_friend json faults user friend s))
        app
