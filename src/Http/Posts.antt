-- ===== src/Http/Posts.antt =====
-- The handlers of /post.
use otus_highload.Base.{none, ℕ, String, Bool, List, map, Option, some, ◌||◌, if◌then◌else◌}
use otus_highload.Base.Int.{ℤ, pos, ltz}
use otus_highload.Base.Errors.{
  Error, Result, ok, err, user_not_found, post_not_found, post_feed_len_not_valid,
}
use otus_highload.Storage.{Post, PostExtended}
use otus_highload.Cache.Cacher.{Reading}
use otus_highload.Feed.Notifier.{FeedJson}
use otus_highload.Feed.Updater.{Updater}
use otus_highload.Feed.Page.{Page, get_user_posts}
use otus_highload.Service.Friends.{App, Faults}
use otus_highload.Service.Posts.{create_post, update_post, delete_post, get_post_by_id}
use otus_highload.Http.{
  Response, success, bad_request, not_found, internal_error, panicked, get_user_id, with_user,
  answer_if, with_response,
}

-- The answer to a result, with 404 for one of the sentinels.
abbrev pub response_or_404 : {A B : Type 0} → Error → (A → B) → Result A → Response B
response_or_404 sentinel body (ok a) = success (body a)
response_or_404 sentinel body (err e) = answer_if sentinel e not_found (internal_error (some e))

module _ {Raw : Type 0} (json : FeedJson Raw) (faults : Faults) where
  unfoldable pub post_post_create :
      String → ℕ → Option String → String → App Raw → Response String × App Raw
  post_post_create id now context text app =
      with_user (get_user_id context)
        (λ user s.
          with_response (response_or_404 user_not_found (λ (p : PostExtended). p.id))
            (create_post json faults id now user text s))
        app

  unfoldable pub put_post_update :
      Option String → String → String → App Raw → Response (Unit {0}) × App Raw
  put_post_update context post_id text app =
      with_user (get_user_id context)
        (λ user s.
          with_response (response_or_404 post_not_found (λ p. tt))
            (update_post json faults user post_id text s))
        app

  unfoldable pub put_post_delete_id :
      Option String → String → App Raw → Response (Unit {0}) × App Raw
  put_post_delete_id context post_id app =
      with_user (get_user_id context)
        (λ user s.
          with_response (response_or_404 post_not_found (λ t. t))
            (delete_post json faults user post_id s))
        app

  unfoldable pub get_post_get_id : Option String → String → App Raw → Response Post × App Raw
  get_post_get_id context post_id app =
      with_user (get_user_id context)
        (λ user s. (
          response_or_404 post_not_found (λ (p : PostExtended). p.post)
              (get_post_by_id json faults user post_id s),
          s,
        ))
        app

-- `limit <= 0 || offset < 0`
abbrev pub not_valid_window : ℤ → ℤ → Bool
not_valid_window limit offset = ltz limit (pos 1) || ltz offset (pos 0)

abbrev pub page_response : Page → Response (List Post)
page_response (Page.posts ps) = success (map (λ (p : PostExtended). p.post) ps)
page_response (Page.failed e) =
    answer_if post_feed_len_not_valid e bad_request (internal_error (some e))
page_response Page.panicked = panicked
page_response Page.exhausted = panicked

abbrev pub feed_response :
    {S : Type 0} → Option ℤ → Option ℤ → (ℤ → ℤ → Page × S) → S → Response (List Post) × S
feed_response (some limit) (some offset) page s =
    if not_valid_window limit offset
    then (bad_request, s)
    else with_response page_response (page limit offset)
feed_response _ _ page s = (panicked, s)

abbrev pub converted_param : {Float : Type 0} → (Float → ℤ) → Option Float → Option ℤ
converted_param int none = none
converted_param int (some x) = some (int x)

-- The two parameters are pointers to a float32, which are read before anything checks them; `int` is
-- the conversion of Go.
unfoldable pub get_post_feed :
    {S Float : Type 0}
    → Updater S
    → (Float → ℤ)
    → Reading
    → Option String
    → Option Float
    → Option Float
    → S
    → Response (List Post) × S
get_post_feed u int r context limit offset cache =
    with_user (get_user_id context)
      (λ user s.
        feed_response (converted_param int limit) (converted_param int offset)
          (λ l o. get_user_posts u r l o s user) s)
      cache
