-- ===== src/Http/Window.antt =====
-- The handler of the feed at any limit and offset.
use otus_highload.Base.{
  ℕ, suc, String, ◌≢◌, inl, inr, List, Option, some, length, arith, Bool-cases,
}
use otus_highload.Base.Int.{ℤ, pos, negsuc, ltz, add_int}
use otus_highload.Base.Errors.{Error, Result, ok, err}
use otus_highload.Storage.{PostExtended}
use otus_highload.Cache.Cacher.{Reading}
use otus_highload.Feed.Updater.{Updater}
use otus_highload.Feed.Page.{Page, get_user_posts, page_loop, page_of}
use otus_highload.Feed.Page.Loop.{page_from-posts}
use otus_highload.Http.{panicked, get_user_id, with_user}
use otus_highload.Http.Posts.{get_post_feed, feed_response, page_response, not_valid_window}

-- A page that the handler can answer.
abbrev Given : Page → Type 0
Given page = page_response page ≢ panicked

failed-Given : (e : Error) → Given (Page.failed e)
failed-Given e h = ground arith

page_of-Given :
    (offset : ℕ) (end : ℤ) (cached : Result (List PostExtended))
    → Given (page_of (pos offset) end cached)
unfolding page_loop
page_of-Given offset end (err e) = failed-Given e
page_of-Given offset end (ok ps) =
    let (qs, e) = page_from-posts (suc (length ps)) offset end ps (omega arith) (omega arith) in
    rw e (λ h. cc)

module _ {S : Type 0} (u : Updater S) (r : Reading) where
  get_user_posts-Given :
      (limit : ℤ) (offset : ℕ) (s : S) (user : String)
      → Given (get_user_posts u r limit (pos offset) s user).0
  unfolding get_user_posts
  get_user_posts-Given limit offset s user =
      elim (Bool-cases (ltz (pos u.max_feed_length) (add_int (pos offset) limit))) [
        | inl long ↦ rw long (failed-Given _)
        | inr fits ↦ rw fits (page_of-Given offset _ _)
      ]

  -- With both parameters given, a request for the feed ends with an answer and without a panic,
  -- whatever the two numbers, the integers that Go converts them to, the user, the cache
  -- and the database are.
  pub get_post_feed-answers :
      {Float : Type 0} (int : Float → ℤ) (context : Option String) (x y : Float) (cache : S)
      → (get_post_feed u int r context (some x) (some y) cache).0 ≢ panicked
  unfolding get_post_feed
  get_post_feed-answers int context x y cache = for_user (int x) (int y) (get_user_id context)
    where
      for_user :
          (limit offset : ℤ) (user : Result String)
          → (with_user user
              (λ name s.
                feed_response (some limit) (some offset) (λ l o. get_user_posts u r l o s name) s)
              cache).0
            ≢ panicked
      for_user limit offset (err e) = λ h. cc
      for_user limit offset (ok user) = window offset
        where
          window :
              (o : ℤ)
              → (feed_response
                  (some limit)
                  (some o)
                  (λ l o'. get_user_posts u r l o' cache user)
                  cache).0
                ≢ panicked
          window (negsuc n) = λ h. ground (arith, h)
          window (pos n) = elim (Bool-cases (not_valid_window limit (pos n))) [
            | inl short ↦ rw short (λ h. cc)
            | inr long ↦ rw long (get_user_posts-Given limit n cache user)
          ]
