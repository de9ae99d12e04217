-- ===== src/Feed/Page.antt =====
-- backend/social/internal/service/feed/post_feed_service.go
pub mod Loop
pub mod Window
use otus_highload.Base.{
  ℕ, suc, zero, ◌+◌, String, Bool, ◌&&◌, List, [], ◌∷◌, Option, none, some, length, get_elem?, ltb,
  if◌then◌else◌,
}
use otus_highload.Base.Int.{ℤ, pos, negsuc, ltz, add_int}
use otus_highload.Base.Errors.{Error, Result, ok, err, post_feed_len_not_valid}
use otus_highload.Storage.{PostExtended}
use otus_highload.Cache.Cacher.{Reading, feed_get_or_load}
use otus_highload.Feed.Updater.{Updater}

-- An answer, or what stops the goroutine; `exhausted` is the end of the fuel.
pub data Page : Type 0 where
  posts : List PostExtended → Page
  failed : Error → Page
  panicked : Page
  exhausted : Page

abbrev cons_page : Option PostExtended → Page → Page
cons_page none rest = panicked
cons_page (some p) (posts ps) = posts (p ∷ ps)
cons_page (some p) rest = rest

-- for i := offset; i < end && i < len(posts); i++, from an index that is not negative.
unfoldable pub page_from : ℕ → ℕ → ℤ → List PostExtended → Page
page_from zero i end ps = exhausted
page_from (suc fuel) i end ps =
    let rest = page_from fuel (suc i) end ps in
    if ltz (pos i) end && ltb i (length ps) then cons_page (get_elem? ps i) rest else posts []

-- A negative index is out of range as soon as the loop is entered.
unfoldable pub page_loop : ℤ → ℤ → List PostExtended → Page
unfolding page_from
page_loop (pos i) end ps = page_from (suc (length ps)) i end ps
page_loop (negsuc n) end ps = if ltz (negsuc n) end then panicked else posts []

abbrev pub page_of : ℤ → ℤ → Result (List PostExtended) → Page
page_of offset end (err e) = failed e
page_of offset end (ok ps) = page_loop offset end ps

unfoldable pub get_user_posts : {S : Type 0} → Updater S → Reading → ℤ → ℤ → S → String → Page × S
get_user_posts u r limit offset s user =
    let end = add_int offset limit in
    let (cached, s') = feed_get_or_load u.feed_redis u.feed_converter u.max_feed_length r s user in
    if ltz (pos u.max_feed_length) end
    then (failed post_feed_len_not_valid, s)
    else (page_of offset end cached, s')
