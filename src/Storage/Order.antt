-- ===== src/Storage/Order.antt =====
-- The feed that the query returns: its length, and whose posts it shows.
use otus_highload.Base.{
  ℕ, zero, suc, String, ◌≤◌, ◌≡◌, refl, ◌∙◌, Bool, false, List, [], ◌∷◌, length, take, drop, any,
  keep, ◌==◌, any-append, arith, eq_iff,
}
use otus_highload.Storage.{Friend, PostExtended, Db, is_friend}
use otus_highload.Storage.Feed.{feed_rows, insert_by_time, order_by_create_time, posts_feed}

length-take : {A : Type 0} (n : ℕ) (xs : List A) → length (take n xs) ≤ n
length-take zero xs = omega arith
length-take (suc n) [] = omega arith
length-take (suc n) (x ∷ xs) = omega (arith, length-take n xs)

-- A list whose members all pass a test, cut at either end.
any-take :
    (P : PostExtended → Bool) (n : ℕ) (ps : List PostExtended)
    → any P ps ≡ false
    → any P (take n ps) ≡ false
any-take P zero ps h = refl
any-take P (suc n) [] h = refl
any-take P (suc n) (p ∷ ps) h = ground (arith, any-take P n ps)

any-drop :
    (P : PostExtended → Bool) (n : ℕ) (ps : List PostExtended)
    → any P ps ≡ false
    → any P (drop n ps) ≡ false
any-drop P zero ps h = h
any-drop P (suc n) [] h = refl
any-drop P (suc n) (p ∷ ps) h = any-drop P n ps (ground arith)

any-insert :
    (P : PostExtended → Bool) (p : PostExtended) (ps : List PostExtended)
    → any P (insert_by_time p ps) ≡ any P (p ∷ ps)
unfolding insert_by_time
any-insert P p [] = refl
any-insert P p (q ∷ qs) = ground (arith, any-insert P p qs)

any-order :
    (P : PostExtended → Bool) (ps : List PostExtended) → any P (order_by_create_time ps) ≡ any P ps
unfolding order_by_create_time
any-order P [] = refl
any-order P (p ∷ ps) = any-insert P p (order_by_create_time ps) ∙ ground (arith, any-order P ps)

-- No post of an author whom the user does not follow is among the rows.
abbrev pub by_author : String → PostExtended → Bool
by_author author p = p.author_user_id == author

any-keep_other :
    (author other : String) (ps : List PostExtended)
    → (other == author) ≡ false
    → any (by_author author) (keep (λ p. p.author_user_id == other) ps) ≡ false
any-keep_other author other [] h = refl
any-keep_other author other (p ∷ ps) h = ground (
  arith,
  any-keep_other author other ps,
  eq_iff p.author_user_id other,
  eq_iff p.author_user_id author,
  eq_iff other author,
)

feed_rows-unfollowed :
    (user author : String) (fs : List Friend) (ps : List PostExtended)
    → is_friend fs user author ≡ false
    → any (by_author author) (feed_rows user fs ps) ≡ false
unfolding feed_rows
feed_rows-unfollowed user author [] ps h = refl
feed_rows-unfollowed user author (f ∷ fs) ps h = ground (
  arith,
  feed_rows-unfollowed user author fs ps,
  any-append (by_author author) (keep (λ p. p.author_user_id == f.friend_id) ps)
      (feed_rows user fs ps),
  any-keep_other author f.friend_id ps,
)

-- A page of the feed has at most `limit` posts, and none of an author whom the user does not follow.
pub posts_feed-followed :
    (limit offset : ℕ) (db : Db) (user author : String)
    → is_friend db.friends user author ≡ false
    → (length (posts_feed limit offset db user) ≤ limit)
      × (any (by_author author) (posts_feed limit offset db user) ≡ false)
unfolding posts_feed
posts_feed-followed limit offset db user author h =
    let rows = feed_rows user db.friends db.posts in
    (
      length-take limit (drop offset (order_by_create_time rows)),
      any-take (by_author author) limit _ (
          any-drop (by_author author) offset _ (
            any-order (by_author author) rows
            ∙ feed_rows-unfollowed user author db.friends db.posts h)),
    )
