-- ===== src/Feed/Query.antt =====
-- Which answers of the two queries behind the caches a change of the tables can alter.
use otus_highload.Base.{
  String, ◌≡◌, refl, sym, ◌∙◌, ◌≢◌, Bool, true, false, List, [], ◌∷◌, map, any, keep, not, ◌==◌,
  ◌&&◌, eq_iff, arith,
}
use otus_highload.Storage.{Friend, PostExtended}
use otus_highload.Storage.Posts.{is_post_of, set_content}
use otus_highload.Storage.Feed.{feed_rows}

abbrev by_author : String → List PostExtended → List PostExtended
by_author author = keep (λ p. p.author_user_id == author)

abbrev pub without_friend : String → String → List Friend → List Friend
without_friend user friend = keep (λ r. not (r.user_id == user && r.friend_id == friend))

abbrev pub subscribers_of : String → List Friend → List String
subscribers_of friend fs = map (λ r. r.user_id) (keep (λ r. r.friend_id == friend) fs)

pub subscribers_of-without :
    (user friend k : String) (fs : List Friend)
    → friend ≢ k
    → subscribers_of k (without_friend user friend fs) ≡ subscribers_of k fs
subscribers_of-without user friend k [] h = refl
subscribers_of-without user friend k (r ∷ fs) h = ground (
  arith,
  subscribers_of-without user friend k fs h,
  eq_iff r.user_id user,
  eq_iff r.friend_id friend,
  eq_iff r.friend_id k,
)

pub feed_rows-without :
    (user friend k : String) (fs : List Friend) (ps : List PostExtended)
    → user ≢ k
    → feed_rows k (without_friend user friend fs) ps ≡ feed_rows k fs ps
unfolding feed_rows
feed_rows-without user friend k [] ps h = refl
feed_rows-without user friend k (r ∷ fs) ps h = ground (
  arith,
  feed_rows-without user friend k fs ps h,
  eq_iff r.user_id user,
  eq_iff r.friend_id friend,
  eq_iff r.user_id k,
)

-- Two tables of posts that differ in the posts of `author` only.
abbrev pub SameOthers : String → List PostExtended → List PostExtended → Type 0
SameOthers author ps qs =
    (other : String) → author ≢ other → by_author other ps ≡ by_author other qs

pub feed_rows-SameOthers :
    (author k : String) (fs : List Friend) (ps qs : List PostExtended)
    → SameOthers author ps qs
    → any (λ x. x == k) (subscribers_of author fs) ≡ false
    → feed_rows k fs ps ≡ feed_rows k fs qs
unfolding feed_rows
feed_rows-SameOthers author k [] ps qs same out = refl
feed_rows-SameOthers author k (r ∷ fs) ps qs same out = ground (
  arith,
  feed_rows-SameOthers author k fs ps qs same,
  same r.friend_id,
  eq_iff r.friend_id author,
  eq_iff r.user_id k,
)

pub SameOthers-cons :
    (p : PostExtended) (ps : List PostExtended) → SameOthers p.author_user_id (p ∷ ps) ps
SameOthers-cons p ps other h = ground (arith, eq_iff p.author_user_id other)

pub SameOthers-set_content :
    (post_id author text : String) (ps : List PostExtended)
    → SameOthers author (set_content post_id author text ps) ps
unfolding set_content
SameOthers-set_content post_id author text [] other h = refl
SameOthers-set_content post_id author text (p ∷ ps) other h = ground (
  arith,
  SameOthers-set_content post_id author text ps other h,
  eq_iff p.author_user_id author,
  eq_iff p.author_user_id other,
)

pub SameOthers-keep :
    (post_id author : String) (ps : List PostExtended)
    → SameOthers author (keep (λ p. not (is_post_of post_id author p)) ps) ps
SameOthers-keep post_id author [] other h = refl
SameOthers-keep post_id author (p ∷ ps) other h = ground (
  arith,
  SameOthers-keep post_id author ps other h,
  eq_iff p.author_user_id author,
  eq_iff p.author_user_id other,
)

any-keep :
    {A : Type 0} (p q : A → Bool) (xs : List A)
    → ((x : A) → p x ≡ true → q x ≡ true)
    → any p (keep q xs) ≡ any p xs
any-keep p q [] h = refl
any-keep p q (x ∷ xs) h = ground (arith, any-keep p q xs h, h x)

any-subscribers_of :
    (k a : String) (fs : List Friend)
    → any (λ x. x == k) (subscribers_of a fs) ≡ any (λ r. (r.user_id == k) && (r.friend_id == a)) fs
any-subscribers_of k a [] = refl
any-subscribers_of k a (r ∷ fs) = ground (arith, any-subscribers_of k a fs)

-- Whether a user subscribes to another is not altered by the end of any other friendship.
pub members_of-without :
    (user friend k a : String) (fs : List Friend)
    → ((user == k) && (friend == a)) ≡ false
    → any (λ x. x == k) (subscribers_of a (without_friend user friend fs))
      ≡ any (λ x. x == k) (subscribers_of a fs)
members_of-without user friend k a fs h =
    any-subscribers_of k a (without_friend user friend fs)
    ∙ any-keep (λ r. (r.user_id == k) && (r.friend_id == a))
        (λ r. not (r.user_id == user && r.friend_id == friend)) fs
        (λ r e. ground (
          arith,
          eq_iff r.user_id user,
          eq_iff r.friend_id friend,
          eq_iff r.friend_id a,
          eq_iff r.user_id k,
          eq_iff user k,
          eq_iff friend a,
        ))
    ∙ sym (any-subscribers_of k a fs)
