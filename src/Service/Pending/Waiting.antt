-- ===== src/Service/Pending/Waiting.antt =====
-- What waits after a change of the tables and the notification of it.
use otus_highload.Base.{
  String, ◌≡◌, refl, sym, ◌∙◌, ◌⊎◌, inl, inr, Bool, true, List, [], ◌∷◌, ◌++◌, any, any-append,
  ◌==◌, Bool-cases, arith,
}
use otus_highload.Storage.{Db}
use otus_highload.Storage.Friends.{user_ids_with_friend}
use otus_highload.Storage.Feed.{posts_feed}
use otus_highload.Cache.Fresh.{IsUserKey, FreshAt}
use otus_highload.Feed.Notifier.{FeedJson}
use otus_highload.Feed.Updater.{Updater, Caches}
use otus_highload.Feed.Heard.{
  Heard, of_friend, of_author, everything, nothing, of_subscribers, of_membership, of_feed, heard,
}
use otus_highload.Service.Pending.Changes.{Changed}
use otus_highload.Service.Pending.Invariant.{waits, Pending, of_membership-feed, any_mono}

-- What waited before a change waits for the new tables too.
of_feed_after :
    (before db : Db) (k : String) (m : Heard)
    → ((a : String)
        → any (λ x. x == k) (user_ids_with_friend db a)
          ≡ any (λ x. x == k) (user_ids_with_friend before a))
    → of_feed before k m ≡ true
    → of_feed db k m ≡ true
of_feed_after before db k (of_friend user friend) same h = h
of_feed_after before db k (of_author author) same h = same author ∙ h
of_feed_after before db k everything same h = refl
of_feed_after before db k nothing same h = h

module _ {Raw S : Type 0} (json : FeedJson Raw) (u : Updater S) where
  waits_before :
      (t : Heard → Bool) (queue : List Raw) (body : Raw)
      → (waits json u t queue ≡ true) ⊎ (t (heard json body) ≡ true)
      → waits json u t (queue ++ body ∷ []) ≡ true
  waits_before t queue body (inl p) =
      ground (arith, any-append (λ b. t (heard json b)) queue (body ∷ []))
  waits_before t queue body (inr p) =
      ground (arith, any-append (λ b. t (heard json b)) queue (body ∷ []))

  module _ (before db : Db) (queue : List Raw) (body : Raw) (w : Caches S)
      (changed : Changed u.max_feed_length before db (heard json body))
      (old : Pending json u before queue w) where
    subscribers_changed :
        (a : String)
        → IsUserKey a
        → (waits json u (of_subscribers a) (queue ++ body ∷ []) ≡ true)
          ⊎ FreshAt u.subscribers_converter
              (u.subscribers_redis.content w.subscribers a)
              (user_ids_with_friend db a)
    subscribers_changed a key = elim (changed.subscribers a) [
      | inl named ↦ inl (waits_before (of_subscribers a) queue body (inr named))
      | inr same ↦ elim (old.subscribers a key) [
        | inl p ↦ inl (waits_before (of_subscribers a) queue body (inl p))
        | inr fresh ↦ inr (rw same fresh)
      ]
    ]

    feeds_changed :
        (k : String)
        → IsUserKey k
        → (waits json u (of_feed db k) (queue ++ body ∷ []) ≡ true)
          ⊎ FreshAt u.feed_converter
              (u.feed_redis.content w.feed k)
              (posts_feed u.max_feed_length 0 db k)
    feeds_changed k key = elim (Bool-cases (of_feed db k (heard json body))) [
      | inl named ↦ inl (waits_before (of_feed db k) queue body (inr named))
      | inr unnamed ↦
          let same_members : (a : String)
              → any (λ x. x == k) (user_ids_with_friend db a)
                ≡ any (λ x. x == k) (user_ids_with_friend before a) =
            λ a. elim (changed.members k a) [
              | inl m ↦ cc (of_membership-feed db k a (heard json body) m)
              | inr same ↦ same
            ] in
          elim (old.feeds k key) [
            | inl p ↦ inl (
                waits_before (of_feed db k) queue body (
                  inl (
                    any_mono (λ b. of_feed before k (heard json b))
                      (λ b. of_feed db k (heard json b)) queue
                      (λ b. of_feed_after before db k (heard json b) same_members) p)))
            | inr fresh ↦ elim (changed.feeds k) [ inl named ↦ cc | inr same ↦ inr (rw same fresh) ]
          ]
    ]

    pub changed-Pending : Pending json u db (queue ++ body ∷ []) w
    changed-Pending = record {
      subscribers = subscribers_changed;
      members = λ k a key. elim (changed.members k a) [
        | inl named ↦ inl (waits_before (of_membership k a) queue body (inr named))
        | inr same ↦ elim (old.members k a key) [
          | inl p ↦ inl (waits_before (of_membership k a) queue body (inl p))
          | inr known ↦ inr (λ ids c. known ids c ∙ sym same)
        ]
      ];
      feeds = feeds_changed;
    }
