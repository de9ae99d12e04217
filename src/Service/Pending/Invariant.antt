-- ===== src/Service/Pending/Invariant.antt =====
-- What holds of the caches while notifications wait: whatever is stale is named by one that waits.
use otus_highload.Base.{
  String, ◌≡◌, refl, sym, ap, ◌∙◌, ◌⊎◌, inl, inr, Bool, true, false, List, [], ◌∷◌, Option, any,
  ◌==◌, ◌||◌, arith,
}
use otus_highload.Storage.{Db}
use otus_highload.Storage.Friends.{user_ids_with_friend}
use otus_highload.Storage.Feed.{posts_feed}
use otus_highload.Cache.Redis.{Kept}
use otus_highload.Cache.Load.{ValueConverter}
use otus_highload.Cache.Fresh.{IsUserKey, FreshAt, FreshAt-Kept}
use otus_highload.Cache.Renewed.{Renewed, Cached}
use otus_highload.Feed.Notifier.{FeedJson}
use otus_highload.Feed.Updater.{Updater, Caches}
use otus_highload.Feed.Heard.{
  Heard, of_friend, of_author, everything, nothing, of_subscribers, of_membership, of_feed, heard,
}
use otus_highload.Feed.Coherence.Updates.{Coherent}

pub Cached-FreshAt :
    {V : Type 0} (c : ValueConverter V) (kept : Option String) (v w : V)
    → FreshAt c kept v
    → Cached c kept w
    → w ≡ v
Cached-FreshAt c kept v w fresh (text, e, r) = let read = fresh text e in ground arith

pub Cached-Kept :
    {V : Type 0} (c : ValueConverter V) (before after : Option String) (v : V)
    → Kept before after
    → Cached c after v
    → Cached c before v
Cached-Kept c before after v (inl p) (text, e, r) = (text, sym p ∙ e, r)
Cached-Kept c before after v (inr p) (text, e, r) = cc

-- A message about a friendship has the user's subscribers and the feed loaded.
pub of_membership-subscribers :
    (k a : String) (h : Heard) → of_subscribers a h ≡ false → of_membership k a h ≡ false
of_membership-subscribers k a (of_friend user friend) e = ground arith
of_membership-subscribers k a (of_author author) e = refl
of_membership-subscribers k a everything e = cc
of_membership-subscribers k a nothing e = refl

pub of_membership-feed :
    (db : Db) (k a : String) (h : Heard) → of_membership k a h ≡ true → of_feed db k h ≡ true
of_membership-feed db k a (of_friend user friend) e = ground arith
of_membership-feed db k a (of_author author) e = cc
of_membership-feed db k a everything e = refl
of_membership-feed db k a nothing e = cc

pub any_mono :
    {A : Type 0} (p q : A → Bool) (xs : List A)
    → ((x : A) → p x ≡ true → q x ≡ true)
    → any p xs ≡ true
    → any q xs ≡ true
any_mono p q [] sub h = cc
any_mono p q (x ∷ xs) sub h = ground (arith, sub x, any_mono p q xs sub)

module _ {Raw S : Type 0} (json : FeedJson Raw) (u : Updater S) where
  -- A message of the queue is heard as one that passes the test.
  abbrev pub waits : (Heard → Bool) → List Raw → Bool
  waits t queue = any (λ b. t (heard json b)) queue

  -- Whatever the caches keep under a user's identifier is what the database answers, or a waiting
  -- message makes the updater load it; a cached list of subscribers names a user just where the
  -- database does, or a message about that friendship waits.
  pub record Pending (db : Db) (queue : List Raw) (w : Caches S) : Type 0 where
    pub subscribers :
        (a : String)
        → IsUserKey a
        → (waits (of_subscribers a) queue ≡ true)
          ⊎ FreshAt u.subscribers_converter
              (u.subscribers_redis.content w.subscribers a)
              (user_ids_with_friend db a)
    pub members :
        (k a : String)
        → IsUserKey a
        → (waits (of_membership k a) queue ≡ true)
          ⊎ ((ids : List String)
              → Cached u.subscribers_converter (u.subscribers_redis.content w.subscribers a) ids
              → any (λ x. x == k) ids ≡ any (λ x. x == k) (user_ids_with_friend db a))
    pub feeds :
        (k : String)
        → IsUserKey k
        → (waits (of_feed db k) queue ≡ true)
          ⊎ FreshAt u.feed_converter
              (u.feed_redis.content w.feed k)
              (posts_feed u.max_feed_length 0 db k)

  pub Coherent-Pending :
      (db : Db) (queue : List Raw) (w : Caches S) → Coherent u db w → Pending db queue w
  Coherent-Pending db queue w h = record {
    subscribers = λ a key. inr (h.subscribers a key);
    members = λ k a key. inr (λ ids c.
        ap (λ l. any (λ x. x == k) l)
          (Cached-FreshAt u.subscribers_converter _ _ ids (h.subscribers a key) c));
    feeds = λ k key. inr (h.feeds k key);
  }

  pub settled-Coherent : (db : Db) (w : Caches S) → Pending db [] w → Coherent u db w
  settled-Coherent db w h = record {
    subscribers = λ a key. elim (h.subscribers a key) [ inl p ↦ cc | inr fresh ↦ fresh ];
    feeds = λ k key. elim (h.feeds k key) [ inl p ↦ cc | inr fresh ↦ fresh ];
  }

  -- What handling a message does to the caches: it loads what the message names, or that waits still.
  pub record Turned (db : Db) (h : Heard) (rest : List Raw) (w w' : Caches S) : Type 0 where
    pub subscribers :
        (a : String)
        → IsUserKey a
        → Renewed u.subscribers_converter
            (of_subscribers a h)
            (u.subscribers_redis.content w.subscribers a)
            (u.subscribers_redis.content w'.subscribers a)
            (user_ids_with_friend db a)
    pub feeds :
        (k : String)
        → IsUserKey k
        → Renewed u.feed_converter
            (of_feed db k h)
            (u.feed_redis.content w.feed k)
            (u.feed_redis.content w'.feed k)
            (posts_feed u.max_feed_length 0 db k)
          ⊎ (waits (of_feed db k) rest ≡ true)

  -- What waited for a message that did not name it waits for the rest.
  pub renewed :
      {V : Type 0} (c : ValueConverter V) (named waiting : Bool) (before after : Option String)
      (v : V)
      → Renewed c named before after v
      → ((named || waiting) ≡ true) ⊎ FreshAt c before v
      → (waiting ≡ true) ⊎ FreshAt c after v
  renewed c named waiting before after v (inl fresh) old = inr fresh
  renewed c named waiting before after v (inr (unnamed, kept)) (inl p) = inl (ground arith)
  renewed c named waiting before after v (inr (unnamed, kept)) (inr fresh) =
      inr (FreshAt-Kept c before after v kept fresh)

  members_turned :
      (db : Db) (k a : String) (body : Raw) (rest : List Raw) (before after : Option String)
      → Renewed u.subscribers_converter
          (of_subscribers a (heard json body))
          before
          after
          (user_ids_with_friend db a)
      → (waits (of_membership k a) (body ∷ rest) ≡ true)
        ⊎ ((ids : List String)
            → Cached u.subscribers_converter before ids
            → any (λ x. x == k) ids ≡ any (λ x. x == k) (user_ids_with_friend db a))
      → (waits (of_membership k a) rest ≡ true)
        ⊎ ((ids : List String)
            → Cached u.subscribers_converter after ids
            → any (λ x. x == k) ids ≡ any (λ x. x == k) (user_ids_with_friend db a))
  members_turned db k a body rest before after (inl fresh) old = inr (λ ids c.
      ap (λ l. any (λ x. x == k) l) (Cached-FreshAt u.subscribers_converter after _ ids fresh c))
  members_turned db k a body rest before after (inr (unnamed, kept)) (inl p) =
      inl (ground (arith, of_membership-subscribers k a (heard json body) unnamed))
  members_turned db k a body rest before after (inr (unnamed, kept)) (inr same) =
      inr (λ ids c. same ids (Cached-Kept u.subscribers_converter before after ids kept c))

  pub Turned-Pending :
      (db : Db) (body : Raw) (rest : List Raw) (w w' : Caches S)
      → Turned db (heard json body) rest w w'
      → Pending db (body ∷ rest) w
      → Pending db rest w'
  Turned-Pending db body rest w w' turned old = record {
    subscribers = λ a key.
        renewed u.subscribers_converter (of_subscribers a (heard json body)) _ _ _ _
          (turned.subscribers a key) (old.subscribers a key);
    members = λ k a key.
        members_turned db k a body rest _ _ (turned.subscribers a key) (old.members k a key);
    feeds = λ k key. elim (turned.feeds k key) [
      | inl r ↦
          renewed u.feed_converter (of_feed db k (heard json body)) _ _ _ _ r (old.feeds k key)
      | inr p ↦ inl p
    ];
  }
