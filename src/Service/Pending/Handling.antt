-- ===== src/Service/Pending/Handling.antt =====
-- One message handled by the updater without an error, while others may wait.
use otus_highload.Base.{
  String, ◌≡◌, refl, sym, ap, subst, ◌∙◌, ◌⊎◌, inl, inr, true, false, List, ◌∷◌, Option, none, some,
  any, ◌==◌, ◌||◌, arith,
}
use otus_highload.Base.Errors.{Error, Result, ok, err}
use otus_highload.Storage.{Db}
use otus_highload.Storage.Friends.{user_ids_with_friend, get_user_ids_with_friend}
use otus_highload.Storage.Feed.{posts_feed}
use otus_highload.Cache.Load.{load, get_or_load, invalidate_all}
use otus_highload.Cache.Cacher.{
  Serves, Reading, converted, subscribers_load, subscribers_get_or_load, subscribers_invalidate_all,
}
use otus_highload.Cache.Fresh.{IsUserKey, RoundTrips, Kept-refl}
use otus_highload.Cache.Renewed.{Renewed, Cached, load-Renewed, get_or_load-Renewed}
use otus_highload.Feed.Notifier.{FeedJson}
use otus_highload.Feed.Updater.{
  Updater, Caches, after_subscribers, process_update_feed, after_subscribers_load,
  process_update_friend, process_invalidate_all, flush_feed, process_event,
}
use otus_highload.Feed.Heard.{
  Heard, of_friend, of_author, everything, nothing, of_membership, of_feed, heard, handle,
  process_event-handle,
}
use otus_highload.Feed.Coherence.Loads.{converted_state, converted_ok, load_and_send-Renewed}
use otus_highload.Feed.Coherence.Loop.{
  load_and_send_subscribers, update_feeds_subscribers, update_feeds-Renewed,
}
use otus_highload.Feed.Coherence.Updates.{
  subscribers-ok, after_subscribers_ok, after_subscribers_load_ok,
}
use otus_highload.Service.Pending.Invariant.{
  waits, Pending, Turned, Turned-Pending, any_mono, of_membership-feed,
}

module _ {Raw S : Type 0} (json : FeedJson Raw) (u : Updater S) (reading : String → Reading)
    (db : Db) (feed_round : RoundTrips u.feed_converter)
    (subscribers_round : RoundTrips u.subscribers_converter)
    (reads : (k : String) → Serves (reading k) db) (rest : List Raw) where
  reread :
      (user : String) (ids : List String)
      → get_user_ids_with_friend (reading user).fault user (reading user).served ≡ ok ids
      → ids ≡ user_ids_with_friend db user
  reread user ids h =
      subscribers-ok (reading user).fault user (reading user).served ids (reads user).1 h
      ∙ ap (λ d. user_ids_with_friend d user) (reads user).0

  friend_loaded-Turned :
      (user friend : String) (r : Result (List String) × S) (w : Caches S)
      → ((a : String)
          → IsUserKey a
          → Renewed u.subscribers_converter
              (friend == a)
              (u.subscribers_redis.content w.subscribers a)
              (u.subscribers_redis.content r.1 a)
              (user_ids_with_friend db a))
      → (after_subscribers_load u reading user r w).0 ≡ none
      → Turned json u db
          (of_friend user friend)
          rest
          w
          (after_subscribers_load u reading user r w).1
  unfolding after_subscribers_load
  friend_loaded-Turned user friend (err e, s) w subs h = cc
  friend_loaded-Turned user friend (ok ids, s) w subs h = record {
    subscribers = λ a key.
        rw (load_and_send_subscribers u reading db user (record w { subscribers = s }))
          (subs a key);
    feeds = λ k key. inl (
        load_and_send-Renewed u reading db feed_round reads user (record w { subscribers = s }) h k
          key);
  }

  friend-Turned :
      (user friend : String) (w : Caches S)
      → (process_update_friend u reading user friend w).0 ≡ none
      → Turned json u db
          (of_friend user friend)
          rest
          w
          (process_update_friend u reading user friend w).1
  unfolding process_update_friend subscribers_load
  friend-Turned user friend w h =
      let source = get_user_ids_with_friend (reading friend).fault friend (reading friend).served in
      let t = load u.subscribers_redis u.subscribers_converter w.subscribers friend source in
      let (ids, p) = after_subscribers_load_ok u reading user (converted t) w h in
      friend_loaded-Turned user friend (converted t) w
        (λ a key. rw (converted_state t) (
          load-Renewed u.subscribers_redis u.subscribers_converter subscribers_round
            (user_ids_with_friend db) w.subscribers friend source (reread friend)
            (converted_ok t ids p).0 a key))
        h

  -- What the loop over `ids` refreshes is what the message names, but for pending friendships.
  feed_looped :
      (author k : String) (ids : List String) (before after : Option String)
      → Renewed u.feed_converter
          (any (λ x. x == k) ids)
          before
          after
          (posts_feed u.max_feed_length 0 db k)
      → (waits json u (of_membership k author) rest ≡ true)
        ⊎ (any (λ x. x == k) ids ≡ any (λ x. x == k) (user_ids_with_friend db author))
      → Renewed u.feed_converter
          (of_feed db k (of_author author))
          before
          after
          (posts_feed u.max_feed_length 0 db k)
        ⊎ (waits json u (of_feed db k) rest ≡ true)
  feed_looped author k ids before after r (inl p) = inr (
      any_mono (λ b. of_membership k author (heard json b)) (λ b. of_feed db k (heard json b)) rest
        (λ b. of_membership-feed db k author (heard json b)) p)
  feed_looped author k ids before after r (inr e) = inl (
      subst (λ b. Renewed u.feed_converter b before after (posts_feed u.max_feed_length 0 db k)) e
        r)

  author_looped-Turned :
      (author : String) (r : Result (List String) × S) (w : Caches S)
      → ((a : String)
          → IsUserKey a
          → Renewed u.subscribers_converter false
              (u.subscribers_redis.content w.subscribers a)
              (u.subscribers_redis.content r.1 a)
              (user_ids_with_friend db a))
      → ((k : String) (ids : List String)
          → r.0 ≡ ok ids
          → (waits json u (of_membership k author) rest ≡ true)
            ⊎ (any (λ x. x == k) ids ≡ any (λ x. x == k) (user_ids_with_friend db author)))
      → (after_subscribers u reading r w).0 ≡ none
      → Turned json u db (of_author author) rest w (after_subscribers u reading r w).1
  unfolding after_subscribers
  author_looped-Turned author (err e, s) w subs members h = cc
  author_looped-Turned author (ok ids, s) w subs members h = record {
    subscribers = λ a key.
        rw (update_feeds_subscribers u reading db ids none (record w { subscribers = s }))
          (subs a key);
    feeds = λ k key.
        feed_looped author k ids _ _
          (update_feeds-Renewed u reading db feed_round reads ids (record w { subscribers = s }) h k
            key)
          (members k ids refl);
  }

  -- The list that `GetOrLoad` returns names whom the cached one names, or is the database's.
  found_members :
      (author k : String) (kept : Option String) (v ids : List String)
      → v ≡ ids
      → (Cached u.subscribers_converter kept v ⊎ (v ≡ user_ids_with_friend db author))
      → (waits json u (of_membership k author) rest ≡ true)
        ⊎ ((l : List String)
            → Cached u.subscribers_converter kept l
            → any (λ x. x == k) l ≡ any (λ x. x == k) (user_ids_with_friend db author))
      → (waits json u (of_membership k author) rest ≡ true)
        ⊎ (any (λ x. x == k) ids ≡ any (λ x. x == k) (user_ids_with_friend db author))
  found_members author k kept v ids e c (inl p) = inl p
  found_members author k kept v ids e (inl c) (inr same) =
      inr (ap (λ l. any (λ x. x == k) l) (sym e) ∙ same v c)
  found_members author k kept v ids e (inr loaded) (inr same) =
      inr (ap (λ l. any (λ x. x == k) l) (sym e ∙ loaded))

  author-Turned :
      (author : String) (w : Caches S)
      → IsUserKey author
      → ((k : String)
          → (waits json u (of_membership k author) rest ≡ true)
            ⊎ ((l : List String)
                → Cached u.subscribers_converter
                    (u.subscribers_redis.content w.subscribers author)
                    l
                → any (λ x. x == k) l ≡ any (λ x. x == k) (user_ids_with_friend db author)))
      → (process_update_feed u reading author w).0 ≡ none
      → Turned json u db (of_author author) rest w (process_update_feed u reading author w).1
  unfolding process_update_feed subscribers_get_or_load
  author-Turned author w key members h =
      let source = get_user_ids_with_friend (reading author).fault author (reading author).served in
      let t = get_or_load u.subscribers_redis u.subscribers_converter w.subscribers author source in
      let (all, q) = after_subscribers_ok u reading (converted t) w h in
      let (v, found, origin, subs) =
        get_or_load-Renewed u.subscribers_redis u.subscribers_converter subscribers_round
          (user_ids_with_friend db) w.subscribers author source (reread author) key
          (converted_ok t all q).0 in
      author_looped-Turned author (converted t) w (λ a user. rw (converted_state t) (subs a user))
        (λ k ids p.
          let same : some v ≡ some ids = sym found ∙ (converted_ok t ids p).1 in
          found_members author k _ v ids (ground arith) origin (members k))
        h

  flushed-Turned :
      (r : Option Error × S) (w : Caches S)
      → (r.0 ≡ none → (a : String) → u.subscribers_redis.content r.1 a ≡ none)
      → (flush_feed u r w).0 ≡ none
      → Turned json u db everything rest w (flush_feed u r w).1
  unfolding flush_feed invalidate_all
  flushed-Turned (some e, s) w empty h = cc
  flushed-Turned (none, s) w empty h = record {
    subscribers = λ a key. inl (λ text e. cc (empty refl a, e));
    feeds = λ k key. inl (inl (λ text e. cc (u.feed_redis.flush_all w.feed k h, e)));
  }

  everything-Turned :
      (w : Caches S)
      → (process_invalidate_all u w).0 ≡ none
      → Turned json u db everything rest w (process_invalidate_all u w).1
  unfolding process_invalidate_all subscribers_invalidate_all invalidate_all
  everything-Turned w h =
      flushed-Turned (u.subscribers_redis.flush_db w.subscribers) w
        (λ e a. u.subscribers_redis.flush_all w.subscribers a e) h

  handle-Turned :
      (h : Heard) (w : Caches S)
      → ((author : String) → h ≡ of_author author → IsUserKey author)
      → ((k a : String)
          → IsUserKey a
          → ((of_membership k a h || waits json u (of_membership k a) rest) ≡ true)
            ⊎ ((l : List String)
                → Cached u.subscribers_converter (u.subscribers_redis.content w.subscribers a) l
                → any (λ x. x == k) l ≡ any (λ x. x == k) (user_ids_with_friend db a)))
      → (handle u reading h w).0 ≡ none
      → Turned json u db h rest w (handle u reading h w).1
  handle-Turned (of_friend user friend) w key members done = friend-Turned user friend w done
  handle-Turned (of_author author) w key members done =
      author-Turned author w (key author refl) (λ k. members k author (key author refl)) done
  handle-Turned everything w key members done = everything-Turned w done
  handle-Turned nothing w key members done = record {
    subscribers = λ a key. inr (refl, Kept-refl _);
    feeds = λ k key. inl (inr (refl, Kept-refl _));
  }

  pub handled-Pending :
      (body : Raw) (w : Caches S)
      → ((author : String) → heard json body ≡ of_author author → IsUserKey author)
      → (process_event u json reading body w).0 ≡ none
      → Pending json u db (body ∷ rest) w
      → Pending json u db rest (process_event u json reading body w).1
  handled-Pending body w key done old =
      let e = process_event-handle json u reading body w done in
      rw e (
        Turned-Pending json u db body rest w (handle u reading (heard json body) w).1
          (handle-Turned (heard json body) w key old.members (rw e at done)) old)
