-- ===== src/Feed/Smooth.antt =====
-- A message that the updater reads is handled without an error when the servers of the caches and the
-- queries answer.
use otus_highload.Base.{String, ◌≡◌, refl, List, [], ◌∷◌, Option, none, some}
use otus_highload.Base.Errors.{Error, Result, ok, err}
use otus_highload.Storage.{PostExtended, whole}
use otus_highload.Storage.Friends.{user_ids_with_friend, get_user_ids_with_friend}
use otus_highload.Storage.Feed.{posts_feed, get_posts_feed_by_user_id}
use otus_highload.Cache.Redis.{RedisClient}
use otus_highload.Cache.Load.{
  ValueConverter, invalidate_all, lock_name, load, load_locked, store_loaded, add, get_cached,
  get_or_load, or_load,
}
use otus_highload.Cache.Cacher.{
  Reading, converted, reload_feed, feed_load, subscribers_load, subscribers_get_or_load,
  subscribers_invalidate_all,
}
use otus_highload.Feed.Notifier.{NotificationType, FeedJson, unknown}
use otus_highload.Feed.Notifier as Notifier
use otus_highload.Feed.Updater.{
  Updater, Caches, after_feed_load, load_and_send, after_subscribers_load, process_update_friend,
  later_error, update_feeds, after_subscribers, process_update_feed, flush_feed,
  process_invalidate_all, on_payload, process_notification, process_event,
}

abbrev pub IsOk : {A : Type 0} → Result A → Type 0
IsOk {A} r = (a : A) × (r ≡ ok a)

-- The calls of a server of a cache succeed, and what the query answers for a key can be written.
pub record Answers {S V : Type 0} (redis : RedisClient S) (converter : ValueConverter V)
    (value : String → V) : Type 0 where
  pub set_answers : (s : S) (k v : String) → (redis.set s k v).0 ≡ none
  pub flush_answers : (s : S) → (redis.flush_db s).0 ≡ none
  pub lock_answers : (s : S) (m : String) → (redis.lock s m).0 ≡ none
  pub writes : (k : String) → IsOk (converter.convert_to_string (value k))

module _ {S V : Type 0} (redis : RedisClient S) (converter : ValueConverter V) (value : String → V)
    (answers : Answers redis converter value) where
  store_loaded-ok :
      (s : S) (key : String)
      → ((store_loaded redis converter s key (ok (value key))).0 ≡ some (value key))
        × ((store_loaded redis converter s key (ok (value key))).1 ≡ none)
  unfolding store_loaded add
  store_loaded-ok s key =
      let (text, e) = answers.writes key in (refl, rw e (answers.set_answers s key text))

  load_locked-ok :
      (r : Option Error × S) (key : String)
      → r.0 ≡ none
      → ((load_locked redis converter r key (ok (value key))).0 ≡ some (value key))
        × ((load_locked redis converter r key (ok (value key))).1 ≡ none)
  unfolding load_locked
  load_locked-ok (none, s) key h = store_loaded-ok s key
  load_locked-ok (some e, s) key h = cc

  load-ok :
      (s : S) (key : String)
      → ((load redis converter s key (ok (value key))).0 ≡ some (value key))
        × ((load redis converter s key (ok (value key))).1 ≡ none)
  unfolding load
  load-ok s key =
      load_locked-ok (redis.lock s (lock_name key)) key (answers.lock_answers s (lock_name key))

  converted-IsOk :
      (t : Option V × Option Error × S) (v : V) → t.0 ≡ some v → t.1 ≡ none → IsOk (converted t).0
  converted-IsOk (some w, none, s) v p q = (w, refl)
  converted-IsOk (none, none, s) v p q = cc
  converted-IsOk (w, some e, s) v p q = cc

  pub converted-load-IsOk :
      (s : S) (key : String) (r : Result V)
      → r ≡ ok (value key)
      → IsOk (converted (load redis converter s key r)).0
  converted-load-IsOk s key r e = rw e (
      converted-IsOk (load redis converter s key (ok (value key))) (value key) (load-ok s key).0
        (load-ok s key).1)

  pub converted-get_or_load-IsOk :
      (s : S) (key : String) (r : Result V)
      → r ≡ ok (value key)
      → IsOk (get_cached redis converter s key)
      → IsOk (converted (get_or_load redis converter s key r)).0
  unfolding get_or_load or_load
  converted-get_or_load-IsOk s key r h readable = found (get_cached redis converter s key) readable
    where
      found :
          (c : Result (Option V)) → IsOk c → IsOk (converted (or_load redis converter c s key r)).0
      found (ok (some w)) good = (w, refl)
      found (ok none) good = converted-load-IsOk s key r h
      found (err e) (c, bad) = cc

-- The payload that the type of a message asks for is read.
abbrev pub IsReadable : {Raw : Type 0} → FeedJson Raw → Result (NotificationType × Raw) → Type 0
IsReadable json (err e) = ⊥
IsReadable json (ok (Notifier.invalidate_all, raw)) = Unit
IsReadable json (ok (Notifier.add_friend, raw)) = IsOk (json.friend.unmarshal raw)
IsReadable json (ok (Notifier.delete_friend, raw)) = IsOk (json.friend.unmarshal raw)
IsReadable json (ok (Notifier.create_post, raw)) = IsOk (json.post.unmarshal raw)
IsReadable json (ok (Notifier.update_post, raw)) = IsOk (json.post.unmarshal raw)
IsReadable json (ok (Notifier.delete_post, raw)) = IsOk (json.deleted.unmarshal raw)
IsReadable json (ok (Notifier.unknown type, raw)) = Unit

-- What the two queries answer.
abbrev pub subscribers_in : (String → Reading) → String → List String
subscribers_in reading k = user_ids_with_friend (reading k).served k

abbrev pub feed_in : {S : Type 0} → Updater S → (String → Reading) → String → List PostExtended
feed_in u reading k = posts_feed u.max_feed_length 0 (reading k).served k

module _ {S : Type 0} (u : Updater S) (reading : String → Reading)
    (subscribers_answer : Answers u.subscribers_redis u.subscribers_converter
      (subscribers_in reading))
    (feeds_answer : Answers u.feed_redis u.feed_converter (feed_in u reading))
    (queries_answer : (k : String) → (reading k).fault ≡ whole) where
  friends_read :
      (k : String)
      → get_user_ids_with_friend (reading k).fault k (reading k).served
        ≡ ok (subscribers_in reading k)
  unfolding get_user_ids_with_friend
  friends_read k = rw (queries_answer k) refl

  feed_read :
      (k : String)
      → reload_feed u.feed_redis u.feed_converter u.max_feed_length (reading k) k
        ≡ ok (feed_in u reading k)
  unfolding reload_feed get_posts_feed_by_user_id
  feed_read k = rw (queries_answer k) refl

  after_feed_load-none :
      (user : String) (r : Result (List PostExtended) × S) (w : Caches S)
      → IsOk r.0
      → (after_feed_load u user r w).0 ≡ none
  unfolding after_feed_load
  after_feed_load-none user (ok posts, s) w h = refl
  after_feed_load-none user (err e, s) w (v, h) = cc

  load_and_send-none : (user : String) (w : Caches S) → (load_and_send u reading user w).0 ≡ none
  unfolding load_and_send feed_load
  load_and_send-none user w = after_feed_load-none user _ w (
      converted-load-IsOk u.feed_redis u.feed_converter (feed_in u reading) feeds_answer w.feed user
        _ (feed_read user))

  after_subscribers_load-none :
      (user : String) (r : Result (List String) × S) (w : Caches S)
      → IsOk r.0
      → (after_subscribers_load u reading user r w).0 ≡ none
  unfolding after_subscribers_load
  after_subscribers_load-none user (ok ids, s) w h = load_and_send-none user _
  after_subscribers_load-none user (err e, s) w (v, h) = cc

  friend_updated-none :
      (user friend : String) (w : Caches S)
      → (process_update_friend u reading user friend w).0 ≡ none
  unfolding process_update_friend subscribers_load
  friend_updated-none user friend w = after_subscribers_load-none user _ w (
      converted-load-IsOk u.subscribers_redis u.subscribers_converter (subscribers_in reading)
        subscribers_answer w.subscribers friend _ (friends_read friend))

  later_error-none : (f e : Option Error) → f ≡ none → e ≡ none → later_error f e ≡ none
  unfolding later_error
  later_error-none none e p q = q
  later_error-none (some f) e p q = cc

  update_feeds-none :
      (ids : List String) (e : Option Error) (w : Caches S)
      → e ≡ none
      → (update_feeds u reading ids e w).0 ≡ none
  unfolding update_feeds
  update_feeds-none [] e w h = h
  update_feeds-none (k ∷ ids) e w h =
      update_feeds-none ids (later_error (load_and_send u reading k w).0 e)
        (load_and_send u reading k w).1 (later_error-none _ e (load_and_send-none k w) h)

  after_subscribers-none :
      (r : Result (List String) × S) (w : Caches S)
      → IsOk r.0
      → (after_subscribers u reading r w).0 ≡ none
  unfolding after_subscribers
  after_subscribers-none (ok ids, s) w h = update_feeds-none ids none _ refl
  after_subscribers-none (err e, s) w (v, h) = cc

  feed_updated-none :
      (user : String) (w : Caches S)
      → IsOk (get_cached u.subscribers_redis u.subscribers_converter w.subscribers user)
      → (process_update_feed u reading user w).0 ≡ none
  unfolding process_update_feed subscribers_get_or_load
  feed_updated-none user w cached = after_subscribers-none _ w (
      converted-get_or_load-IsOk u.subscribers_redis u.subscribers_converter
        (subscribers_in reading) subscribers_answer w.subscribers user _ (friends_read user) cached)

  flush_feed-none : (r : Option Error × S) (w : Caches S) → r.0 ≡ none → (flush_feed u r w).0 ≡ none
  unfolding flush_feed invalidate_all
  flush_feed-none (none, s) w h = feeds_answer.flush_answers w.feed
  flush_feed-none (some e, s) w h = cc

  flushed-none : (w : Caches S) → (process_invalidate_all u w).0 ≡ none
  unfolding process_invalidate_all subscribers_invalidate_all invalidate_all
  flushed-none w = flush_feed-none _ w (subscribers_answer.flush_answers w.subscribers)

  on_payload-none :
      {A : Type 0} (r : Result A) (f : A → Caches S → Option Error × Caches S) (w : Caches S)
      → IsOk r
      → ((a : A) → (f a w).0 ≡ none)
      → (on_payload u r f w).0 ≡ none
  unfolding on_payload
  on_payload-none (ok a) f w h fine = fine a
  on_payload-none (err e) f w (a, h) fine = cc

  -- A readable message is handled without an error, if what is cached can be read.
  pub process_event-none :
      {Raw : Type 0} (json : FeedJson Raw) (body : Raw) (w : Caches S)
      → IsReadable json (json.envelope.unmarshal body)
      → ((k : String)
          → IsOk (get_cached u.subscribers_redis u.subscribers_converter w.subscribers k))
      → (process_event u json reading body w).0 ≡ none
  unfolding process_event process_notification
  process_event-none {Raw = Raw} json body w h cached = handled (json.envelope.unmarshal body) h
    where
      handled :
          (r : Result (NotificationType × Raw))
          → IsReadable json r
          → (elim r as (λ x. Option Error × Caches S) [
            | err e ↦ (some e, w)
            | ok (type, raw) ↦ process_notification u json reading type raw w
          ]).0
            ≡ none
      handled (err e) bad = absurd bad
      handled (ok (Notifier.invalidate_all, raw)) good = flushed-none w
      handled (ok (Notifier.add_friend, raw)) good =
          on_payload-none (json.friend.unmarshal raw) _ w good
            (λ p. friend_updated-none p.user_id p.friend_id w)
      handled (ok (Notifier.delete_friend, raw)) good =
          on_payload-none (json.friend.unmarshal raw) _ w good
            (λ p. friend_updated-none p.user_id p.friend_id w)
      handled (ok (Notifier.create_post, raw)) good =
          on_payload-none (json.post.unmarshal raw) _ w good
            (λ p. feed_updated-none p.user_id w (cached p.user_id))
      handled (ok (Notifier.update_post, raw)) good =
          on_payload-none (json.post.unmarshal raw) _ w good
            (λ p. feed_updated-none p.user_id w (cached p.user_id))
      handled (ok (Notifier.delete_post, raw)) good =
          on_payload-none (json.deleted.unmarshal raw) _ w good
            (λ p. feed_updated-none p.user_id w (cached p.user_id))
      handled (ok (Notifier.unknown type, raw)) good = refl
