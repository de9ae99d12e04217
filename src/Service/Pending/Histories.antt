-- ===== src/Service/Pending/Histories.antt =====
-- Calls of the services, the updater and reads of feeds, interleaved in any order.
use otus_highload.Base.{
  String, ◌≡◌, refl, ap, subst, inl, inr, false, List, [], ◌∷◌, ◌++◌, Option, none, some,
}
use otus_highload.Base.Errors.{Error, Result, ok, err}
use otus_highload.Storage.{Db, after_commit}
use otus_highload.Storage.Atomic.{Atomic}
use otus_highload.Cache.Redis.{Kept}
use otus_highload.Cache.Load.{get_or_load}
use otus_highload.Cache.Cacher.{Serves, Reading, reload_feed, feed_get_or_load}
use otus_highload.Cache.Fresh.{IsUserKey, RoundTrips}
use otus_highload.Cache.Renewed.{get_or_load-Renewed}
use otus_highload.Storage.Feed.{posts_feed}
use otus_highload.Feed.Notifier.{FeedJson, notify_invalidate_all}
use otus_highload.Feed.Updater.{Updater, Caches, process_event}
use otus_highload.Feed.Heard.{Heard, of_author, heard}
use otus_highload.Feed.Coherence.Loads.{converted_state, reload_feed-served}
use otus_highload.Feed.Coherence.Updates.{Coherent}
use otus_highload.Service.Friends.{App, Faults}
use otus_highload.Service.Calls.{
  Call, add_friend, delete_friend, create_post, update_post, delete_post, call, outcome,
}
use otus_highload.Service.Atomic.{
  service_add_friend-Atomic, service_delete_friend-Atomic, service_create_post-Atomic,
  service_update_post-Atomic, service_delete_post-Atomic,
}
use otus_highload.Service.Pending.Invariant.{
  Pending, Coherent-Pending, settled-Coherent, renewed, Cached-Kept,
}
use otus_highload.Service.Pending.Handling.{handled-Pending}
use otus_highload.Service.Pending.Changes.{Changed, call-Changed}
use otus_highload.Service.Pending.Waiting.{changed-Pending}

pub record World (Raw S : Type 0) : Type 0 where
  pub app : App Raw
  pub caches : Caches S

abbrev with_queue : {Raw : Type 0} → App Raw → List Raw → App Raw
with_queue app queue = record app { queue = queue }

outcome-Atomic :
    {Raw A : Type 0} (r : Result A × App Raw) (app : App Raw) (e : Error)
    → Atomic r app
    → (outcome r).0 ≡ some e
    → (outcome r).1 ≡ app
outcome-Atomic (ok a, app') app e h p = cc
outcome-Atomic (err e', app') app e (inl (a, q)) p = cc
outcome-Atomic (err e', app') app e (inr (f, q)) p = ap (λ r. r.1) q

module _ {Raw : Type 0} (json : FeedJson Raw) where
  call-failed :
      (c : Call) (faults : Faults) (app : App Raw) (e : Error)
      → after_commit faults.storage ≡ false
      → (call json faults c app).0 ≡ some e
      → (call json faults c app).1 ≡ app
  call-failed (add_friend user friend) faults app e early h =
      outcome-Atomic _ app e (service_add_friend-Atomic json faults early user friend app) h
  call-failed (delete_friend user friend) faults app e early h =
      outcome-Atomic _ app e (service_delete_friend-Atomic json faults early user friend app) h
  call-failed (create_post id now user text) faults app e early h =
      outcome-Atomic _ app e (service_create_post-Atomic json faults early id now user text app) h
  call-failed (update_post user post_id text) faults app e early h =
      outcome-Atomic _ app e (service_update_post-Atomic json faults early user post_id text app) h
  call-failed (delete_post user post_id) faults app e early h =
      outcome-Atomic _ app e (service_delete_post-Atomic json faults early user post_id app) h

module _ {Raw S : Type 0} (json : FeedJson Raw) (u : Updater S) where
  -- One step of the service as a whole.
  pub data Step (s t : World Raw S) : Type 0 where
    -- A call of a service that succeeds, and whose notification the queue accepts.
    calls :
        (c : Call) (faults : Faults) (body : Raw)
        → (call json faults c s.app).0 ≡ none
        → (call json faults c s.app).1.queue ≡ s.app.queue ++ body ∷ []
        → t ≡ record s { app = (call json faults c s.app).1 }
        → Step s t
    -- A call that fails, without a change of the tables.
    fails :
        (c : Call) (faults : Faults) (e : Error)
        → (call json faults c s.app).0 ≡ some e
        → after_commit faults.storage ≡ false
        → t ≡ record s { app = (call json faults c s.app).1 }
        → Step s t
    -- The request to invalidate the caches.
    invalidates :
        (fault : Option Error) (body : Raw)
        → (notify_invalidate_all json fault s.app.queue).1 ≡ s.app.queue ++ body ∷ []
        → t ≡ record s {
          app = record s.app { queue = (notify_invalidate_all json fault s.app.queue).1 };
        }
        → Step s t
    -- The updater handles the oldest message without an error.
    handles :
        (reading : String → Reading) (body : Raw) (rest : List Raw)
        → ((k : String) → Serves (reading k) s.app.db)
        → ((author : String) → heard json body ≡ of_author author → IsUserKey author)
        → s.app.queue ≡ body ∷ rest
        → (process_event u json reading body s.caches).0 ≡ none
        → t ≡ record {
          app = record s.app { queue = rest };
          caches = (process_event u json reading body s.caches).1;
        }
        → Step s t
    -- The feed of a user is read through the cache.
    reads :
        (reading : Reading) (user : String)
        → IsUserKey user
        → Serves reading s.app.db
        → (get_or_load u.feed_redis u.feed_converter s.caches.feed user
            (reload_feed u.feed_redis u.feed_converter u.max_feed_length reading user)).1
          ≡ none
        → t ≡ record s {
          caches = record s.caches {
            feed =
                (feed_get_or_load u.feed_redis u.feed_converter u.max_feed_length reading
                  s.caches.feed user).1;
          };
        }
        → Step s t
    -- Redis lets values expire.
    expires :
        (w : Caches S)
        → ((k : String)
            → Kept
                (u.subscribers_redis.content s.caches.subscribers k)
                (u.subscribers_redis.content w.subscribers k))
        → ((k : String)
            → Kept (u.feed_redis.content s.caches.feed k) (u.feed_redis.content w.feed k))
        → t ≡ record s { caches = w }
        → Step s t

  pub data Reach (s : World Raw S) : World Raw S → Type 0 where
    here : Reach s s
    next : {t v : World Raw S} → Reach s t → Step t v → Reach s v

  abbrev pub Covered : World Raw S → Type 0
  Covered s = Pending json u s.app.db s.app.queue s.caches

  same_tables : (db : Db) (h : Heard) → Changed u.max_feed_length db db h
  same_tables db h = record {
    subscribers = λ a. inr refl;
    members = λ k a. inr refl;
    feeds = λ k. inr refl;
  }

  Kept-Pending :
      (db : Db) (queue : List Raw) (w w' : Caches S)
      → ((k : String)
          → Kept
              (u.subscribers_redis.content w.subscribers k)
              (u.subscribers_redis.content w'.subscribers k))
      → ((k : String) → Kept (u.feed_redis.content w.feed k) (u.feed_redis.content w'.feed k))
      → Pending json u db queue w
      → Pending json u db queue w'
  Kept-Pending db queue w w' subs feeds old = record {
    subscribers = λ a key.
        renewed json u u.subscribers_converter false _ _ _ _ (inr (refl, subs a))
          (old.subscribers a key);
    members = λ k a key. elim (old.members k a key) [
      | inl p ↦ inl p
      | inr same ↦ inr (λ ids c. same ids (Cached-Kept u.subscribers_converter _ _ ids (subs a) c))
    ];
    feeds = λ k key.
        renewed json u u.feed_converter false _ _ _ _ (inr (refl, feeds k)) (old.feeds k key);
  }

  module _ (feed_round : RoundTrips u.feed_converter)
      (subscribers_round : RoundTrips u.subscribers_converter) where
    read-Pending :
        (reading : Reading) (user : String) (db : Db) (queue : List Raw) (w : Caches S)
        → IsUserKey user
        → Serves reading db
        → (get_or_load u.feed_redis u.feed_converter w.feed user
            (reload_feed u.feed_redis u.feed_converter u.max_feed_length reading user)).1
          ≡ none
        → Pending json u db queue w
        → Pending json u db queue (record w {
          feed =
              (feed_get_or_load u.feed_redis u.feed_converter u.max_feed_length reading w.feed
                user).1;
        })
    unfolding feed_get_or_load
    read-Pending reading user db queue w key at done old =
        let source = reload_feed u.feed_redis u.feed_converter u.max_feed_length reading user in
        let t = get_or_load u.feed_redis u.feed_converter w.feed user source in
        let (v, found, origin, feeds) =
          get_or_load-Renewed u.feed_redis u.feed_converter feed_round
            (posts_feed u.max_feed_length 0 db) w.feed user source
            (λ v p. reload_feed-served u (λ k. reading) db user v at p) key done in
        record {
          subscribers = old.subscribers;
          members = old.members;
          feeds = λ k user_key.
              renewed json u u.feed_converter false _ _ _ _
                (rw (converted_state t) (feeds k user_key)) (old.feeds k user_key);
        }

    step-Covered : {s t : World Raw S} → Step s t → Covered s → Covered t
    step-Covered {s} {t} (calls c faults body done queued e) h =
        rw (e, queued)
          (changed-Pending json u s.app.db (call json faults c s.app).1.db s.app.queue body s.caches
            (call-Changed json u.max_feed_length c faults s.app body done queued) h)
    step-Covered {s} {t} (fails c faults failure failed early e) h =
        rw (e, call-failed json c faults s.app failure early failed) h
    step-Covered {s} {t} (invalidates fault body queued e) h =
        rw (e, queued)
          (changed-Pending json u s.app.db s.app.db s.app.queue body s.caches
            (same_tables s.app.db (heard json body)) h)
    step-Covered {s} {t} (handles reading body rest served keys queued done e) h = rw e (
        handled-Pending json u reading s.app.db feed_round subscribers_round served rest body
          s.caches keys done (rw queued at h))
    step-Covered {s} {t} (reads reading user key served done e) h =
        rw e (read-Pending reading user s.app.db s.app.queue s.caches key served done h)
    step-Covered {s} {t} (expires w subs feeds e) h =
        rw e (Kept-Pending s.app.db s.app.queue s.caches w subs feeds h)

    -- In every history from a state in which whatever the caches keep under a user's identifier is
    -- what the database answers, or is named by a waiting notification, that stays so: whatever is
    -- stale in a cache, the handling of a notification that waits is going to load it. The steps of
    -- a history are calls of the friend and post services that fail before the database has run their
    -- statement, or that succeed and have their
    -- notification accepted by the queue, requests to invalidate the caches, the handling of the
    -- oldest notification without an error, reads of a feed through the cache without an error, and
    -- the expiry of values. Each step is atomic, the queries of the updater and of the readers see
    -- the database of their step and all of their rows, the converters read back what they wrote, and the user of a
    -- handled post notification has an identifier that is not the name of a mutex.
    pub reach-Covered : {s t : World Raw S} → Covered s → Reach s t → Covered t
    reach-Covered h here = h
    reach-Covered h (next r st) = step-Covered st (reach-Covered h r)

    -- A history of calls, requests to invalidate, handled notifications, reads and expiries, in any
    -- interleaving, that starts with caches that are coherent with the database and ends with an
    -- empty queue, ends with caches that are coherent with the database. What is assumed of the
    -- steps is that calls which fail do so before the database has run their statement, that
    -- notifications are accepted by the queue and handled without an error, that the queries of a
    -- step see the database of that step and all of their rows, that the converters read back what they wrote
    -- and that the user of a handled post notification has an identifier that is no mutex name.
    pub quiet-Coherent :
        {s t : World Raw S}
        → Coherent u s.app.db s.caches
        → Reach s t
        → t.app.queue ≡ []
        → Coherent u t.app.db t.caches
    quiet-Coherent {s} {t} h steps empty = settled-Coherent json u t.app.db t.caches (
        subst (λ q. Pending json u t.app.db q t.caches) empty
          (reach-Covered (Coherent-Pending json u s.app.db s.app.queue s.caches h) steps))
