-- ===== src/Service/Pending/Settling.antt =====
-- The updater empties the queue.
use otus_highload.Base.{String, ◌≡◌, refl, ap, subst, List, [], ◌∷◌}
use otus_highload.Cache.Cacher.{Reading}
use otus_highload.Cache.Fresh.{IsUserKey, RoundTrips}
use otus_highload.Feed.Notifier.{FeedJson}
use otus_highload.Feed.Updater.{Updater, Caches, process_event}
use otus_highload.Feed.Smooth.{
  IsOk, Answers, IsReadable, subscribers_in, feed_in, process_event-none,
}
use otus_highload.Cache.Load.{get_cached}
use otus_highload.Storage.{whole, is_cut}
use otus_highload.Feed.Heard.{of_author, heard}
use otus_highload.Feed.Coherence.Updates.{Coherent}
use otus_highload.Service.Pending.Histories.{World, handles, Reach, here, next, quiet-Coherent}

module _ {Raw S : Type 0} (json : FeedJson Raw) (u : Updater S) (reading : String → Reading)
    (subscribers_answer : Answers u.subscribers_redis u.subscribers_converter
      (subscribers_in reading))
    (feeds_answer : Answers u.feed_redis u.feed_converter (feed_in u reading))
    (queries_answer : (k : String) → (reading k).fault ≡ whole) where
  -- The messages of a queue can be read, and so can what is cached of subscribers when the updater comes
  -- to them; the users of post notifications have identifiers that are no mutex names.
  abbrev pub Readable : List Raw → Caches S → Type 0
  Readable [] w = Unit
  Readable (body ∷ rest) w =
      IsReadable json (json.envelope.unmarshal body)
      × ((k : String)
          → IsOk (get_cached u.subscribers_redis u.subscribers_converter w.subscribers k))
      × ((author : String) → heard json body ≡ of_author author → IsUserKey author)
      × Readable rest (process_event u json reading body w).1

  -- The caches once the messages are handled.
  abbrev pub handled_all : List Raw → Caches S → Caches S
  handled_all [] w = w
  handled_all (body ∷ rest) w = handled_all rest (process_event u json reading body w).1

  drained :
      (queue : List Raw) (s t : World Raw S)
      → ((k : String) → (reading k).served ≡ t.app.db)
      → t.app.queue ≡ queue
      → Readable queue t.caches
      → Reach json u s t
      → Reach json u s
          (record { app = record t.app { queue = [] }; caches = handled_all queue t.caches })
  drained [] s t served e handled r =
      subst (λ q. Reach json u s (record { app = record t.app { queue = q }; caches = t.caches })) e
        r
  drained (body ∷ rest) s t served e (readable, cached, keys, handled) r =
      let done =
        process_event-none u reading subscribers_answer feeds_answer queries_answer json body
          t.caches readable cached in
      drained rest s
        (record {
          app = record t.app { queue = rest };
          caches = (process_event u json reading body t.caches).1;
        })
        served refl handled
        (next r (
          handles reading body rest (λ k. (served k, ap is_cut (queries_answer k))) keys e done
            refl))

  pub settles :
      (feed_round : RoundTrips u.feed_converter)
      (subscribers_round : RoundTrips u.subscribers_converter) (s t : World Raw S)
      → Coherent u s.app.db s.caches
      → Reach json u s t
      → ((k : String) → (reading k).served ≡ t.app.db)
      → Readable t.app.queue t.caches
      → (v : World Raw S) × Reach json u t v
        × (v.app.db ≡ t.app.db)
        × (v.app.queue ≡ [])
        × Coherent u v.app.db v.caches
  settles feed_round subscribers_round s t h steps served handled =
      let v : World Raw S = record {
        app = record t.app { queue = [] };
        caches = handled_all t.app.queue t.caches;
      } in
      (
        v,
        drained t.app.queue t t served refl handled here,
        refl,
        refl,
        quiet-Coherent json u feed_round subscribers_round h
            (drained t.app.queue s t served refl handled steps) refl,
      )
