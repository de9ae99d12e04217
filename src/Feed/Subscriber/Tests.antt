-- ===== src/Feed/Subscriber/Tests.antt =====
-- ann opens two connections, and closes one of them.
use otus_highload.Base.{ℕ, ◌≤◌, ◌≡◌, ◌≢◌, refl, sym, [], ◌∷◌, map, none}
use otus_highload.Base.Errors.{ok}
use otus_highload.Base.Maps.{lookup}
use otus_highload.Feed.Notifier.{Codec}
use otus_highload.Feed.Subscriber.{
  Hub, panicked, subscribers_or_new, subscribe_post_feed, unsubscribe_post_feed, clean_up,
}
use otus_highload.Feed.Subscriber.Sending.{
  UserPostFeedNotification, received, crashed, consume_update,
}
use otus_highload.Feed.Subscriber.Channels.{count_in}
use otus_highload.Feed.Subscriber.Received.{
  NewChannels, consume_update-received, consume_update-crashed, clean_up-late,
}
use otus_highload.Feed.Subscriber.Histories.{Reach, here, next, subscribes, unsubscribe-done}

abbrev empty : Hub
empty = record { consumers = []; active_subscribers = []; closed = []; stopped = [] }

abbrev one : Hub
one = (subscribe_post_feed (ok 1) "ann" "a" 10 empty).1

abbrev two : Hub
two = (subscribe_post_feed (ok 2) "ann" "b" 11 one).1

connections : Reach empty two
connections = next (next here (subscribes (ok 1) "ann" "a" 10)) (subscribes (ok 2) "ann" "b" 11)

unsubscribe-done_example : (unsubscribe_post_feed none "ann" "a" two).0 ≢ panicked
unsubscribe-done_example = unsubscribe-done none "ann" "a" refl refl connections

abbrev as_is : Codec UserPostFeedNotification UserPostFeedNotification
as_is = record { marshal = λ n. ok n; unmarshal = λ n. ok n; round = λ a raw e. sym e }

abbrev update : UserPostFeedNotification
update = record {
  posts =
      record {
        post = record { id = "1"; author_user_id = "bob"; text = "hi" };
        create_time = 3;
        update_time = 3;
      }
      ∷ [];
}

connections-NewChannels : NewChannels connections
unfolding NewChannels connections subscribe_post_feed
connections-NewChannels = ((tt, refl), refl)

consume_update-received_example :
    let subscribers = subscribers_or_new (lookup "ann" two.active_subscribers) in
    (consume_update as_is update two (λ _. two) "ann"
      ≡ received (map (λ s. (s.1, map (λ p. p.post) update.posts)) subscribers))
    × ((c : ℕ) → count_in c subscribers ≤ 1)
consume_update-received_example =
    consume_update-received as_is "ann" update update connections refl refl connections-NewChannels
      refl

consume_update-crashed_example :
    consume_update as_is update two (λ _. (unsubscribe_post_feed none "ann" "b" two).1) "ann"
    ≡ crashed []
unfolding subscribe_post_feed
consume_update-crashed_example =
    consume_update-crashed as_is none two "ann" "b" 11 (("a", 10) ∷ []) update update refl refl

clean_up-late_example :
    let g =
      clean_up 1 "ann"
        (subscribe_post_feed (ok 2) "ann" "b" 11 (unsubscribe_post_feed none "ann" "a" one).1).1 in
    (g.closed ≡ 10 ∷ 11 ∷ [])
    × (g.stopped ≡ 1 ∷ 1 ∷ [])
    × (lookup "ann" g.consumers ≡ none)
    × (lookup "ann" g.active_subscribers ≡ none)
unfolding subscribe_post_feed unsubscribe_post_feed
clean_up-late_example =
    clean_up-late 1 2 "ann" "b" 11 (unsubscribe_post_feed none "ann" "a" one).1 refl refl
