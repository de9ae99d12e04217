-- ===== src/Queue/Worker.antt =====
-- Consumer.ReceiveData of backend/pkg/queue/rabbit/consumer.go and the goroutines that `processEvents`
-- starts in verifier.go, user_status_service.go and post_feed_updater.go: one forwards the deliveries
-- of the broker to a channel without a buffer, the other takes them from it.
use otus_highload.Base.{◌≡◌, Bool, true, false, List, [], ◌∷◌, ◌++◌, Option, none, some}
use otus_highload.Queue.{Delivery, ConsumerMessage, get_message}

-- The two goroutines. `held` is the message that the first one is sending.
pub record Pipe (Body S : Type 0) : Type 0 where
  pub deliveries : List (Delivery Body)
  -- Whether the broker may still deliver.
  pub open_channel : Bool
  pub held : Option (ConsumerMessage Body)
  -- close(result), at the end of the first goroutine.
  pub result_closed : Bool
  -- close(s.done), at the end of the second one.
  pub done : Bool
  pub state : S

abbrev pub started : {Body S : Type 0} → S → Pipe Body S
started s = record {
  deliveries = [];
  open_channel = true;
  held = none;
  result_closed = false;
  done = false;
  state = s;
}

abbrev pub deliver : {Body S : Type 0} → Delivery Body → Pipe Body S → Pipe Body S
deliver d p = record p { deliveries = p.deliveries ++ d ∷ [] }

-- The first goroutine takes a delivery, whose message it sends next.
abbrev pub take_delivery :
    {Body S : Type 0} → Delivery Body → List (Delivery Body) → Pipe Body S → Pipe Body S
take_delivery d rest p = record p { deliveries = rest; held = some (get_message d) }

abbrev pub close_result : {Body S : Type 0} → Pipe Body S → Pipe Body S
close_result p = record p { result_closed = true }

-- The second goroutine receives the message that is being sent, and handles it.
abbrev pub handle_message :
    {Body S : Type 0}
    → (ConsumerMessage Body → S → S)
    → ConsumerMessage Body
    → Pipe Body S
    → Pipe Body S
handle_message process m p = record p { held = none; state = process m p.state }

abbrev pub close_done : {Body S : Type 0} → Pipe Body S → Pipe Body S
close_done p = record p { done = true }

module _ {Body S : Type 0} (process : ConsumerMessage Body → S → S) where
  -- What can have happened since the goroutines were started, and the deliveries until then. The
  -- channel of the broker ends when the consumer is cancelled or the connection is closed.
  pub data Run (s : S) : List (Delivery Body) → Pipe Body S → Type 0 where
    starts : Run s [] (started s)
    delivers :
        {ds : List (Delivery Body)} {p : Pipe Body S} (d : Delivery Body)
        → p.open_channel ≡ true
        → Run s ds p
        → Run s (ds ++ d ∷ []) (deliver d p)
    ends :
        {ds : List (Delivery Body)} {p : Pipe Body S}
        → Run s ds p
        → Run s ds (record p { open_channel = false })
    takes :
        {ds : List (Delivery Body)} {p : Pipe Body S} (d : Delivery Body)
        (rest : List (Delivery Body))
        → p.deliveries ≡ d ∷ rest
        → p.held ≡ none
        → Run s ds p
        → Run s ds (take_delivery d rest p)
    handles :
        {ds : List (Delivery Body)} {p : Pipe Body S} (m : ConsumerMessage Body)
        → p.held ≡ some m
        → Run s ds p
        → Run s ds (handle_message process m p)
    closes_result :
        {ds : List (Delivery Body)} {p : Pipe Body S}
        → p.open_channel ≡ false
        → p.deliveries ≡ []
        → p.held ≡ none
        → Run s ds p
        → Run s ds (close_result p)
    closes_done :
        {ds : List (Delivery Body)} {p : Pipe Body S}
        → p.result_closed ≡ true
        → Run s ds p
        → Run s ds (close_done p)

  -- The messages handled one after another.
  abbrev pub all_handled : List (Delivery Body) → S → S
  all_handled [] s = s
  all_handled (d ∷ ds) s = all_handled ds (process (get_message d) s)
