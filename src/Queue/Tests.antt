-- ===== src/Queue/Tests.antt =====
-- Two messages that are kept in the order of their handling.
use otus_highload.Base.{ℕ, suc, ◌≡◌, refl, true, false, List, [], ◌∷◌, ◌++◌, Option, none, some}
use otus_highload.Base.Errors.{Error}
use otus_highload.Queue.{
  text, no_text, trace_id_header, span_id_header, request_id_header, Delivery, ConsumerMessage,
  get_message, publishing,
}
use otus_highload.Queue.Worker.{
  Pipe, Run, starts, delivers, ends, takes, handles, closes_result, closes_done, all_handled,
}
use otus_highload.Queue.Draining.{done-all_handled}
use otus_highload.Queue.Lifecycle.{Operation, Consumer, Exchange, processor_start, stop_returns}
use otus_highload.Queue.Stopping.{updater, start, start-stops}

abbrev sent : ℕ → Delivery ℕ
sent n = record { body = n; headers = [] }

abbrev remember : ConsumerMessage ℕ → List ℕ → List ℕ
remember m seen = seen ++ m.body ∷ []

-- The second message is delivered while the first one is being sent.
abbrev two_delivered : List (Delivery ℕ)
two_delivered = sent 1 ∷ sent 2 ∷ []

abbrev waiting : Pipe ℕ (List ℕ)
waiting = record {
  deliveries = sent 2 ∷ [];
  open_channel = false;
  held = some (get_message (sent 1));
  result_closed = false;
  done = false;
  state = [];
}

Run-waiting : Run remember [] two_delivered waiting
Run-waiting =
    ends (delivers (sent 2) refl (takes (sent 1) [] refl refl (delivers (sent 1) refl starts)))

abbrev ended : Pipe ℕ (List ℕ)
ended = record {
  deliveries = [];
  open_channel = false;
  held = none;
  result_closed = true;
  done = true;
  state = 1 ∷ 2 ∷ [];
}

Run-ended : Run remember [] two_delivered ended
unfolding get_message
Run-ended = closes_done refl (
    closes_result refl refl refl (
      handles (get_message (sent 2)) refl
        (takes (sent 2) [] refl refl (handles (get_message (sent 1)) refl Run-waiting))))

done-all_handled_example : ended.state ≡ all_handled remember two_delivered []
done-all_handled_example = done-all_handled remember Run-ended refl

-- A broker that answers every call and counts it.
abbrev counting : Operation → ℕ → Option Error × ℕ
counting operation n = (none, suc n)

abbrev consumer : Consumer
consumer = record {
  queue_name = "feed";
  consumer_tag = "feed-1";
  routing_key = "feed";
  exchange_name = "otus";
}

abbrev exchange : Exchange
exchange = record { name = "otus"; kind = "direct" }

start-stops_example :
    (q : Pipe ℕ (List ℕ)) × Run remember [] two_delivered q
    × (stop_returns (start counting updater consumer exchange 0).1 true q.done ≡ true)
    × (q.state ≡ all_handled remember two_delivered [])
unfolding otus_highload.Queue.Lifecycle.updater_start
start-stops_example =
    start-stops counting remember updater consumer exchange 0 [] two_delivered waiting refl refl
      Run-waiting
