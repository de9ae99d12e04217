-- ===== src/Queue/Stopping.antt =====
-- Whether Stop returns, by what Start did.
use otus_highload.Base.{◌≡◌, refl, Bool, true, false, List, Option, none, some}
use otus_highload.Base.Errors.{Error}
use otus_highload.Queue.{Delivery, ConsumerMessage}
use otus_highload.Queue.Worker.{Pipe, Run, all_handled}
use otus_highload.Queue.Draining.{shut-Ends}
use otus_highload.Queue.Lifecycle.{
  Operation, Consumer, Exchange, Phase, idle, running, received, if_started, publisher_start,
  process_events, verifier_start, user_status_start, updater_start, processor_start, stop_returns,
}

-- The three services that handle messages.
pub data Service : Type 0 where
  verifier user_status updater : Service

module _ {T : Type 0} (amqp : Operation → T → Option Error × T) where
  abbrev pub start : Service → Consumer → Exchange → T → Option Error × Phase × T
  start verifier c x t = verifier_start amqp c t
  start user_status c x t = user_status_start amqp c t
  start updater c x t = updater_start amqp c x t

  received-running :
      (r : Option Error × T) → (received amqp r).0 ≡ none → (received amqp r).1 ≡ running
  received-running (some e, t) h = cc
  received-running (none, t) h = refl

  if_started-running :
      (r : Option Error × T) (c : Consumer)
      → (if_started amqp r (process_events amqp c)).0 ≡ none
      → (if_started amqp r (process_events amqp c)).1 ≡ running
  unfolding process_events
  if_started-running (some e, t) c h = cc
  if_started-running (none, t) c h = received-running _ h

  start-running :
      (service : Service) (c : Consumer) (x : Exchange) (t : T)
      → (start service c x t).0 ≡ none
      → (start service c x t).1 ≡ running
  unfolding verifier_start user_status_start updater_start
  start-running verifier c x t h = if_started-running _ c h
  start-running user_status c x t h = if_started-running _ c h
  start-running updater c x t h = if_started-running _ c h

  -- After a Start of the verifier, the user status service or the feed updater that gave no error,
  -- once the broker's channel has ended and the context is done, the goroutines can go on until Stop
  -- returns, and then every delivered message was handled, once and in the order of delivery.
  pub start-stops :
      {Body S : Type 0} (process : ConsumerMessage Body → S → S) (service : Service) (c : Consumer)
      (x : Exchange) (t : T) (s : S) (ds : List (Delivery Body)) (p : Pipe Body S)
      → (start service c x t).0 ≡ none
      → p.open_channel ≡ false
      → Run process s ds p
      → (q : Pipe Body S) × Run process s ds q
        × (stop_returns (start service c x t).1 true q.done ≡ true)
        × (q.state ≡ all_handled process ds s)
  unfolding stop_returns
  start-stops process service c x t s ds p h shut r =
      let (q, run, done, all) = shut-Ends process shut r in
      (q, run, rw (start-running service c x t h, done) refl, all)

  publisher_only : (r : Option Error × T) → (if_started amqp r (λ t. (none, idle, t))).1 ≡ idle
  publisher_only (some e, t) = refl
  publisher_only (none, t) = refl

  -- Stop of the verifier's processor never returns, whatever Start did and whether or not the context
  -- is done.
  pub processor-never_stops :
      (x : Exchange) (t : T) (ctx_done done : Bool)
      → stop_returns (processor_start amqp x t).1 ctx_done done ≡ false
  unfolding processor_start stop_returns
  processor-never_stops x t ctx_done done = rw (publisher_only (publisher_start amqp x t)) refl
