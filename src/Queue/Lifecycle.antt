-- ===== src/Queue/Lifecycle.antt =====
-- Start and Stop of backend/pkg/queue/rabbit/consumer.go and publisher.go, and of the services whose
-- goroutines handle messages.
use otus_highload.Base.{String, Bool, false, ◌&&◌, Option, none, some}
use otus_highload.Base.Errors.{Error}

-- The calls of the AMQP library; the constant flags are left out.
pub data Operation : Type 0 where
  open_channel close_channel : Operation
  declare_queue : String → Operation
  bind_queue unbind_queue : String → String → String → Operation
  cancel : String → Operation
  declare_exchange : String → String → Operation
  consume : String → String → Operation

pub record Consumer : Type 0 where
  pub queue_name : String
  pub consumer_tag : String
  pub routing_key : String
  pub exchange_name : String

pub record Exchange : Type 0 where
  pub name : String
  pub kind : String

-- `if err != nil { return err }` before the next call.
abbrev pub if_ok : {S : Type 0} → Option Error × S → (S → Option Error × S) → Option Error × S
if_ok (some e, s) next = (some e, s)
if_ok (none, s) next = next s

-- An error that is logged and nothing else.
abbrev pub logged : {S : Type 0} → Option Error × S → S
logged (e, s) = s

-- What became of the goroutine of a service, and of its channel `done`: never started, closed at
-- once because the consumption failed, or running.
pub data Phase : Type 0 where
  idle closed running : Phase

module _ {S : Type 0} (amqp : Operation → S → Option Error × S) where
  unfoldable pub consumer_start : Consumer → S → Option Error × S
  consumer_start c s = if_ok (amqp open_channel s) (λ s₁.
      if_ok (amqp (declare_queue c.queue_name) s₁)
        (λ s₂. amqp (bind_queue c.queue_name c.routing_key c.exchange_name) s₂))

  unfoldable pub consumer_stop : Consumer → S → Option Error × S
  consumer_stop c s =
      if_ok (amqp (unbind_queue c.queue_name c.routing_key c.exchange_name) s)
        (λ s₁. if_ok (amqp (cancel c.consumer_tag) s₁) (amqp close_channel))

  unfoldable pub publisher_start : Exchange → S → Option Error × S
  publisher_start x s = if_ok (amqp open_channel s) (amqp (declare_exchange x.name x.kind))

  unfoldable pub publisher_stop : S → Option Error × S
  publisher_stop s = amqp close_channel s

  -- The phase after `processEvents`, by the answer of ReceiveData.
  abbrev pub received : Option Error × S → Option Error × Phase × S
  received (some e, s) = (some e, closed, s)
  received (none, s) = (none, running, s)

  unfoldable pub process_events : Consumer → S → Option Error × Phase × S
  process_events c s = received (amqp (consume c.queue_name c.consumer_tag) s)

  abbrev pub if_started :
      Option Error × S → (S → Option Error × Phase × S) → Option Error × Phase × S
  if_started (some e, s) next = (some e, idle, s)
  if_started (none, s) next = next s

  -- VerifierService.Start
  unfoldable pub verifier_start : Consumer → S → Option Error × Phase × S
  unfolding consumer_start process_events
  verifier_start c s = if_started (consumer_start c s) (process_events c)

  -- UserStatusService.Start
  unfoldable pub user_status_start : Consumer → S → Option Error × Phase × S
  unfolding consumer_start process_events
  user_status_start c s = if_started (consumer_start c s) (process_events c)

  -- PostFeedUpdater.Start
  unfoldable pub updater_start : Consumer → Exchange → S → Option Error × Phase × S
  unfolding consumer_start publisher_start process_events
  updater_start c x s =
      if_started (if_ok (consumer_start c s) (publisher_start x)) (process_events c)

  -- VerifierProcessorService.Start, which starts no goroutine.
  unfoldable pub processor_start : Exchange → S → Option Error × Phase × S
  unfolding publisher_start
  processor_start x s = if_started (publisher_start x s) (λ s₁. (none, idle, s₁))

  -- What Stop does to the broker before it waits.
  unfoldable pub verifier_stop : Consumer → S → S
  unfolding consumer_stop
  verifier_stop c s = logged (consumer_stop c s)

  unfoldable pub user_status_stop : Consumer → S → S
  unfolding consumer_stop
  user_status_stop c s = logged (consumer_stop c s)

  unfoldable pub updater_stop : Consumer → S → S
  unfolding consumer_stop publisher_stop
  updater_stop c s = logged (consumer_stop c (logged (publisher_stop s)))

  unfoldable pub processor_stop : S → S
  unfolding publisher_stop
  processor_stop s = logged (publisher_stop s)

-- Whether `<-ctx.Done()` and `<-s.done` both return.
unfoldable pub stop_returns : Phase → Bool → Bool → Bool
stop_returns idle ctx_done done = false
stop_returns closed ctx_done done = ctx_done
stop_returns running ctx_done done = ctx_done && done
