-- ===== src/Queue/Connection.antt =====
-- backend/pkg/queue/rabbit/queue.go: the connection that publishers and consumers open their channels on.
use otus_highload.Base.{ℕ, ◌≡◌, ◌≢◌, refl, Option, none, some}
use otus_highload.Base.Errors.{Error, Result, ok, err}

-- `connection` is nil before the first Start. Connections are numbers.
pub record Queue : Type 0 where
  pub connection : Option ℕ

abbrev pub new_queue : Queue
new_queue = record { connection = none }

-- The error of a call, or the panic of a method of a connection that is nil.
pub data Called : Type 0 where
  done : Option Error → Called
  panicked : Called

-- Start, by what amqp.Dial returns: a connection, or nil and an error.
unfoldable pub queue_start : Result ℕ → Queue → Option Error × Queue
queue_start (ok connection) q = (none, record q { connection = some connection })
queue_start (err e) q = (some e, record q { connection = none })

-- Stop, and the call of Channel in the Start of a publisher or of a consumer; `fault` is the error of
-- the library.
unfoldable pub on_dialled : Option Error → Option ℕ → Called
on_dialled fault none = panicked
on_dialled fault (some connection) = done fault

unfoldable pub queue_stop : Option Error → Queue → Called
unfolding on_dialled
queue_stop fault q = on_dialled fault q.connection

unfoldable pub connection_channel : Option Error → Queue → Called
unfolding on_dialled
connection_channel fault q = on_dialled fault q.connection

-- A channel is opened without a panic just when the queue has started without an error.
connection_channel-queue_start :
    (dialled : Result ℕ) (fault : Option Error) (q : Queue)
    → ((queue_start dialled q).0 ≡ none
        → connection_channel fault (queue_start dialled q).1 ≡ done fault)
      × ((queue_start dialled q).0 ≢ none
          → connection_channel fault (queue_start dialled q).1 ≡ panicked)
unfolding queue_start connection_channel
connection_channel-queue_start (ok connection) fault q = (λ h. refl, λ h. absurd (h refl))
connection_channel-queue_start (err e) fault q = (λ h. cc, λ h. refl)
