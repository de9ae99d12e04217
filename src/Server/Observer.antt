-- ===== src/Server/Observer.antt =====
-- backend/pkg/zabbix/observer.go: the goroutine that sends the metrics of the machine.
use otus_highload.Base.{
  ℕ, String, ◌≡◌, refl, ap, Bool, true, false, ◌&&◌, not, List, [], ◌∷◌, ◌++◌, map, Option, ◌==◌,
  eqb, if◌then◌else◌, arith,
}
use otus_highload.Base.Errors.{Error, Result, ok, err}

-- What `select` takes next: a tick, with what `metrics` gives and the error of sending it, or the end of
-- the context. Errors are logged.
pub data Event (Packet : Type 0) : Type 0 where
  tick : Result Packet → Option Error → Event Packet
  context_done : Event Packet

abbrev pub packets : {Packet : Type 0} → Result Packet → List Packet → List Packet
packets (err e) rest = rest
packets (ok p) rest = p ∷ rest

-- observeMetrics, on the events that it takes: the packets that it tries to send, and whether it has
-- closed done.
unfoldable pub observe_metrics : {Packet : Type 0} → List (Event Packet) → List Packet × Bool
observe_metrics [] = ([], false)
observe_metrics (context_done ∷ events) = ([], true)
observe_metrics (tick r fault ∷ events) =
    let (rest, done) = observe_metrics events in (packets r rest, done)

abbrev pub is_configured : String → ℕ → Bool
is_configured host port = not (host == "") && not (eqb port 0)

-- Start: the goroutine runs on these events if a host and a port are configured.
unfoldable pub observer_start :
    {Packet : Type 0} → String → ℕ → List (Event Packet) → List Packet × Bool
unfolding observe_metrics
observer_start host port events =
    if is_configured host port then observe_metrics events else ([], false)

-- Whether Stop returns: it waits for the context and the goroutine if there is one.
unfoldable pub observer_stop_returns : String → ℕ → Bool → Bool → Bool
observer_stop_returns host port ctx_done done =
    if is_configured host port then ctx_done && done else true

abbrev collected : {Packet : Type 0} → List (Result Packet × Option Error) → List Packet
collected [] = []
collected ((r, fault) ∷ rest) = packets r (collected rest)

observe_metrics-ticks :
    {Packet : Type 0} (ticks : List (Result Packet × Option Error)) (later : List (Event Packet))
    → observe_metrics (map (λ t. tick t.0 t.1) ticks ++ context_done ∷ later)
      ≡ (collected ticks, true)
unfolding observe_metrics
observe_metrics-ticks [] later = refl
observe_metrics-ticks ((r, fault) ∷ ticks) later =
    ap (λ s. (packets r s.0, s.1)) (observe_metrics-ticks ticks later)

-- Once the context is done Stop returns, whatever is configured and however many ticks came first, and
-- the packets that could be made were sent in order.
observer-stops :
    {Packet : Type 0} (host : String) (port : ℕ) (ticks : List (Result Packet × Option Error))
    (later : List (Event Packet))
    → let (sent, done) =
        observer_start host port (map (λ t. tick t.0 t.1) ticks ++ context_done ∷ later) in
      (observer_stop_returns host port true done ≡ true)
      × (sent ≡ (if is_configured host port then collected ticks else []))
unfolding observer_start observer_stop_returns
observer-stops host port ticks later = ground (arith, observe_metrics-ticks ticks later)
