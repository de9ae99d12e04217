-- ===== src/Tracing/Hop.antt =====
-- A request that goes on through the queue.
use otus_highload.Base.{
  String, ◌≡◌, ◌≢◌, refl, ap, ◌∙◌, true, false, none, some, ◌==◌, All, inl, inr, Bool-cases, eq_iff,
}
use otus_highload.Queue.{Delivery, get_message}
use otus_highload.Queue.Headers.{distinct, Holds, get_message-publishing}
use Prim.Native.String as Text
use otus_highload.Tracing.{
  Tracer, send_data, Hex, Traced, get_trace_id, get_span_id, get_request_id, get_context,
  message_context, with_span, with_trace, with_trace_and_span,
}

other_text : (s t : String) → s ≢ t → (s == t) ≡ false
other_text s t h = elim (Bool-cases (s == t)) [
  | inl same ↦ absurd (h ((eq_iff s t).0 same))
  | inr apart ↦ apart
]

pub handed_on :
    {Trace Span : Type 0} (traces : Hex Trace) (spans : Hex Span) (request : String) (trace : Trace)
    (span : Span) (fresh : String) (bare : Traced Trace Span)
    → request ≢ ""
    → traces.to_hex trace ≢ ""
    → get_context traces spans fresh bare (traces.to_hex trace) (spans.to_hex span) request
      ≡ (none, record { request_id = some request; trace_id = some trace; span_id = some span })
unfolding get_context with_trace with_span with_trace_and_span
handed_on traces spans request trace span fresh bare named traced =
    rw
      (
        other_text request "" named,
        other_text (traces.to_hex trace) "" traced,
        traces.round trace,
        spans.round span,
      )
      refl

pub start-kept :
    {Trace Span : Type 0} (tracer : Tracer Trace Span) (name request : String) (trace : Trace)
    (span : Span) (c : Traced Trace Span)
    → c ≡ record { request_id = some request; trace_id = some trace; span_id = some span }
    → ((tracer.start c name).request_id ≡ some request)
      × ((tracer.start c name).trace_id ≡ some trace)
start-kept tracer name request trace span c e = (
  tracer.same_request c name ∙ ap (λ x. x.request_id) e,
  tracer.same_trace c name trace (ap (λ x. x.trace_id) e),
)

-- The context that a consumer makes of a message, in whatever order its headers are met, has the
-- request and the trace of the context that the message was sent in and the span that SendData started
-- for it, if that context has a request and a trace, the started span is valid, the tracer keeps the
-- request and the trace, the identifier of the request is not empty, no header is there twice, and a
-- hexadecimal identifier is not empty and is read back.
pub message_context-send_data :
    {Trace Span Body : Type 0} (traces : Hex Trace) (spans : Hex Span) (tracer : Tracer Trace Span)
    (request : String) (trace : Trace) (span published : Span) (fresh routing_key : String)
    (bare sender : Traced Trace Span) (body : Body) (d : Delivery Body)
    → sender ≡ record { request_id = some request; trace_id = some trace; span_id = some span }
    → (tracer.start sender (Text.◌++◌ "publish queue " routing_key)).span_id ≡ some published
    → request ≢ ""
    → traces.to_hex trace ≢ ""
    → d.body ≡ body
    → distinct d.headers ≡ true
    → All (Holds d.headers) (send_data traces spans tracer sender routing_key body).headers
    → message_context traces spans fresh bare (get_message d)
      ≡ record { request_id = some request; trace_id = some trace; span_id = some published }
unfolding message_context get_context get_trace_id get_span_id get_request_id send_data
message_context-send_data traces spans tracer request trace span published fresh routing_key bare
      sender body d made started named traced same keys holds =
    let c = tracer.start sender (Text.◌++◌ "publish queue " routing_key) in
    let read =
      get_message-publishing (get_trace_id traces spans c) (get_span_id traces spans c)
        (get_request_id traces spans c) body d same keys holds in
    let (r, t) =
      start-kept tracer (Text.◌++◌ "publish queue " routing_key) request trace span sender made in
    ap (λ m. message_context traces spans fresh bare m) read
    ∙ rw (r, t, started)
        (ap (λ r. r.1) (handed_on traces spans request trace published fresh bare named traced))
