-- ===== src/Tracing/Request.antt =====
-- backend/pkg/http/server/tracing.go: the context of a request, and a request that one service sends to
-- another.
use otus_highload.Base.{String, ◌≡◌, ◌≢◌, ap, Option, some}
use otus_highload.Dialog.Remote.{Method, Caller, Outgoing, execute}
use otus_highload.Middleware.{path_of}
use otus_highload.Tracing.{
  Tracer, Hex, Traced, get_trace_id, get_span_id, get_request_id, get_context,
}
use otus_highload.Tracing.Hop.{start-kept, handed_on}

-- What the middleware reads of a request.
pub record Arriving (Trace Span : Type 0) : Type 0 where
  pub context : Traced Trace Span
  pub trace_id : String
  pub span_id : String
  pub request_id : String
  pub template : Option String

module _ {Trace Span : Type 0} (traces : Hex Trace) (spans : Hex Span)
    (tracer : Tracer Trace Span) where
  -- `fresh` is the identifier that combuuid gives if the request has none.
  unfoldable pub tracing_middleware :
      {Answer : Type 0} → String → (Arriving Trace Span → Answer) → Arriving Trace Span → Answer
  tracing_middleware fresh next r =
      let ctx = (get_context traces spans fresh r.context r.trace_id r.span_id r.request_id).1 in
      next (record r { context = tracer.start ctx (path_of r.template) })

  -- What a sent request is when it arrives, its headers unchanged.
  abbrev pub arriving : Outgoing → Traced Trace Span → Option String → Arriving Trace Span
  arriving o bare template = record {
    context = bare;
    trace_id = o.trace_id;
    span_id = o.span_id;
    request_id = o.request_id;
    template = template;
  }

  -- The context of `execute`, whose span has been started.
  abbrev pub caller_of : Option String → Option String → Traced Trace Span → Caller
  caller_of user token c = record {
    caller_id = user;
    token = token;
    request_id = get_request_id traces spans c;
    trace_id = get_trace_id traces spans c;
    span_id = get_span_id traces spans c;
  }

-- A handler that answers a request which another service sent by `execute` runs in a context with
-- the request and the trace of the sender, if the context of the sender has a request, a trace and a
-- span, the identifier of the request is not empty, and the tracer keeps both on the start of a span.
pub tracing_middleware-execute :
    {Trace Span : Type 0} (traces : Hex Trace) (spans : Hex Span) (tracer : Tracer Trace Span)
    (request : String) (trace : Trace) (span : Span) (fresh : String)
    (bare sender : Traced Trace Span) (user token template text : Option String) (method : Method)
    (path param : String)
    → sender ≡ record { request_id = some request; trace_id = some trace; span_id = some span }
    → request ≢ ""
    → traces.to_hex trace ≢ ""
    → let sent = execute (caller_of traces spans tracer user token sender) method path param text in
      let seen =
        tracing_middleware traces spans tracer fresh
          (λ r. r.context)
          (arriving traces spans tracer sent bare template) in
      (seen.request_id ≡ some request) × (seen.trace_id ≡ some trace)
unfolding execute tracing_middleware get_trace_id get_span_id get_request_id
tracing_middleware-execute traces spans tracer request trace span fresh bare sender user token
      template text method path param made named traced =
    rw made (
      start-kept tracer (path_of template) request trace span _
        (ap (λ a. a.1) (handed_on traces spans request trace span fresh bare named traced)))
