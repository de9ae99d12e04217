-- ===== src/Tracing.antt =====
-- backend/pkg/tracing: the identifiers of a request, and how a message of the queue hands them on.
pub mod Hop
pub mod Request
mod Tests
use Prim.Native.String as Text
use otus_highload.Base.{String, ◌≡◌, Option, none, some, ◌==◌, if◌then◌else◌}
use otus_highload.Base.Errors.{Error, Result, ok, err}
use otus_highload.Queue.{ConsumerMessage, Delivery, publishing}

-- What the code uses of the identifiers of opentelemetry: a valid identifier is written in
-- hexadecimal, not as the empty text, and read back.
pub record Hex (Name : Type 0) : Type 0 where
  pub to_hex : Name → String
  pub from_hex : String → Result Name
  pub round : (i : Name) → from_hex (to_hex i) ≡ ok i

-- The values that a context holds: the identifier of the request, and the valid identifiers of its
-- span context.
pub record Traced (Trace Span : Type 0) : Type 0 where
  pub request_id : Option String
  pub trace_id : Option Trace
  pub span_id : Option Span

-- What opentelemetry does on the start of a span: the values of the context and the identifier of
-- the trace stay.
pub record Tracer (Trace Span : Type 0) : Type 0 where
  pub start : Traced Trace Span → String → Traced Trace Span
  pub same_request :
      (c : Traced Trace Span) (name : String) → (start c name).request_id ≡ c.request_id
  pub same_trace :
      (c : Traced Trace Span) (name : String) (t : Trace)
      → c.trace_id ≡ some t
      → (start c name).trace_id ≡ some t

abbrev pub hex_or_empty : {Name : Type 0} → Hex Name → Option Name → String
hex_or_empty hex none = ""
hex_or_empty hex (some i) = hex.to_hex i

abbrev pub id_or_empty : Option String → String
id_or_empty none = ""
id_or_empty (some id) = id

module _ {Trace Span : Type 0} (traces : Hex Trace) (spans : Hex Span) where
  unfoldable pub get_trace_id : Traced Trace Span → String
  get_trace_id c = hex_or_empty traces c.trace_id

  unfoldable pub get_span_id : Traced Trace Span → String
  get_span_id c = hex_or_empty spans c.span_id

  unfoldable pub get_request_id : Traced Trace Span → String
  get_request_id c = id_or_empty c.request_id

  unfoldable pub with_trace_id : Traced Trace Span → Trace → Traced Trace Span
  with_trace_id c t = record c { trace_id = some t; span_id = none }

  unfoldable pub with_trace_and_span : Traced Trace Span → Trace → Span → Traced Trace Span
  with_trace_and_span c t s = record c { trace_id = some t; span_id = some s }

  unfoldable pub with_span :
      Traced Trace Span → Trace → Result Span → Option Error × Traced Trace Span
  unfolding with_trace_id with_trace_and_span
  with_span c t (err e) = (some e, with_trace_id c t)
  with_span c t (ok s) = (none, with_trace_and_span c t s)

  unfoldable pub with_trace :
      Traced Trace Span → Result Trace → String → Option Error × Traced Trace Span
  unfolding with_span
  with_trace c (err e) span = (some e, c)
  with_trace c (ok t) span = with_span c t (spans.from_hex span)

  -- GetContext; `fresh` is the identifier that combuuid gives if none was handed on.
  unfoldable pub get_context :
      String → Traced Trace Span → String → String → String → Option Error × Traced Trace Span
  unfolding with_trace
  get_context fresh c trace span request =
      let named = record c { request_id = some (if request == "" then fresh else request) } in
      let traced = with_trace named (traces.from_hex trace) span in
      if trace == "" then (none, named) else traced

  -- GetContext of backend/pkg/queue/types.go, which logs the error.
  unfoldable pub message_context :
      {Body : Type 0} → String → Traced Trace Span → ConsumerMessage Body → Traced Trace Span
  unfolding get_context
  message_context fresh c m = (get_context fresh c m.trace_id m.span_id m.request_id).1

  -- SendData: the message is sent under a span of its own.
  unfoldable pub send_data :
      {Body : Type 0} → Tracer Trace Span → Traced Trace Span → String → Body → Delivery Body
  unfolding get_trace_id get_span_id get_request_id
  send_data tracer c routing_key body =
      let span = tracer.start c (Text.◌++◌ "publish queue " routing_key) in
      publishing (get_trace_id span) (get_span_id span) (get_request_id span) body
