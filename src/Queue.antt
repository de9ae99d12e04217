-- ===== src/Queue.antt =====
-- backend/pkg/queue: messages with their headers, and the adapter of RabbitMQ.
mod Connection
pub mod Headers
pub mod Worker
pub mod Draining
pub mod Lifecycle
pub mod Stopping
mod Tests
use otus_highload.Base.{String, List, [], ◌∷◌, ◌==◌, if◌then◌else◌}

-- A value in a header table: a text or anything else.
pub data Value : Type 0 where
  text : String → Value
  no_text : Value

abbrev pub trace_id_header : String
trace_id_header = "trace-id"

abbrev pub span_id_header : String
span_id_header = "span-id"

abbrev pub request_id_header : String
request_id_header = "x-request-id"

-- amqp.Publishing and amqp.Delivery, as far as the code reads them; the table is listed in the order
-- in which a loop over it meets its keys.
pub record Delivery (Body : Type 0) : Type 0 where
  pub body : Body
  pub headers : List (String × Value)

pub record ConsumerMessage (Body : Type 0) : Type 0 where
  pub body : Body
  pub trace_id : String
  pub span_id : String
  pub request_id : String

abbrev pub text_or_empty : Value → String
text_or_empty (text s) = s
text_or_empty no_text = ""

-- The loop returns at the first key that fits.
unfoldable pub get_header : List (String × Value) → String → String
get_header [] name = ""
get_header ((key, v) ∷ rest) name =
    let later = get_header rest name in if key == name then text_or_empty v else later

unfoldable pub get_message : {Body : Type 0} → Delivery Body → ConsumerMessage Body
unfolding get_header
get_message d = record {
  body = d.body;
  trace_id = get_header d.headers trace_id_header;
  span_id = get_header d.headers span_id_header;
  request_id = get_header d.headers request_id_header;
}

-- What SendData hands to the channel, from the three identifiers of its context.
unfoldable pub publishing : {Body : Type 0} → String → String → String → Body → Delivery Body
publishing trace span request body = record {
  body = body;
  headers =
      (trace_id_header, text trace)
      ∷ (span_id_header, text span)
      ∷ (request_id_header, text request)
      ∷ [];
}
