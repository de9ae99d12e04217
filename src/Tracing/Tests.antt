-- ===== src/Tracing/Tests.antt =====
-- Identifiers that are their own text.
use otus_highload.Base.{String, ◌≡◌, refl, [], ◌∷◌, none, some}
use otus_highload.Base.Errors.{ok}
use otus_highload.Auth.Results.{apart}
use otus_highload.Queue.{
  text, no_text, trace_id_header, span_id_header, request_id_header, Delivery, get_message,
}
use otus_highload.Tracing.{Tracer, Hex, Traced, message_context, send_data}
use otus_highload.Dialog.Remote.{execute, get}
use otus_highload.Tracing.Request.{
  arriving, caller_of, tracing_middleware, tracing_middleware-execute,
}
use otus_highload.Tracing.Hop.{message_context-send_data}

abbrev plain : Hex String
plain = record { to_hex = λ s. s; from_hex = λ s. ok s; round = λ s. refl }

abbrev bare : Traced String String
bare = record { request_id = none; trace_id = none; span_id = none }

abbrev sender : Traced String String
sender = record { request_id = some "r"; trace_id = some "t"; span_id = some "s" }

-- The headers in another order, with one more key.
abbrev arrived : Delivery String
arrived = record {
  body = "hi";
  headers =
      (request_id_header, text "r")
      ∷ ("priority", no_text)
      ∷ (trace_id_header, text "t")
      ∷ (span_id_header, text "publish queue feed")
      ∷ [];
}

-- A tracer that names a new span after the route.
abbrev by_route : Tracer String String
by_route = record {
  start = λ c name. record c { span_id = some name };
  same_request = λ c name. refl;
  same_trace = λ c name t e. e;
}

message_context-send_data_example :
    message_context plain plain "new" bare (get_message arrived)
    ≡ record { request_id = some "r"; trace_id = some "t"; span_id = some "publish queue feed" }
unfolding otus_highload.Queue.publishing send_data otus_highload.Tracing.get_trace_id
    otus_highload.Tracing.get_span_id otus_highload.Tracing.get_request_id
message_context-send_data_example =
    message_context-send_data plain plain by_route "r" "t" "s" "publish queue feed" "new" "feed"
      bare sender "hi" arrived refl refl (apart refl) (apart refl) refl refl
      (refl, (refl, (refl, tt)))

tracing_middleware-execute_example :
    ((tracing_middleware plain plain by_route "new"
        (λ r. r.context)
        (arriving plain plain by_route
          (execute
            (caller_of plain plain by_route (some "ann") (some "jws") sender)
            get
            "/list"
            "bob"
            none)
          bare
          (some "/dialog/{user_id}/list"))).request_id
      ≡ some "r")
    × ((tracing_middleware plain plain by_route "new"
          (λ r. r.context)
          (arriving plain plain by_route
            (execute
              (caller_of plain plain by_route (some "ann") (some "jws") sender)
              get
              "/list"
              "bob"
              none)
            bare
            (some "/dialog/{user_id}/list"))).trace_id
        ≡ some "t")
tracing_middleware-execute_example =
    tracing_middleware-execute plain plain by_route "r" "t" "s" "new" bare sender (some "ann")
      (some "jws") (some "/dialog/{user_id}/list") none get "/list" "bob" refl (apart refl)
      (apart refl)
