-- ===== src/Dialog/Relay.antt =====
-- A dialog through both services.
use otus_highload.Base.{
  ℕ, String, ◌≡◌, ◌≢◌, refl, sym, ap, subst, ◌∙◌, inl, inr, true, false, List, [], Option, none,
  some, Bool-cases, eq_iff, ◌==◌, if◌then◌else◌, arith,
}
use otus_highload.Base.Errors.{Error, Result, ok, err, other}
use otus_highload.Storage.{Rows}
use otus_highload.Auth.{Jwt}
use otus_highload.Auth.Jws.{value}
use otus_highload.Auth.Authenticator.{Context, security_scheme, authenticate}
use otus_highload.Auth.Session.{authenticate_token}
use otus_highload.Dialog.{
  DialogMessage, DialogMessageExtended, get_dialog_user_id_list, post_dialog_user_id_send,
}
use otus_highload.Dialog.Remote.{
  get, post, Outgoing, Incoming, authenticated, Transport, request_error, execute, message_created,
  messages_got, create_message_url, get_messages_url, remote_create_message,
  remote_get_messages_between, list_response, send_response, social_dialog_user_id_list,
  social_dialog_user_id_send,
}
use otus_highload.Http.{
  Response, success, bad_request, unauthorized, not_found, internal_error, panicked, get_user_id,
}

-- How an answer of the other service arrives; a panic closes the connection, and `fallback` is what
-- the template holds if there is no body to decode.
abbrev pub arrived : {A : Type 0} → A → Response A → Result (Incoming A)
arrived fallback (success a) =
    ok (record { status = 200; is_error = false; body = ""; decoded = a })
arrived fallback bad_request =
    ok (record { status = 400; is_error = true; body = ""; decoded = fallback })
arrived fallback unauthorized =
    ok (record { status = 401; is_error = true; body = ""; decoded = fallback })
arrived fallback not_found =
    ok (record { status = 404; is_error = true; body = ""; decoded = fallback })
arrived fallback (internal_error e) =
    ok (record { status = 500; is_error = true; body = ""; decoded = fallback })
arrived fallback panicked = err (other "EOF")

-- What the caller of the social service is told: the value, or status 500.
abbrev pub relayed : {A : Type 0} → Response A → Response A
relayed (success a) = success a
relayed panicked = internal_error (some (other "EOF"))
relayed _ = internal_error (some request_error)

known_user : (id : String) → id ≢ "" → get_user_id (some id) ≡ ok id
unfolding get_user_id
known_user id h = ground (arith, h, eq_iff id "")

send-relayed :
    (r : Response (Unit {0})) → send_response (message_created (arrived tt r)) ≡ relayed r
unfolding message_created otus_highload.Base.Errors.errors_is
send-relayed (success tt) = refl
send-relayed bad_request = refl
send-relayed unauthorized = refl
send-relayed not_found = refl
send-relayed (internal_error e) = refl
send-relayed panicked = refl

list-relayed :
    (fallback : List DialogMessage) (r : Response (List DialogMessage))
    → list_response (messages_got (arrived fallback r)) ≡ relayed r
unfolding messages_got
list-relayed fallback (success a) = refl
list-relayed fallback bad_request = refl
list-relayed fallback unauthorized = refl
list-relayed fallback not_found = refl
list-relayed fallback (internal_error e) = refl
list-relayed fallback panicked = refl

module _ {Token : Type 0} (jwt : Jwt Token) (hash : String → String) (fault : Option Error)
    (answer : Rows) (transport : Transport (List DialogMessageExtended)) where
  -- A request to send a message that reaches the service of dialogs is authenticated there, and its
  -- handler answers.
  abbrev pub DeliversSend : String → ℕ → Type 0
  DeliversSend id now =
      (out : Outgoing) (c : Context) (text : String) (rows : List DialogMessageExtended)
      → out.method ≡ post
      → out.path ≡ create_message_url
      → out.text ≡ some text
      → authenticate jwt out.authorization [] security_scheme ≡ value c
      → transport.send out rows ≡ (
        arrived tt
            (post_dialog_user_id_send hash fault id now (some c.user_id) out.user_id text rows).0,
        (post_dialog_user_id_send hash fault id now (some c.user_id) out.user_id text rows).1,
      )

  abbrev pub DeliversFetch : List DialogMessage → Type 0
  DeliversFetch fallback =
      (out : Outgoing) (c : Context) (rows : List DialogMessageExtended)
      → out.method ≡ get
      → out.path ≡ get_messages_url
      → authenticate jwt out.authorization [] security_scheme ≡ value c
      → transport.fetch out rows ≡ (
        arrived fallback (get_dialog_user_id_list hash answer (some c.user_id) out.user_id rows).0,
        (get_dialog_user_id_list hash answer (some c.user_id) out.user_id rows).1,
      )

  module _ (header : String) (c : Context) (request trace span : String)
      (valid : authenticate jwt header [] security_scheme ≡ value c) (named : c.user_id ≢ "") where
    -- A request to send a message that the social service authenticated does to the messages what
    -- the handler of the service of dialogs does for the same user, and is answered with success
    -- where that handler answers so, and with status 500 otherwise, if requests between the two
    -- services are delivered, both read tokens alike, and the user's identifier is not empty.
    pub send-relays :
        (id : String) (now : ℕ) (to text : String) (rows : List DialogMessageExtended)
        → DeliversSend id now
        → social_dialog_user_id_send transport (authenticated c request trace span) to text rows ≡ (
          relayed (post_dialog_user_id_send hash fault id now (some c.user_id) to text rows).0,
          (post_dialog_user_id_send hash fault id now (some c.user_id) to text rows).1,
        )
    unfolding social_dialog_user_id_send remote_create_message execute
    send-relays id now to text rows delivers =
        let out =
          execute (authenticated c request trace span) post create_message_url to (some text) in
        let same : authenticate jwt out.authorization [] security_scheme ≡ value c =
          subst (λ h. authenticate jwt h [] security_scheme ≡ value c)
            (sym (authenticate_token jwt header [] c valid)) valid in
        rw (known_user c.user_id named) (
          rw (delivers out c text rows refl refl refl same) (
            ap
              (λ r.
                (r, (post_dialog_user_id_send hash fault id now (some c.user_id) to text rows).1))
              (send-relayed
                (post_dialog_user_id_send hash fault id now (some c.user_id) to text rows).0)))

    -- A request to read a dialog that the social service authenticated is answered with the messages
    -- that the handler of the service of dialogs answers to the same user, and with status 500 where
    -- that handler answers anything else, if requests between the two services are delivered, both
    -- read tokens alike, and the user's identifier is not empty.
    pub list-relays :
        (second : String) (fallback : List DialogMessage) (rows : List DialogMessageExtended)
        → DeliversFetch fallback
        → social_dialog_user_id_list transport (authenticated c request trace span) second rows ≡ (
          relayed (get_dialog_user_id_list hash answer (some c.user_id) second rows).0,
          (get_dialog_user_id_list hash answer (some c.user_id) second rows).1,
        )
    unfolding social_dialog_user_id_list remote_get_messages_between execute
    list-relays second fallback rows delivers =
        let out = execute (authenticated c request trace span) get get_messages_url second none in
        let same : authenticate jwt out.authorization [] security_scheme ≡ value c =
          subst (λ h. authenticate jwt h [] security_scheme ≡ value c)
            (sym (authenticate_token jwt header [] c valid)) valid in
        rw (known_user c.user_id named) (
          rw (delivers out c rows refl refl same) (
            ap (λ r. (r, (get_dialog_user_id_list hash answer (some c.user_id) second rows).1))
              (list-relayed fallback
                (get_dialog_user_id_list hash answer (some c.user_id) second rows).0)))
