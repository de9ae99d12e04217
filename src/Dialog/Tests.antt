-- ===== src/Dialog/Tests.antt =====
-- ann writes to bob.
use Prim.Native.String as Text
use otus_highload.Base.{String, ◌≡◌, refl, List, [], ◌∷◌, Option, none, some}
use otus_highload.Dialog.Refines.{Sending}
use otus_highload.Base.Errors.{Result, err, other}
use otus_highload.Auth.Jws.{Extracted, value, failed, panicked}
use otus_highload.Auth.Authenticator.{Context, prefix, security_scheme, authenticate}
use otus_highload.Auth.Results.{apart}
use otus_highload.Http.{success, get_user_id}
use otus_highload.Dialog.Remote.{
  Outgoing, Incoming, Transport, authenticated, social_dialog_user_id_list,
  social_dialog_user_id_send,
}
use otus_highload.Dialog.Relay.{arrived, DeliversSend, DeliversFetch, send-relays, list-relays}
use otus_highload.Samples.Tokens.{token_jwt}
use otus_highload.Storage.{whole}
use otus_highload.Dialog.{
  DialogMessage, get_dialog_user_id_list, post_dialog_user_id_send, DialogMessageExtended,
  create_message, get_messages_between,
}

-- Any function of texts stands for the hash.
abbrev hash : String → String
hash text = text

abbrev greeting : DialogMessageExtended
greeting = record {
  message = record { from = "ann"; to = "bob"; text = "hi" };
  id = "1";
  dialog_id = "annbob";
  send_time = 7;
}

abbrev text_or_empty : Option String → String
text_or_empty none = ""
text_or_empty (some text) = text

abbrev handle_send :
    Outgoing
    → Extracted Context
    → List DialogMessageExtended
    → Result (Incoming (Unit {0})) × List DialogMessageExtended
handle_send out (value c) rows = (
  arrived tt
      (post_dialog_user_id_send hash none "1" 7 (some c.user_id) out.user_id
        (text_or_empty out.text) rows).0,
  (post_dialog_user_id_send hash none "1" 7 (some c.user_id) out.user_id (text_or_empty out.text)
      rows).1,
)
handle_send out (failed e) rows = (err e, rows)
handle_send out panicked rows = (err (other "EOF"), rows)

abbrev handle_fetch :
    Outgoing
    → Extracted Context
    → List DialogMessageExtended
    → Result (Incoming (List DialogMessage)) × List DialogMessageExtended
handle_fetch out (value c) rows = (
  arrived [] (get_dialog_user_id_list hash whole (some c.user_id) out.user_id rows).0,
  (get_dialog_user_id_list hash whole (some c.user_id) out.user_id rows).1,
)
handle_fetch out (failed e) rows = (err e, rows)
handle_fetch out panicked rows = (err (other "EOF"), rows)

-- The service of dialogs behind the client of the social one.
abbrev wire : Transport (List DialogMessageExtended)
wire = record {
  send = λ out rows.
      handle_send out (authenticate token_jwt out.authorization [] security_scheme) rows;
  fetch = λ out rows.
      handle_fetch out (authenticate token_jwt out.authorization [] security_scheme) rows;
}

abbrev ann_header : String
ann_header = Text.◌++◌ prefix "ann"

abbrev ann_context : Context
ann_context = record { user_id = "ann"; token = ann_header }

wire-sends : DeliversSend token_jwt hash none whole wire "1" 7
wire-sends out c text rows method path given valid = rw (valid, given) refl

wire-fetches : DeliversFetch token_jwt hash none whole wire []
wire-fetches out c rows method path valid = rw valid refl

ann_valid : authenticate token_jwt ann_header [] security_scheme ≡ value ann_context
unfolding authenticate otus_highload.Auth.Authenticator.get_jws_from_request
    otus_highload.Auth.Jws.validate_jws otus_highload.Auth.Jws.check_token_claims
    otus_highload.Auth.Jws.extract_user_id
ann_valid = refl

send-relays_example :
    social_dialog_user_id_send wire (authenticated ann_context "r" "t" "s") "bob" "hi" []
    ≡ (success tt, greeting ∷ [])
unfolding post_dialog_user_id_send get_user_id create_message
send-relays_example =
    send-relays token_jwt hash none whole wire ann_header ann_context "r" "t" "s" ann_valid
      (apart refl) "1" 7 "bob" "hi" [] wire-sends

list-relays_example :
    social_dialog_user_id_list wire (authenticated ann_context "r" "t" "s") "bob" (greeting ∷ [])
    ≡ (success (greeting.message ∷ []), greeting ∷ [])
unfolding get_dialog_user_id_list get_user_id get_messages_between
list-relays_example =
    list-relays token_jwt hash none whole wire ann_header ann_context "r" "t" "s" ann_valid
      (apart refl) "bob" [] (greeting ∷ []) wire-fetches

abbrev asked : Sending
asked = record { fault = none; now = 7; message = greeting }
