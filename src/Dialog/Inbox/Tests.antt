-- ===== src/Dialog/Inbox/Tests.antt =====
-- ann greets bob twice under one identifier.
use otus_highload.Base.{ℕ, [], ◌∷◌, none}
use otus_highload.Dialog.Refines.{Sending}
use otus_highload.Dialog.Inbox.{Inbox, inbox_of, in_dialog, all_sent}
use otus_highload.Samples.Clock.{clock}

abbrev greeting : Sending
greeting = record {
  fault = none;
  now = 7;
  message = record {
    message = record { from = "ann"; to = "bob"; text = "hi" };
    id = "1";
    dialog_id = "annbob";
    send_time = 0;
  };
}

abbrev inbox : (ℕ → ℕ) → Inbox
inbox clock = in_dialog "annbob" (all_sent clock (greeting ∷ greeting ∷ []) (inbox_of []))
