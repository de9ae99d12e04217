-- ===== src/Dialog/Delivery.antt =====
-- A message that was sent is read by both sides.
use otus_highload.Base.{Bool, false, List, any}
use otus_highload.Base.Errors.{Result, ok, err}
use otus_highload.Dialog.{DialogMessageExtended}

-- The messages that a query answers, if any pass the test.
abbrev pub some_message :
    (DialogMessageExtended → Bool) → Result (List DialogMessageExtended) → Bool
some_message P (ok ms) = any P ms
some_message P (err e) = false
