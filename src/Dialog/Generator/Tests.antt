-- ===== src/Dialog/Generator/Tests.antt =====
-- One dialog between ann and bob.
use otus_highload.Base.{[], ◌∷◌, none}
use otus_highload.Base.Errors.{ok}
use otus_highload.Dialog.Generator.{Texts, Stores, Round}
use otus_highload.Samples.Clock.{ticks}

abbrev numbered : Texts
numbered = record { message_id = ticks; content = ticks }

abbrev round : Round
round = record {
  users = ok ("bob" ∷ "ann" ∷ []);
  faults = record { statement = λ i. none; call = none; line = none };
  now = 7;
  texts = λ dialog. numbered;
}

abbrev nothing : Stores
nothing = record { rows = []; space = []; lines = [] }
