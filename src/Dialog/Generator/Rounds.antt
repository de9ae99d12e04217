-- ===== src/Dialog/Generator/Rounds.antt =====
-- What the generator leaves behind when it has made all dialogs.
use otus_highload.Base.{ℕ, ◌≡◌, none}
use otus_highload.Dialog.Generator.{Round}

-- No statement of the batch fails for the environment.
abbrev pub IsSound : Round → Type 0
IsSound r = (j : ℕ) → r.faults.statement j ≡ none
