-- ===== src/Cache/Workers/Lost.antt =====
-- What happens to a key when the mutex is lost while it is held, as FLUSHDB of InvalidateAll does it.
use otus_highload.Base.{true, false, none}
use otus_highload.Cache.Workers.{
  idle, locking, Shared, stands, change, send, take_notification, lock_context, load_func,
  add_value, unlock_context,
}

module _ {V : Type 0} where
  abbrev pub untouched : V → Shared V
  untouched old = record {
    answer = old;
    unsent = 0;
    queue = 0;
    value = none;
    mutex = none;
    places = λ i. idle;
  }

  -- A reader has queried; the table changes and the notification is sent.
  abbrev pub read : V → V → Shared V
  read old new = send 0 (
      change new
        (load_func 0 false (lock_context 0 false (stands 0 (locking false) (untouched old)))))

  abbrev pub flushed : V → V → Shared V
  flushed old new = record (read old new) { value = none; mutex = none }

  -- The updater loads the key while the reader has not written yet.
  abbrev pub updated : V → V → Shared V
  updated old new = unlock_context 1 (
      add_value 1 true new
        (load_func 1 true (lock_context 1 true (take_notification 1 0 (flushed old new)))))

  abbrev pub overwritten : V → V → Shared V
  overwritten old new = unlock_context 0 (add_value 0 false old (updated old new))
