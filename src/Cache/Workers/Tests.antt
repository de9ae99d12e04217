-- ===== src/Cache/Workers/Tests.antt =====
-- A reader, a change, and the load for its notification.
use otus_highload.Base.{String, true, false}
use otus_highload.Cache.Workers.{
  Shared, add_value, unlock_context, take_notification, lock_context, load_func,
}
use otus_highload.Cache.Workers.Lost.{read}

abbrev read_out : Shared String
read_out = unlock_context 0 (add_value 0 false "old" (read "old" "new"))

abbrev reloaded : Shared String
reloaded = unlock_context 1 (
    add_value 1 true "new"
      (load_func 1 true (lock_context 1 true (take_notification 1 0 read_out))))
