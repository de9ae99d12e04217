-- ===== src/Http/Tests.antt =====
-- The handlers at the sample tables.
use otus_highload.Base.{String, ◌≡◌, ◌≢◌, ◌⊎◌, refl, inl, true, [], ◌∷◌, none, some}
use otus_highload.Base.Int.{pos}
use otus_highload.Base.Errors.{Result, ok, other}
use otus_highload.Storage.{UserRow}
use otus_highload.Storage.Users.{find_user}
use otus_highload.Service.Friends.{Faults}
use otus_highload.Http.{success, panicked}
use otus_highload.Http.Posts.{get_post_feed}
use otus_highload.Http.Requests.{sets_friend, serve}
use otus_highload.Http.Answers.{serve-atomic, post_login-success}
use otus_highload.Http.Window.{get_post_feed-answers}
use otus_highload.Auth.Authenticator.{Context}
use otus_highload.Auth.Jws.{value}
use otus_highload.Feed.Subscriber.{Hub}
use otus_highload.Http.Socket.{
  update, close, connection_done, received, served, Course, post_feed_socket,
}
use otus_highload.Http.Connection.{subscription, post_feed_socket-ends}
use otus_highload.Samples.Formats.{feed_json}
use otus_highload.Samples.Tables.{strangers, updater, reads, app_of}

abbrev down : Faults
down = record { storage = some (other "down"); broker = none }

serve-atomic_example :
    ((serve feed_json down (some "ann") (sets_friend "bob") (app_of strangers)).0 ≡ 200)
    ⊎ ((serve feed_json down (some "ann") (sets_friend "bob") (app_of strangers)).1
        ≡ app_of strangers)
serve-atomic_example =
    serve-atomic feed_json down refl (some "ann") (sets_friend "bob") (app_of strangers)

abbrev signed : String
signed = "token"

abbrev jws : String → Result String
jws user = ok "token"

post_login-success_example :
    (user : String) × (row : UserRow) × (given : String) × (some "ann" ≡ some user)
    × (find_user user strangers.users ≡ some row)
    × (some "pw" ≡ some given)
    × (true ≡ true)
    × (jws user ≡ ok signed)
    × (signed ≢ "")
unfolding otus_highload.Http.Login.post_login otus_highload.Http.Login.login
    otus_highload.Storage.Users.get_password_hash
post_login-success_example =
    post_login-success (λ hash password. true) jws none (some "ann") (some "pw") strangers signed
      refl

get_post_feed-answers_example :
    (get_post_feed updater pos (reads strangers "ann") (some "ann") (some 10) (some 3) []).0
    ≢ panicked
get_post_feed-answers_example =
    get_post_feed-answers updater (reads strangers "ann") pos (some "ann") 10 3 []

abbrev nobody : Hub
nobody = record { consumers = []; active_subscribers = []; closed = []; stopped = [] }

-- One update without posts, and the end of the connection.
abbrev course : Course
course = record {
  upgraded = true;
  prepared = ok 1;
  fresh_id = "s";
  fresh_channel = 5;
  events = received [] ∷ connection_done ∷ [];
  meanwhile = λ h. h;
  fault = none;
}

abbrev ann : Context
ann = record { user_id = "ann"; token = "Bearer ann" }

post_feed_socket-ends_example :
    ((post_feed_socket course (value ann) nobody).0 ≡ served (update [] ∷ close 1000 ∷ []) true)
    × (subscription "ann" "s" (post_feed_socket course (value ann) nobody).1 ≡ none)
unfolding otus_highload.Http.get_user_id otus_highload.Feed.Subscriber.subscribe_post_feed
post_feed_socket-ends_example =
    post_feed_socket-ends course ann "ann" "s" 5 nobody ([] ∷ []) connection_done [] refl refl refl
      refl (inl refl)
