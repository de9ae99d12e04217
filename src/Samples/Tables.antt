-- ===== src/Samples/Tables.antt =====
-- Two users, ann and bob; ann follows bob, who has not written yet.
use otus_highload.Base.{String, [], ◌∷◌, none}
use otus_highload.Base.Errors.{ok}
use otus_highload.Storage.{UserRow, Db, whole}
use otus_highload.Cache.Cacher.{Reading}
use otus_highload.Feed.Updater.{Updater, Caches}
use otus_highload.Service.Friends.{App, Faults}
use otus_highload.Samples.Server.{Entries, list_client}
use otus_highload.Samples.Formats.{FeedMessage, ids_converter, posts_converter}

abbrev pub row_of : String → UserRow
row_of name = record {
  id = name;
  first_name = name;
  second_name = name;
  city = none;
  gender = none;
  birthdate = none;
  biography = none;
  password_hash = 3 ∷ [];
  user_status = 0;
}

abbrev pub strangers : Db
strangers = record { users = row_of "ann" ∷ row_of "bob" ∷ []; friends = []; posts = [] }

abbrev pub ann_follows_bob : Db
ann_follows_bob = record strangers {
  friends = (record { user_id = "ann"; friend_id = "bob" }) ∷ [];
}

abbrev pub updater : Updater Entries
updater = record {
  subscribers_redis = list_client;
  subscribers_converter = ids_converter;
  feed_redis = list_client;
  feed_converter = posts_converter;
  max_feed_length = 5;
  routing_key = λ user. user;
  marshal_posts = λ posts. ok "posts";
}

abbrev pub empty_caches : Caches Entries
empty_caches = record { subscribers = []; feed = []; sent = [] }

abbrev pub quiet : Faults
quiet = record { storage = none; broker = none }

-- The database answers from the state after the call.
abbrev pub reads : Db → String → Reading
reads db user = record { fault = whole; served = db }

abbrev pub app_of : Db → App FeedMessage
app_of db = record { db = db; queue = [] }
