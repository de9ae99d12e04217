-- ===== src/Samples/Formats.antt =====
-- Converters and codecs that read back what they write.
use otus_highload.Base.{
  String, ◌≡◌, refl, subst, Bool, true, not, ◌&&◌, List, [], ◌∷◌, some, ◌==◌, eqb, if◌then◌else◌,
  eq_iff, arith,
}
use otus_highload.Base.Errors.{Result, ok, err, other}
use otus_highload.Storage.{User, PostExtended}
use otus_highload.Cache.Load.{ValueConverter}
use otus_highload.Cache.Fresh.{RoundTrips, FreshAt}
use otus_highload.Feed.Notifier.{
  NotificationType, FriendNotification, PostNotification, DeletePostNotification, Codec, FeedJson,
}
use otus_highload.Saga.{SagaEventType, SagaJson, absent_user}

pub ok-eq : {A : Type 0} {a b : A} → Result.ok a ≡ ok b → a ≡ b
ok-eq h = ground arith

pub some-eq : {A : Type 0} {a b : A} → some a ≡ some b → a ≡ b
some-eq h = ground arith

-- Lists of at most one identifier.
abbrev write_ids : List String → Result String
write_ids [] = ok "[]"
write_ids (x ∷ []) = if x == "[]" then err (other "json") else ok x
write_ids _ = err (other "json")

abbrev read_ids : String → Result (List String)
read_ids text = if text == "[]" then ok [] else ok (text ∷ [])

abbrev pub ids_converter : ValueConverter (List String)
ids_converter = record { convert_to_string = write_ids; convert_from_string = read_ids }

read_ids-write_ids :
    (l : List String) (text : String) → write_ids l ≡ ok text → read_ids text ≡ ok l
read_ids-write_ids [] text h = subst (λ t. read_ids t ≡ ok []) (ok-eq h) refl
read_ids-write_ids (x ∷ []) text h = ground arith
read_ids-write_ids (x ∷ y ∷ l) text h = cc

pub ids-RoundTrips : RoundTrips ids_converter
ids-RoundTrips l text h = read_ids-write_ids l text h

-- Lists of at most one post, which is bob's post 1 of the time 7 with any text.
abbrev pub sample_post : String → PostExtended
sample_post text = record {
  post = record { id = "1"; author_user_id = "bob"; text = text };
  create_time = 7;
  update_time = 7;
}

abbrev is_sample : PostExtended → Bool
is_sample p =
    p.id == "1"
    && p.author_user_id == "bob"
    && eqb p.create_time 7
    && eqb p.update_time 7
    && not (p.text == "[]")

abbrev write_posts : List PostExtended → Result String
write_posts [] = ok "[]"
write_posts (p ∷ []) = if is_sample p then ok p.text else err (other "json")
write_posts _ = err (other "json")

abbrev read_posts : String → Result (List PostExtended)
read_posts text = if text == "[]" then ok [] else ok (sample_post text ∷ [])

abbrev pub posts_converter : ValueConverter (List PostExtended)
posts_converter = record { convert_to_string = write_posts; convert_from_string = read_posts }

sample_post_of : (p : PostExtended) → is_sample p ≡ true → p ≡ sample_post p.text
sample_post_of p h = ground (arith, eq_iff p.id "1", eq_iff p.author_user_id "bob")

read_posts-write_posts :
    (l : List PostExtended) (text : String) → write_posts l ≡ ok text → read_posts text ≡ ok l
read_posts-write_posts [] text h = subst (λ t. read_posts t ≡ ok []) (ok-eq h) refl
read_posts-write_posts (p ∷ []) text h = ground (arith, sample_post_of p)
read_posts-write_posts (p ∷ q ∷ l) text h = cc

pub posts-RoundTrips : RoundTrips posts_converter
posts-RoundTrips l text h = read_posts-write_posts l text h

-- The messages of the feed's queue.
pub data FeedMessage : Type 0 where
  envelope : NotificationType → FeedMessage → FeedMessage
  nothing : FeedMessage
  friend : FriendNotification → FeedMessage
  post : PostNotification → FeedMessage
  deleted : DeletePostNotification → FeedMessage

abbrev read_envelope : FeedMessage → Result (NotificationType × FeedMessage)
read_envelope (envelope t m) = ok (t, m)
read_envelope _ = err (other "json")

abbrev read_friend : FeedMessage → Result FriendNotification
read_friend (friend p) = ok p
read_friend _ = err (other "json")

abbrev read_post : FeedMessage → Result PostNotification
read_post (post p) = ok p
read_post _ = err (other "json")

abbrev read_deleted : FeedMessage → Result DeletePostNotification
read_deleted (deleted p) = ok p
read_deleted _ = err (other "json")

-- A format whose writing never fails.
abbrev data_codec :
    {Raw A : Type 0} (write : A → Raw) (read : Raw → Result A)
    → ((a : A) → read (write a) ≡ ok a)
    → Codec Raw A
data_codec write read same = record {
  marshal = λ a. ok (write a);
  unmarshal = read;
  round = λ a raw h. subst (λ r. read r ≡ ok a) (ok-eq h) (same a);
}

abbrev pub feed_json : FeedJson FeedMessage
feed_json = record {
  envelope = data_codec (λ e. envelope e.0 e.1) read_envelope (λ e. refl);
  nothing = data_codec (λ t. nothing) (λ m. ok tt) (λ t. refl);
  friend = data_codec friend read_friend (λ p. refl);
  post = data_codec post read_post (λ p. refl);
  deleted = data_codec deleted read_deleted (λ p. refl);
}

-- The messages of the saga's queues.
pub data SagaMessage : Type 0 where
  event : SagaEventType → SagaMessage → SagaMessage
  user : User → SagaMessage
  null : SagaMessage

abbrev read_event : SagaMessage → Result (SagaEventType × SagaMessage)
read_event (event t m) = ok (t, m)
read_event _ = err (other "json")

abbrev read_user : SagaMessage → Result User
read_user (user u) = ok u
read_user null = ok absent_user
read_user _ = err (other "json")

abbrev pub saga_json : SagaJson SagaMessage
saga_json = record {
  envelope = data_codec (λ e. event e.0 e.1) read_event (λ e. refl);
  user = data_codec user read_user (λ u. refl);
  null = null;
  null_user = refl;
}

-- A value that reads as it should is fresh.
pub some-FreshAt :
    {V : Type 0} (c : ValueConverter V) (text : String) (v : V)
    → c.convert_from_string text ≡ ok v
    → FreshAt c (some text) v
some-FreshAt c text v reads =
    λ kept h. subst (λ t. c.convert_from_string t ≡ ok v) (some-eq h) reads
