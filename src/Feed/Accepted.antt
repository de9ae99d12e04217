-- ===== src/Feed/Accepted.antt =====
-- What the updater will hear of a notification that the queue accepted.
use otus_highload.Base.{
  String, ◌≡◌, refl, ap, ◌≢◌, List, [], ◌∷◌, ◌++◌, Option, none, some, length, length-append, arith,
}
use otus_highload.Base.Errors.{Error, Result, ok, err}
use otus_highload.Storage.{PostExtended}
use otus_highload.Feed.Notifier.{
  NotificationType, Codec, FeedJson, marshal_notification, marshal_in, notify, sent,
  notify_invalidate_all, notify_add_friend, notify_delete_friend, notify_create_post,
  notify_update_post, notify_delete_post,
}
use otus_highload.Feed.Notifier as Notifier
use otus_highload.Feed.Heard.{of_friend, of_author, everything, heard}

last-injective : {A : Type 0} (xs : List A) (a b : A) → xs ++ a ∷ [] ≡ xs ++ b ∷ [] → a ≡ b
last-injective [] a b h = ground arith
last-injective (x ∷ xs) a b h = last-injective xs a b (ground arith)

longer : {A : Type 0} (xs : List A) (b : A) → xs ≢ xs ++ b ∷ []
longer xs b h = omega (arith, ap length h, length-append xs (b ∷ []))

module _ {Raw : Type 0} (json : FeedJson Raw) where
  -- What reading a message of the queue gives.
  record Reads {A : Type 0} (codec : Codec Raw A) (type : NotificationType) (payload : A)
      (body : Raw) : Type 0 where
    pub raw : Raw
    pub at_envelope : json.envelope.unmarshal body ≡ ok (type, raw)
    pub at_payload : codec.unmarshal raw ≡ ok payload

  marshal_in-Reads :
      {A : Type 0} (codec : Codec Raw A) (type : NotificationType) (payload : A) (r : Result Raw)
      (body : Raw)
      → codec.marshal payload ≡ r
      → marshal_in json type r ≡ ok body
      → Reads codec type payload body
  unfolding marshal_in
  marshal_in-Reads codec type payload (err e) body p h = cc
  marshal_in-Reads codec type payload (ok raw) body p h = record {
    raw = raw;
    at_envelope = json.envelope.round (type, raw) body h;
    at_payload = codec.round payload raw p;
  }

module _ {Raw : Type 0} (json : FeedJson Raw) (fault : Option Error) (queue : List Raw)
    (body : Raw) where
  sent_accepted :
      (f : Option Error) (raw : Raw) → (sent f raw queue).1 ≡ queue ++ body ∷ [] → raw ≡ body
  unfolding sent
  sent_accepted (some e) raw h = absurd (longer queue body h)
  sent_accepted none raw h = last-injective queue raw body h

  notify_accepted : (r : Result Raw) → (notify fault r queue).1 ≡ queue ++ body ∷ [] → r ≡ ok body
  unfolding notify
  notify_accepted (err e) h = absurd (longer queue body h)
  notify_accepted (ok raw) h = ap ok (sent_accepted fault raw h)

  accepted-Reads :
      {A : Type 0} (codec : Codec Raw A) (type : NotificationType) (payload : A)
      → (notify fault (marshal_notification json type codec payload) queue).1 ≡ queue ++ body ∷ []
      → Reads json codec type payload body
  unfolding marshal_notification
  accepted-Reads codec type payload h =
      marshal_in-Reads json codec type payload (codec.marshal payload) body refl
        (notify_accepted _ h)

  pub heard-invalidate_all :
      (notify_invalidate_all json fault queue).1 ≡ queue ++ body ∷ [] → heard json body ≡ everything
  unfolding notify_invalidate_all
  heard-invalidate_all h =
      let r = accepted-Reads json.nothing Notifier.invalidate_all tt h in rw r.at_envelope refl

  pub heard-add_friend :
      (user friend : String)
      → (notify_add_friend json fault user friend queue).1 ≡ queue ++ body ∷ []
      → heard json body ≡ of_friend user friend
  unfolding notify_add_friend
  heard-add_friend user friend h =
      let r = accepted-Reads json.friend Notifier.add_friend _ h in
      rw (r.at_envelope, r.at_payload) refl

  pub heard-delete_friend :
      (user friend : String)
      → (notify_delete_friend json fault user friend queue).1 ≡ queue ++ body ∷ []
      → heard json body ≡ of_friend user friend
  unfolding notify_delete_friend
  heard-delete_friend user friend h =
      let r = accepted-Reads json.friend Notifier.delete_friend _ h in
      rw (r.at_envelope, r.at_payload) refl

  pub heard-create_post :
      (post : PostExtended)
      → (notify_create_post json fault post queue).1 ≡ queue ++ body ∷ []
      → heard json body ≡ of_author post.author_user_id
  unfolding notify_create_post
  heard-create_post post h =
      let r = accepted-Reads json.post Notifier.create_post _ h in
      rw (r.at_envelope, r.at_payload) refl

  pub heard-update_post :
      (post : PostExtended)
      → (notify_update_post json fault post queue).1 ≡ queue ++ body ∷ []
      → heard json body ≡ of_author post.author_user_id
  unfolding notify_update_post
  heard-update_post post h =
      let r = accepted-Reads json.post Notifier.update_post _ h in
      rw (r.at_envelope, r.at_payload) refl

  pub heard-delete_post :
      (post_id user : String)
      → (notify_delete_post json fault post_id user queue).1 ≡ queue ++ body ∷ []
      → heard json body ≡ of_author user
  unfolding notify_delete_post
  heard-delete_post post_id user h =
      let r = accepted-Reads json.deleted Notifier.delete_post _ h in
      rw (r.at_envelope, r.at_payload) refl
