-- ===== src/Http/Answers.antt =====
-- What an answer says of the state.
use otus_highload.Base.{
  false, ℕ, String, ◌≡◌, refl, sym, ap, ◌∙◌, ◌≢◌, ◌⊎◌, inl, inr, Bool, true, false, List, [], ◌∷◌,
  Option, none, some, ◌==◌, ◌&&◌, eq_refl, eq_iff, arith, if◌then◌else◌, Bool-cases, Option-cases,
}
use otus_highload.Base.Errors.{Error, Result, ok, err, user_not_found, post_not_found}
use otus_highload.Storage.{after_commit, UserRow, PostExtended, Db, has_user, is_friend}
use otus_highload.Storage.Users.{find_user, get_password_hash}
use otus_highload.Storage.Atomic.{Atomic}
use otus_highload.Feed.Notifier.{FeedJson}
use otus_highload.Service.Friends.{App, Faults}
use otus_highload.Service.Friends as FriendService
use otus_highload.Service.Posts as PostService
use otus_highload.Service.Atomic.{
  service_add_friend-Atomic, service_delete_friend-Atomic, service_create_post-Atomic,
  service_update_post-Atomic, service_delete_post-Atomic,
}
use otus_highload.Http.{Response, success, get_user_id, with_user, with_response}
use otus_highload.Http.Friends.{
  put_friend_set_user_id, put_friend_delete_user_id, add_friend_response, delete_friend_response,
}
use otus_highload.Http.Posts.{
  post_post_create, put_post_update, put_post_delete_id, get_post_get_id, response_or_404,
}
use otus_highload.Http.Login.{Session, token, refused, stopped, session_response, login, post_login}
use otus_highload.Http.Requests.{
  Request, sets_friend, deletes_friend, creates_post, updates_post, deletes_post, gets_post, serve,
  status_of, answered,
}

-- A status and a state: success, or the state before.
abbrev Unchanged : {S : Type 0} → ℕ × S → S → Type 0
Unchanged r s = (r.0 ≡ 200) ⊎ (r.1 ≡ s)

-- A handler whose service is atomic and which answers a value with 200.
responds :
    {A B S : Type 0} (respond : Result A → Response B) (r : Result A × S) (s : S)
    → ((a : A) → status_of (respond (ok a)) ≡ 200)
    → Atomic r s
    → Unchanged (answered (with_response respond r)) s
responds respond (ok a, t) s good h = inl (good a)
responds respond (err e, t) s good (inl (a, p)) = cc
responds respond (err e, t) s good (inr (e', p)) = inr (ap (λ q. q.1) p)

-- Without a user nothing happens.
for_user :
    {B S : Type 0} (user : Result String) (handle : String → S → Response B × S) (s : S)
    → ((u : String) → Unchanged (answered (handle u s)) s)
    → Unchanged (answered (with_user user handle s)) s
for_user (err e) handle s h = inr refl
for_user (ok u) handle s h = h u

module _ {Raw : Type 0} (json : FeedJson Raw) (faults : Faults)
    (early : after_commit faults.storage ≡ false) where
  -- An answer other than 200 to a request about friends or posts comes with tables and a queue that
  -- are as they were, whatever the user and the faults of the environment, but that the connection to
  -- the database does not end between the run of a statement and its answer.
  pub serve-atomic :
      (context : Option String) (request : Request) (app : App Raw)
      → ((serve json faults context request app).0 ≡ 200)
        ⊎ ((serve json faults context request app).1 ≡ app)
  unfolding put_friend_set_user_id put_friend_delete_user_id post_post_create put_post_update
      put_post_delete_id get_post_get_id
  serve-atomic context (sets_friend friend) app = for_user (get_user_id context) _ app (λ user.
      responds add_friend_response (FriendService.add_friend json faults user friend app) app
        (λ a. refl) (service_add_friend-Atomic json faults early user friend app))
  serve-atomic context (deletes_friend friend) app = for_user (get_user_id context) _ app (λ user.
      responds delete_friend_response (FriendService.delete_friend json faults user friend app) app
        (λ a. refl) (service_delete_friend-Atomic json faults early user friend app))
  serve-atomic context (creates_post id now text) app =
      for_user (get_user_id context) _ app (λ user.
        responds (response_or_404 user_not_found (λ (p : PostExtended). p.id))
          (PostService.create_post json faults id now user text app) app (λ a. refl)
          (service_create_post-Atomic json faults early id now user text app))
  serve-atomic context (updates_post post_id text) app =
      for_user (get_user_id context) _ app (λ user.
        responds (response_or_404 post_not_found (λ (p : PostExtended). tt))
          (PostService.update_post json faults user post_id text app) app (λ a. refl)
          (service_update_post-Atomic json faults early user post_id text app))
  serve-atomic context (deletes_post post_id) app = for_user (get_user_id context) _ app (λ user.
      responds (response_or_404 post_not_found (λ t. t))
        (PostService.delete_post json faults user post_id app) app (λ a. refl)
        (service_delete_post-Atomic json faults early user post_id app))
  serve-atomic context (gets_post post_id) app =
      for_user (get_user_id context) _ app (λ user. inr refl)

-- The status with which a request to follow a user is answered, when neither the database nor the
-- context fails: 400 where the user is followed already, 200 where both users exist, and else 404.
pub put_friend_set-status :
    {Raw : Type 0} (json : FeedJson Raw) (broker : Option Error) (user friend : String)
    (app : App Raw)
    → user ≢ ""
    → (serve json
        (record { storage = none; broker = broker })
        (some user)
        (sets_friend friend)
        app).0
      ≡ (if is_friend app.db.friends user friend
          then 400
          else if has_user app.db.users user && has_user app.db.users friend
          then 200
          else 404)
unfolding put_friend_set_user_id get_user_id FriendService.add_friend
    otus_highload.Storage.Friends.add_friend otus_highload.Base.Errors.errors_is
put_friend_set-status json broker user friend app h = ground (arith, eq_iff user "")

session_response-success :
    (compares : List ℕ → String → Bool) (create_jws : String → Result String) (s : Session)
    (t : String)
    → session_response compares create_jws s ≡ success t
    → (s ≡ token t) × (t ≢ "")
session_response-success compares create_jws (token x) t h = elim (Bool-cases (x == "")) [
  | inl empty ↦ ground (arith, empty)
  | inr full ↦
      let same : x ≡ t = ground (arith, full) in
      (ap token same, λ e. ground (arith, full, eq_iff x "", same, e))
]
session_response-success compares create_jws (refused e) t h = ground arith
session_response-success compares create_jws stopped t h = cc

login-token :
    (compares : List ℕ → String → Bool) (create_jws : String → Result String) (fault : Option Error)
    (id password : Option String) (db : Db) (t : String)
    → login compares create_jws fault id password db ≡ token t
    → (user : String) × (row : UserRow) × (given : String) × (id ≡ some user)
      × (find_user user db.users ≡ some row)
      × (password ≡ some given)
      × (compares row.password_hash given ≡ true)
      × (create_jws user ≡ ok t)
unfolding login get_password_hash
login-token compares create_jws (some e) id password db t h = cc
login-token compares create_jws none none password db t h = cc
login-token compares create_jws none (some user) none db t h =
    elim (Option-cases (find_user user db.users)) [
      | inl absent ↦ ground (arith, absent, h)
      | inr (row, found) ↦ ground (arith, found, h)
    ]
login-token compares create_jws none (some user) (some given) db t h =
    elim (Option-cases (find_user user db.users)) [
      | inl absent ↦ ground (arith, absent, h)
      | inr (row, found) ↦ elim (Bool-cases (compares row.password_hash given)) [
        | inl fits ↦ (user, row, given, refl, found, refl, fits, ground (arith, found, fits, h))
        | inr unfit ↦ ground (arith, found, unfit, h)
      ]
    ]

-- A login is answered with a token only for a user in the table whose password hash fits the given
-- password, and the token is the one that was created for that user, and not empty.
pub post_login-success :
    (compares : List ℕ → String → Bool) (create_jws : String → Result String) (fault : Option Error)
    (id password : Option String) (db : Db) (t : String)
    → post_login compares create_jws fault id password db ≡ success t
    → (user : String) × (row : UserRow) × (given : String) × (id ≡ some user)
      × (find_user user db.users ≡ some row)
      × (password ≡ some given)
      × (compares row.password_hash given ≡ true)
      × (create_jws user ≡ ok t)
      × (t ≢ "")
unfolding post_login login get_password_hash
post_login-success compares create_jws fault id password db t h =
    let (made, full) =
      session_response-success compares create_jws (login compares create_jws fault id password db)
        t h in
    let (user, row, given, p, found, q, fits, signed) =
      login-token compares create_jws fault id password db t made in
    (user, row, given, p, found, q, fits, signed, full)
