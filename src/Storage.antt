-- ===== src/Storage.antt =====
-- The tables of backend/migrator/migrations, the records of backend/social/internal/model, and how
-- a statement of backend/social/internal/storage/sql meets the database.
pub mod Users
pub mod Friends
pub mod Posts
pub mod Feed
pub mod Success
pub mod RoundTrip
pub mod Atomic
pub mod Order
pub mod Replicated
pub mod Pools
pub mod Integrity
pub mod Statements
pub mod Constraints
mod Tests
use otus_highload.Base.{
  true, false, take, if◌then◌else◌, ℕ, String, Bool, List, ◌∷◌, Option, none, some, ◌==◌, ◌&&◌, any,
}
use otus_highload.Base.Errors.{Error, Result, ok, err, lost}

-- model.User: every field is a pointer, so that it may be absent.
pub record User : Type 0 where
  pub id : Option String
  pub first_name : Option String
  pub second_name : Option String
  pub city : Option String
  pub gender : Option String
  pub birthdate : Option ℕ
  pub biography : Option String

pub record UserExtended : Type 0 where
  pub user : User
  pub password_hash : List ℕ
  pub status : ℕ

-- A row of `users`; the columns that the migrations declare `not null` are no options.
pub record UserRow : Type 0 where
  pub id : String
  pub first_name : String
  pub second_name : String
  pub city : Option String
  pub gender : Option String
  pub birthdate : Option ℕ
  pub biography : Option String
  pub password_hash : List ℕ
  pub user_status : ℕ

pub record Friend : Type 0 where
  pub user_id : String
  pub friend_id : String

-- model.Post, for the posts that the services handle: all three pointers are set.
pub record Post : Type 0 where
  pub id : String
  pub author_user_id : String
  pub text : String

pub record PostExtended : Type 0 where
  pub post : Post
  pub open post use *
  pub create_time : ℕ
  pub update_time : ℕ

pub record Db : Type 0 where
  pub users : List UserRow
  pub friends : List Friend
  pub posts : List PostExtended

-- Whether a failure comes after the server has run the statement. The code does not tell it apart.
abbrev pub after_commit : Option Error → Bool
after_commit (some lost) = true
after_commit _ = false

-- How the rows of a query arrive: all of them, an error, or the first ones only and then the end of the
-- connection, which the loops over `rows.Next()` do not tell from the end of the rows.
pub data Rows : Type 0 where
  whole : Rows
  failing : Error → Rows
  cut : ℕ → Rows

abbrev pub is_cut : Rows → Bool
is_cut (cut n) = true
is_cut _ = false

abbrev pub rows_of : {A : Type 0} → Rows → List A → Result (List A)
rows_of whole rows = ok rows
rows_of (failing e) rows = err e
rows_of (cut n) rows = ok (take n rows)

-- A statement runs, or fails with the error that the environment chooses (connection, timeout,
-- cancelled context), before the server runs it or after it.
abbrev pub run : {A S : Type 0} → Option Error → (S → Result A × S) → S → Result A × S
run (some e) statement db = (err e, if after_commit (some e) then (statement db).1 else db)
run none statement db = statement db

-- What a storage makes of the error of a statement.
abbrev pub map_error : {A : Type 0} → (Error → Error) → Result A × Db → Result A × Db
map_error f (ok a, db) = (ok a, db)
map_error f (err e, db) = (err (f e), db)

abbrev pub has_user : List UserRow → String → Bool
has_user users id = any (λ u. u.id == id) users

abbrev pub is_friend : List Friend → String → String → Bool
is_friend friends user friend = any (λ r. r.user_id == user && r.friend_id == friend) friends
