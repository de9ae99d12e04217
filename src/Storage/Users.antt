-- ===== src/Storage/Users.antt =====
-- backend/social/internal/storage/sql/user_storage.go and login_storage.go
use Prim.Native.Nat.{Ordering}
use Prim.Native.String as Text
use otus_highload.Base.{
  keep, Bool, ℕ, String, List, [], ◌∷◌, Option, none, some, ◌==◌, ◌&&◌, ltb, map, if◌then◌else◌,
}
use otus_highload.Base.Errors.{Error, wrapped, Result, ok, err, user_not_found, pg_error}
use otus_highload.Storage.{Rows, rows_of, User, UserExtended, UserRow, Db, run, has_user}
use otus_highload.Storage.Friends.{unique_violation}

abbrev pub not_null_violation : String
not_null_violation = "23502"

-- The row of an insert; `none` where a column that must not be null gets no value.
unfoldable pub user_row : UserExtended → Option UserRow
user_row u = required u.user.id u.user.first_name u.user.second_name
  where
    required : Option String → Option String → Option String → Option UserRow
    required (some id) (some first) (some second) = some (record {
      id = id;
      first_name = first;
      second_name = second;
      city = u.user.city;
      gender = u.user.gender;
      birthdate = u.user.birthdate;
      biography = u.user.biography;
      password_hash = u.password_hash;
      user_status = u.status;
    })
    required _ _ _ = none

abbrev insert_row : Option UserRow → Db → Result (Unit {0}) × Db
insert_row none db = (err (pg_error not_null_violation), db)
insert_row (some r) db =
    if has_user db.users r.id
    then (err (pg_error unique_violation), db)
    else (ok tt, record db { users = r ∷ db.users })

-- createUserSQL
unfoldable pub create_user : Option Error → UserExtended → Db → Result (Unit {0}) × Db
unfolding user_row
create_user fault u db = run fault (insert_row (user_row u)) db

-- WHERE id = $1 AND user_status < $2, SET user_status = $2, on one row.
abbrev pub raise_status : String → ℕ → UserRow → UserRow
raise_status id status r =
    if r.id == id && ltb r.user_status status then record r { user_status = status } else r

-- updateUserStatusSQL; a comparison with a null id holds of no row.
unfoldable pub set_status : Option String → ℕ → List UserRow → List UserRow
set_status none status users = users
set_status (some id) status users = map (raise_status id status) users

unfoldable pub update_user_status : Option Error → Option String → ℕ → Db → Result (Unit {0}) × Db
unfolding set_status
update_user_status fault id status db =
    run fault (λ d. (ok tt, record d { users = set_status id status d.users })) db

unfoldable pub find_user : String → List UserRow → Option UserRow
find_user id [] = none
find_user id (u ∷ us) = if u.id == id then some u else find_user id us

abbrev pub user_of_row : UserRow → User
user_of_row r = record {
  id = some r.id;
  first_name = some r.first_name;
  second_name = some r.second_name;
  city = r.city;
  gender = r.gender;
  birthdate = r.birthdate;
  biography = r.biography;
}

abbrev found_user : {A : Type 0} → (UserRow → A) → Option UserRow → Result A
found_user f none = err user_not_found
found_user f (some r) = ok (f r)

-- getUserByIdSQL
unfoldable pub get_user_by_id : Option Error → String → Db → Result User
unfolding find_user
get_user_by_id (some e) id db = err e
get_user_by_id none id db = found_user user_of_row (find_user id db.users)

-- getPasswordHashSQL; the id of a login request may be absent.
unfoldable pub get_password_hash : Option Error → Option String → Db → Result (List ℕ)
unfolding find_user
get_password_hash (some e) id db = err e
get_password_hash none none db = err user_not_found
get_password_hash none (some id) db = found_user (λ r. r.password_hash) (find_user id db.users)

-- ORDER BY id
abbrev insert_by_id : UserRow → List UserRow → List UserRow
insert_by_id u [] = u ∷ []
insert_by_id u (v ∷ vs) = elim (Text.compare v.id u.id) [
  | Ordering.lt ↦ v ∷ insert_by_id u vs
  | _ ↦ u ∷ v ∷ vs
]

abbrev order_by_id : List UserRow → List UserRow
order_by_id [] = []
order_by_id (u ∷ us) = insert_by_id u (order_by_id us)

abbrev named_search : {A : Type 0} → Result A → Result A
named_search (ok a) = ok a
named_search (err e) = err (wrapped "cannot query for searching users by name" e)

-- searchByNameSQL; `like` is the database's LIKE, which reads the prefixes as patterns.
unfoldable pub search_users_by_name :
    (String → String → Bool) → Rows → String → String → Db → Result (List User)
search_users_by_name like answer first_prefix last_prefix db = named_search (
    rows_of answer (
      map user_of_row (
        order_by_id (
          keep
            (λ u.
              like u.first_name (Text.◌++◌ first_prefix "%")
              && like u.second_name (Text.◌++◌ last_prefix "%"))
            db.users))))
