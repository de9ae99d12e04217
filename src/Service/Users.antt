-- ===== src/Service/Users.antt =====
-- The two queries of backend/social/internal/service/user_service.go; a registration is Saga/Register.
use otus_highload.Base.{Bool, String, List, Option}
use otus_highload.Base.Errors.{Error, Result}
use otus_highload.Storage.{User, Db, Rows}
use otus_highload.Storage.Users as Users

abbrev pub get_user : Option Error → String → Db → Result User
get_user fault id db = Users.get_user_by_id fault id db

abbrev pub search_by_name :
    (String → String → Bool) → Rows → String → String → Db → Result (List User)
search_by_name like fault first_prefix last_prefix db =
    Users.search_users_by_name like fault first_prefix last_prefix db
