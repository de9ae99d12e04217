-- ===== src/Storage/Statements.antt =====
-- The statements of the storages together, and what each does to the tables.
use otus_highload.Base.{
  ℕ, String, ◌≡◌, refl, inl, inr, ◌⊎◌, true, false, ◌∷◌, Option, none, some, not, any, keep, ◌==◌,
  ◌&&◌, arith, Bool-cases, Option-cases,
}
use otus_highload.Base.Errors.{Result, ok, err, Error}
use otus_highload.Storage.{
  after_commit, run, map_error, UserExtended, UserRow, Post, Db, has_user, is_friend,
}
use otus_highload.Storage.Users.{create_user, update_user_status, set_status, user_row}
use otus_highload.Storage.Friends.{insert_friend, remove_friend, add_friend, delete_friend}
use otus_highload.Storage.Posts.{
  insert_post, replace_content, remove_post, create_post, update_post, delete_post, set_content,
  is_post_of, find_post,
}

-- A statement that changes the tables.
pub data Statement : Type 0 where
  creates_user : UserExtended → Statement
  updates_status : Option String → ℕ → Statement
  adds_friend deletes_friend : String → String → Statement
  creates_post : ℕ → Post → Statement
  updates_post : Post → Statement
  deletes_post : String → String → Statement

-- The tables after a statement, whatever it answered.
abbrev pub execute : Option Error → Statement → Db → Db
execute fault (creates_user u) db = (create_user fault u db).1
execute fault (updates_status id status) db = (update_user_status fault id status db).1
execute fault (adds_friend user friend) db = (add_friend fault user friend db).1
execute fault (deletes_friend user friend) db = (delete_friend fault user friend db).1
execute fault (creates_post now post) db = (create_post fault now post db).1
execute fault (updates_post post) db = (update_post fault post db).1
execute fault (deletes_post post_id user) db = (delete_post fault post_id user db).1

-- What each statement does to the tables, if it does anything.
abbrev pub Effect : Statement → Db → Db → Type 0
Effect (creates_user u) db new =
    (r : UserRow) × (has_user db.users r.id ≡ false) × (new ≡ record db { users = r ∷ db.users })
Effect (updates_status id status) db new = new ≡ record db { users = set_status id status db.users }
Effect (adds_friend user friend) db new =
    (is_friend db.friends user friend ≡ false)
    × ((has_user db.users user && has_user db.users friend) ≡ true)
    × (new ≡ record db { friends = (record { user_id = user; friend_id = friend }) ∷ db.friends })
Effect (deletes_friend user friend) db new = new ≡ record db {
  friends = keep (λ r. not (r.user_id == user && r.friend_id == friend)) db.friends;
}
Effect (creates_post now post) db new =
    (any (λ p. p.id == post.id) db.posts ≡ false)
    × (has_user db.users post.author_user_id ≡ true)
    × (new ≡ record db {
      posts = (record { post = post; create_time = now; update_time = now }) ∷ db.posts;
    })
Effect (updates_post post) db new =
    new ≡ record db { posts = set_content post.id post.author_user_id post.text db.posts }
Effect (deletes_post post_id user) db new =
    new ≡ record db { posts = keep (λ p. not (is_post_of post_id user p)) db.posts }

create_user-Effect :
    (u : UserExtended) (db : Db)
    → (execute none (creates_user u) db ≡ db)
      ⊎ Effect (creates_user u) db (execute none (creates_user u) db)
unfolding create_user
create_user-Effect u db = elim (Option-cases (user_row u)) [
  | inl e ↦ inl (ground (arith, e))
  | inr (r, e) ↦ elim (Bool-cases (has_user db.users r.id)) [
    | inl taken ↦ inl (ground (arith, e))
    | inr fresh ↦ inr (r, fresh, ground (arith, e))
  ]
]

add_friend-Effect :
    (user friend : String) (db : Db)
    → (execute none (adds_friend user friend) db ≡ db)
      ⊎ Effect (adds_friend user friend) db (execute none (adds_friend user friend) db)
unfolding add_friend
add_friend-Effect user friend db = elim (Bool-cases (is_friend db.friends user friend)) [
  | inl taken ↦ inl (ground arith)
  | inr fresh ↦ elim (Bool-cases (has_user db.users user && has_user db.users friend)) [
    | inl known ↦ inr (fresh, known, ground arith)
    | inr unknown ↦ inl (ground arith)
  ]
]

delete_friend-Effect :
    (user friend : String) (db : Db)
    → (execute none (deletes_friend user friend) db ≡ db)
      ⊎ Effect (deletes_friend user friend) db (execute none (deletes_friend user friend) db)
unfolding delete_friend
delete_friend-Effect user friend db = elim (Bool-cases (is_friend db.friends user friend)) [
  | inl found ↦ inr (ground arith)
  | inr absent ↦ inl (ground arith)
]

create_post-Effect :
    (now : ℕ) (post : Post) (db : Db)
    → (execute none (creates_post now post) db ≡ db)
      ⊎ Effect (creates_post now post) db (execute none (creates_post now post) db)
unfolding create_post
create_post-Effect now post db = elim (Bool-cases (any (λ p. p.id == post.id) db.posts)) [
  | inl taken ↦ inl (ground arith)
  | inr fresh ↦ elim (Bool-cases (has_user db.users post.author_user_id)) [
    | inl known ↦ inr (fresh, known, ground arith)
    | inr unknown ↦ inl (ground arith)
  ]
]

update_post-Effect :
    (post : Post) (db : Db)
    → (execute none (updates_post post) db ≡ db)
      ⊎ Effect (updates_post post) db (execute none (updates_post post) db)
unfolding update_post
update_post-Effect post db =
    elim (Option-cases (
      find_post post.id post.author_user_id
        (set_content post.id post.author_user_id post.text db.posts))) [
          | inl absent ↦ inl (rw (execute, absent) refl)
          | inr (p, found) ↦ inr (rw (execute, found) refl)
        ]

delete_post-Effect :
    (post_id user : String) (db : Db)
    → (execute none (deletes_post post_id user) db ≡ db)
      ⊎ Effect (deletes_post post_id user) db (execute none (deletes_post post_id user) db)
unfolding delete_post
delete_post-Effect post_id user db = elim (Option-cases (find_post post_id user db.posts)) [
  | inl absent ↦ inl (rw (execute, absent) refl)
  | inr (p, found) ↦ inr (rw (execute, found) refl)
]

-- A statement that fails leaves the tables as they were, or as it leaves them without a fault.
run-late :
    {A : Type 0} (f : Error → Error) (e : Error) (statement : Db → Result A × Db) (db : Db)
    → ((map_error f (run (some e) statement db)).1 ≡ db)
      ⊎ ((map_error f (run (some e) statement db)).1 ≡ (map_error f (run none statement db)).1)
run-late f e statement db = elim (Bool-cases (after_commit (some e))) [
  | inl late ↦ inr (rw late (mapped (statement db)))
  | inr early ↦ inl (rw early refl)
]
  where
    mapped : {A : Type 0} (r : Result A × Db) → r.1 ≡ (map_error f r).1
    mapped (ok a, d) = refl
    mapped (err e, d) = refl

execute-late :
    (e : Error) (s : Statement) (db : Db)
    → (execute (some e) s db ≡ db) ⊎ (execute (some e) s db ≡ execute none s db)
unfolding create_user update_user_status add_friend delete_friend create_post update_post
    delete_post
execute-late e (creates_user u) db = elim (Bool-cases (after_commit (some e))) [
  | inl late ↦ inr (rw late refl)
  | inr early ↦ inl (rw early refl)
]
execute-late e (updates_status id status) db = elim (Bool-cases (after_commit (some e))) [
  | inl late ↦ inr (rw late refl)
  | inr early ↦ inl (rw early refl)
]
execute-late e (adds_friend user friend) db = run-late _ e (insert_friend user friend) db
execute-late e (deletes_friend user friend) db = run-late _ e (remove_friend user friend) db
execute-late e (creates_post now post) db = run-late _ e (insert_post now post) db
execute-late e (updates_post post) db = run-late _ e (replace_content post) db
execute-late e (deletes_post post_id user) db = run-late _ e (remove_post post_id user) db

execute-none-Effect :
    (s : Statement) (db : Db) → (execute none s db ≡ db) ⊎ Effect s db (execute none s db)
unfolding update_user_status
execute-none-Effect (creates_user u) db = create_user-Effect u db
execute-none-Effect (updates_status id status) db = inr refl
execute-none-Effect (adds_friend user friend) db = add_friend-Effect user friend db
execute-none-Effect (deletes_friend user friend) db = delete_friend-Effect user friend db
execute-none-Effect (creates_post now post) db = create_post-Effect now post db
execute-none-Effect (updates_post post) db = update_post-Effect post db
execute-none-Effect (deletes_post post_id user) db = delete_post-Effect post_id user db

pub execute-Effect :
    (fault : Option Error) (s : Statement) (db : Db)
    → (execute fault s db ≡ db) ⊎ Effect s db (execute fault s db)
execute-Effect (some e) s db = elim (execute-late e s db) [
  | inl same ↦ inl same
  | inr late ↦ rw late (execute-none-Effect s db)
]
execute-Effect none s db = execute-none-Effect s db
