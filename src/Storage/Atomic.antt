-- ===== src/Storage/Atomic.antt =====
-- A statement that fails before the server has run it leaves the tables as they were.
use otus_highload.Base.{
  false, ℕ, String, ◌≡◌, refl, ap, ◌⊎◌, inl, inr, Option, none, some, any, ◌==◌, ◌&&◌, arith,
  Bool-cases, Option-cases,
}
use otus_highload.Base.Errors.{Error, Result, ok, err, no_rows, pg_error}
use otus_highload.Storage.{after_commit, Post, Db, run, map_error, has_user, is_friend}
use otus_highload.Storage.Friends.{
  insert_friend, add_friend, remove_friend, delete_friend, unique_violation, foreign_key_violation,
}
use otus_highload.Storage.Posts.{
  insert_post, create_post, replace_content, update_post, remove_post, delete_post, find_post,
  set_content,
}

-- Either a value, or an error and the state before.
abbrev pub Atomic : {A S : Type 0} → Result A × S → S → Type 0
Atomic {A} r s = ((a : A) × (r.0 ≡ ok a)) ⊎ ((e : Error) × (r ≡ (err e, s)))

-- What a storage makes of the outcome of a statement that is atomic.
statement-Atomic :
    {A : Type 0} (f : Error → Error) (fault : Option Error) (statement : Db → Result A × Db)
    (db : Db)
    → after_commit fault ≡ false
    → Atomic (statement db) db
    → Atomic (map_error f (run fault statement db)) db
statement-Atomic f (some e) statement db early h = inr (f e, rw early refl)
statement-Atomic f none statement db early (inl (a, p)) = mapped (statement db) a p
  where
    mapped : {A : Type 0} (r : Result A × Db) (a : A) → r.0 ≡ ok a → Atomic (map_error f r) db
    mapped (ok b, d) a p = inl (b, refl)
    mapped (err e, d) a p = cc
statement-Atomic f none statement db early (inr (e, p)) = inr (f e, ap (map_error f) p)

module _ (fault : Option Error) (early : after_commit fault ≡ false) where
  pub add_friend-Atomic :
      (user friend : String) (db : Db) → Atomic (add_friend fault user friend db) db
  unfolding add_friend
  add_friend-Atomic user friend db =
      statement-Atomic _ fault (insert_friend user friend) db early
        (elim (Bool-cases (is_friend db.friends user friend)) [
          | inl taken ↦ inr (pg_error unique_violation, ground arith)
          | inr fresh ↦ elim (Bool-cases (has_user db.users user && has_user db.users friend)) [
            | inl known ↦ inl (tt, ground arith)
            | inr unknown ↦ inr (pg_error foreign_key_violation, ground arith)
          ]
        ])

  pub delete_friend-Atomic :
      (user friend : String) (db : Db) → Atomic (delete_friend fault user friend db) db
  unfolding delete_friend
  delete_friend-Atomic user friend db =
      statement-Atomic _ fault (remove_friend user friend) db early
        (elim (Bool-cases (is_friend db.friends user friend)) [
          | inl found ↦ inl (tt, ground arith)
          | inr absent ↦ inr (no_rows, ground arith)
        ])

  pub create_post-Atomic :
      (now : ℕ) (post : Post) (db : Db) → Atomic (create_post fault now post db) db
  unfolding create_post
  create_post-Atomic now post db =
      statement-Atomic _ fault (insert_post now post) db early
        (elim (Bool-cases (any (λ p. p.id == post.id) db.posts)) [
          | inl taken ↦ inr (pg_error unique_violation, ground arith)
          | inr fresh ↦ elim (Bool-cases (has_user db.users post.author_user_id)) [
            | inl known ↦
                inl (record { post = post; create_time = now; update_time = now }, ground arith)
            | inr unknown ↦ inr (pg_error foreign_key_violation, ground arith)
          ]
        ])

  pub update_post-Atomic : (post : Post) (db : Db) → Atomic (update_post fault post db) db
  unfolding update_post
  update_post-Atomic post db =
      statement-Atomic _ fault (replace_content post) db early
        (elim (Option-cases (
          find_post post.id post.author_user_id
            (set_content post.id post.author_user_id post.text db.posts))) [
              | inl absent ↦ inr (no_rows, rw absent refl)
              | inr (p, found) ↦ inl (p, rw found refl)
            ])

  pub delete_post-Atomic :
      (post_id user : String) (db : Db) → Atomic (delete_post fault post_id user db) db
  unfolding delete_post
  delete_post-Atomic post_id user db =
      statement-Atomic _ fault (remove_post post_id user) db early
        (elim (Option-cases (find_post post_id user db.posts)) [
          | inl absent ↦ inr (no_rows, rw absent refl)
          | inr (p, found) ↦ inl (tt, rw found refl)
        ])
