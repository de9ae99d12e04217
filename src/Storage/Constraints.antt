-- ===== src/Storage/Constraints.antt =====
-- Every statement of the storages, with every outcome, keeps the constraints of the tables.
use otus_highload.Base.{sym, subst, ◌∙◌, inl, inr, Option}
use otus_highload.Base.Errors.{Error}
use otus_highload.Storage.{Db}
use otus_highload.Storage.Integrity.{
  Consistent, Distinct-keep, All-keep, All-map, has_user-cons, UsersKnown-cons, has_user-set_status,
  Distinct-set_status, Distinct-set_content, All-set_content, UsersKnown, AuthorKnown, same_friend,
  same_post,
}
use otus_highload.Storage.Statements.{
  Statement, creates_user, updates_status, adds_friend, deletes_friend, creates_post, updates_post,
  deletes_post, execute, Effect, execute-Effect,
}

Effect-Consistent : (s : Statement) (db new : Db) → Effect s db new → Consistent db → Consistent new
Effect-Consistent (creates_user u) db new (r, fresh, e) c = rw e (record {
  users_once = (fresh, c.users_once);
  friends_once = c.friends_once;
  posts_once = c.posts_once;
  friends_known =
      All-map (UsersKnown db.users) _ db.friends (UsersKnown-cons r db.users) c.friends_known;
  authors_known =
      All-map (AuthorKnown db.users) _ db.posts (λ p. has_user-cons r db.users p.author_user_id)
        c.authors_known;
})
Effect-Consistent (updates_status id status) db new e c = rw e (record {
  users_once = Distinct-set_status id status db.users c.users_once;
  friends_once = c.friends_once;
  posts_once = c.posts_once;
  friends_known =
      All-map (UsersKnown db.users) _ db.friends
        (λ r h.
          rw
            (
              has_user-set_status id status db.users r.user_id,
              has_user-set_status id status db.users r.friend_id,
            )
            h)
        c.friends_known;
  authors_known =
      All-map (AuthorKnown db.users) _ db.posts
        (λ p h. has_user-set_status id status db.users p.author_user_id ∙ h) c.authors_known;
})
Effect-Consistent (adds_friend user friend) db new (fresh, known, e) c = rw e (record {
  users_once = c.users_once;
  friends_once = (fresh, c.friends_once);
  posts_once = c.posts_once;
  friends_known = (known, c.friends_known);
  authors_known = c.authors_known;
})
Effect-Consistent (deletes_friend user friend) db new e c = rw e (record {
  users_once = c.users_once;
  friends_once = Distinct-keep same_friend _ db.friends c.friends_once;
  posts_once = c.posts_once;
  friends_known = All-keep (UsersKnown db.users) _ db.friends c.friends_known;
  authors_known = c.authors_known;
})
Effect-Consistent (creates_post now post) db new (fresh, known, e) c = rw e (record {
  users_once = c.users_once;
  friends_once = c.friends_once;
  posts_once = (fresh, c.posts_once);
  friends_known = c.friends_known;
  authors_known = (known, c.authors_known);
})
Effect-Consistent (updates_post post) db new e c = rw e (record {
  users_once = c.users_once;
  friends_once = c.friends_once;
  posts_once = Distinct-set_content post.id post.author_user_id post.text db.posts c.posts_once;
  friends_known = c.friends_known;
  authors_known =
      All-set_content db.users post.id post.author_user_id post.text db.posts c.authors_known;
})
Effect-Consistent (deletes_post post_id user) db new e c = rw e (record {
  users_once = c.users_once;
  friends_once = c.friends_once;
  posts_once = Distinct-keep same_post _ db.posts c.posts_once;
  friends_known = c.friends_known;
  authors_known = All-keep (AuthorKnown db.users) _ db.posts c.authors_known;
})

-- Whatever a statement answers, and however the database fails it, tables whose keys are distinct
-- and whose references exist have distinct keys and existing references after it.
pub execute-Consistent :
    (fault : Option Error) (s : Statement) (db : Db)
    → Consistent db
    → Consistent (execute fault s db)
execute-Consistent fault s db c = elim (execute-Effect fault s db) [
  | inl same ↦ subst Consistent (sym same) c
  | inr effect ↦ Effect-Consistent s db (execute fault s db) effect c
]
