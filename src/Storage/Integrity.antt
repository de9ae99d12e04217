-- ===== src/Storage/Integrity.antt =====
-- The constraints of the tables, and that every statement keeps them.
use otus_highload.Base.{
  ℕ, String, ◌≡◌, refl, ap, ◌∙◌, inl, inr, Bool, true, false, List, [], ◌∷◌, Option, none, some,
  any, keep, map, ◌==◌, ◌&&◌, All, arith, Bool-cases,
}
use otus_highload.Storage.{UserRow, Friend, PostExtended, Db, has_user}
use otus_highload.Storage.Users.{set_status, raise_status}
use otus_highload.Storage.Posts.{set_content}

-- No two rows have the same key.
abbrev pub Distinct {ℓ} : {A : Type ℓ} → (A → A → Bool) → List A → Type 0
Distinct same [] = Unit
Distinct same (x ∷ xs) = (any (same x) xs ≡ false) × Distinct same xs

abbrev pub same_user : UserRow → UserRow → Bool
same_user u v = v.id == u.id

abbrev pub same_friend : Friend → Friend → Bool
same_friend r t = t.user_id == r.user_id && t.friend_id == r.friend_id

abbrev pub same_post : PostExtended → PostExtended → Bool
same_post p q = q.id == p.id

abbrev pub UsersKnown : List UserRow → Friend → Type 0
UsersKnown users r = (has_user users r.user_id && has_user users r.friend_id) ≡ true

abbrev pub AuthorKnown : List UserRow → PostExtended → Type 0
AuthorKnown users p = has_user users p.author_user_id ≡ true

-- The primary keys of the three tables, and the foreign keys into `users`.
pub record Consistent (db : Db) : Type 0 where
  pub users_once : Distinct same_user db.users
  pub friends_once : Distinct same_friend db.friends
  pub posts_once : Distinct same_post db.posts
  pub friends_known : All (UsersKnown db.users) db.friends
  pub authors_known : All (AuthorKnown db.users) db.posts

module _ {ℓ} {A : Type ℓ} where
  any-keep : (p q : A → Bool) (xs : List A) → any p xs ≡ false → any p (keep q xs) ≡ false
  any-keep p q [] h = refl
  any-keep p q (x ∷ xs) h = ground (arith, any-keep p q xs)

  pub Distinct-keep :
      (same : A → A → Bool) (q : A → Bool) (xs : List A)
      → Distinct same xs
      → Distinct same (keep q xs)
  Distinct-keep same q [] d = tt
  Distinct-keep same q (x ∷ xs) (h, d) = elim (Bool-cases (q x)) [
    | inl e ↦ rw e (any-keep (same x) q xs h, Distinct-keep same q xs d)
    | inr e ↦ rw e (Distinct-keep same q xs d)
  ]

  pub All-keep : (P : A → Type 0) (q : A → Bool) (xs : List A) → All P xs → All P (keep q xs)
  All-keep P q [] d = tt
  All-keep P q (x ∷ xs) (h, d) = elim (Bool-cases (q x)) [
    | inl e ↦ rw e (h, All-keep P q xs d)
    | inr e ↦ rw e (All-keep P q xs d)
  ]

  pub All-map : (P Q : A → Type 0) (xs : List A) → ((x : A) → P x → Q x) → All P xs → All Q xs
  All-map P Q [] f d = tt
  All-map P Q (x ∷ xs) f (h, d) = (f x h, All-map P Q xs f d)

-- A new user takes nothing from what was known.
pub has_user-cons :
    (u : UserRow) (us : List UserRow) (id : String)
    → has_user us id ≡ true
    → has_user (u ∷ us) id ≡ true
has_user-cons u us id h = ground (arith, h)

pub UsersKnown-cons :
    (u : UserRow) (us : List UserRow) (r : Friend) → UsersKnown us r → UsersKnown (u ∷ us) r
UsersKnown-cons u us r h = ground (arith, h)

-- The status of a user is no part of a key.
any-raise :
    (a : String) (x : ℕ) (us : List UserRow) (id : String)
    → has_user (map (raise_status a x) us) id ≡ has_user us id
any-raise a x [] id = refl
any-raise a x (u ∷ us) id = ground (arith, any-raise a x us id)

raise-id : (a : String) (x : ℕ) (u : UserRow) → (raise_status a x u).id ≡ u.id
raise-id a x u = ground arith

Distinct-raise :
    (a : String) (x : ℕ) (us : List UserRow)
    → Distinct same_user us
    → Distinct same_user (map (raise_status a x) us)
Distinct-raise a x [] d = tt
Distinct-raise a x (u ∷ us) (h, d) = (
  ap (λ i. has_user (map (raise_status a x) us) i) (raise-id a x u) ∙ any-raise a x us u.id ∙ h,
  Distinct-raise a x us d,
)

pub has_user-set_status :
    (a : Option String) (x : ℕ) (us : List UserRow) (id : String)
    → has_user (set_status a x us) id ≡ has_user us id
unfolding set_status
has_user-set_status none x us id = refl
has_user-set_status (some a) x us id = any-raise a x us id

pub Distinct-set_status :
    (a : Option String) (x : ℕ) (us : List UserRow)
    → Distinct same_user us
    → Distinct same_user (set_status a x us)
unfolding set_status
Distinct-set_status none x us d = d
Distinct-set_status (some a) x us d = Distinct-raise a x us d

-- Nor is the text of a post.
pub any-set_content :
    (post_id user text id : String) (ps : List PostExtended)
    → any (λ q. q.id == id) (set_content post_id user text ps) ≡ any (λ q. q.id == id) ps
unfolding set_content
any-set_content post_id user text id [] = refl
any-set_content post_id user text id (p ∷ ps) =
    ground (arith, any-set_content post_id user text id ps)

pub Distinct-set_content :
    (post_id user text : String) (ps : List PostExtended)
    → Distinct same_post ps
    → Distinct same_post (set_content post_id user text ps)
unfolding set_content
Distinct-set_content post_id user text [] d = tt
Distinct-set_content post_id user text (p ∷ ps) (h, d) = (
  ground (arith, any-set_content post_id user text p.id ps),
  Distinct-set_content post_id user text ps d,
)

pub All-set_content :
    (users : List UserRow) (post_id user text : String) (ps : List PostExtended)
    → All (AuthorKnown users) ps
    → All (AuthorKnown users) (set_content post_id user text ps)
unfolding set_content
All-set_content users post_id user text [] d = tt
All-set_content users post_id user text (p ∷ ps) (h, d) =
    (ground (arith, h), All-set_content users post_id user text ps d)
