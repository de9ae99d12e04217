-- ===== src/Queue/Headers.antt =====
-- What a consumer reads of the headers of a publisher.
use otus_highload.Base.{
  String, ◌≡◌, refl, Bool, true, false, ◌&&◌, List, [], ◌∷◌, any, not, ◌==◌, eq_iff, All, arith,
}
use otus_highload.Queue.{Value, text, no_text, Delivery, get_header, get_message, publishing}

abbrev has_key : String → List (String × Value) → Bool
has_key k xs = any (λ x. x.0 == k) xs

-- No key stands in a table twice.
abbrev pub distinct : List (String × Value) → Bool
distinct [] = true
distinct ((k, v) ∷ xs) = not (has_key k xs) && distinct xs

abbrev is_text : String → Value → Bool
is_text s (text t) = t == s
is_text s no_text = false

abbrev is_entry : String × Value → String × Value → Bool
is_entry (k, text s) (j, v) = (j == k) && is_text s v
is_entry (k, no_text) (j, v) = false

abbrev pub Holds : List (String × Value) → String × Value → Type 0
Holds table entry = any (is_entry entry) table ≡ true

entry-key :
    (name s : String) (xs : List (String × Value))
    → any (is_entry (name, text s)) xs ≡ true
    → has_key name xs ≡ true
entry-key name s [] h = cc
entry-key name s ((k, v) ∷ xs) h = ground (arith, entry-key name s xs)

get_header-entry :
    (name s : String) (xs : List (String × Value))
    → distinct xs ≡ true
    → any (is_entry (name, text s)) xs ≡ true
    → get_header xs name ≡ s
unfolding get_header
get_header-entry name s [] d h = cc
get_header-entry name s ((k, text t) ∷ xs) d h =
    ground (arith, get_header-entry name s xs, entry-key name s xs, eq_iff k name, eq_iff t s)
get_header-entry name s ((k, no_text) ∷ xs) d h =
    ground (arith, get_header-entry name s xs, entry-key name s xs, eq_iff k name)

-- A consumer reads the body and the three identifiers that a publisher sent, in whatever order the
-- table of headers is met and whatever other keys are in it, if no key is in it twice.
pub get_message-publishing :
    {Body : Type 0} (trace span request : String) (body : Body) (d : Delivery Body)
    → d.body ≡ body
    → distinct d.headers ≡ true
    → All (Holds d.headers) (publishing trace span request body).headers
    → get_message d ≡ record { body = body; trace_id = trace; span_id = span; request_id = request }
unfolding get_message publishing
get_message-publishing trace span request body d same keys h =
    rw
      (
        same,
        get_header-entry _ trace d.headers keys h.0,
        get_header-entry _ span d.headers keys h.1.0,
        get_header-entry _ request d.headers keys h.1.1.0,
      )
      refl
