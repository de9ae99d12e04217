-- ===== src/Middleware/Counting.antt =====
-- What the counters say of the requests that were served.
use otus_highload.Base.{
  ℕ, String, ◌≡◌, refl, Bool, List, [], ◌∷◌, ◌==◌, ◌&&◌, eqb, leb, count_if, arith, if◌then◌else◌,
}
use otus_highload.Middleware.{Exchange, status_of, path_of, Metrics, metrics_middleware}

abbrev pub no_requests : Metrics
no_requests = record { requests = λ p s. 0; errors = λ p s. 0; observed = λ p s. 0 }

-- The requests one after another, the last one first in the list.
abbrev pub counted : List Exchange → Metrics
counted [] = no_requests
counted (r ∷ rs) = metrics_middleware r (counted rs)

abbrev pub labelled : String → ℕ → Exchange → Bool
labelled path status r = (path_of r.template == path) && eqb (status_of r) status

-- After any requests from counters at zero, the counter of requests and the histogram of a path and a
-- status hold how many requests of that path were recorded with that status, and the counter of errors
-- holds as many where the status is at least 400, and none where it is less.
pub counted-count_if :
    (rs : List Exchange) (path : String) (status : ℕ)
    → ((counted rs).requests path status ≡ count_if (labelled path status) rs)
      × ((counted rs).observed path status ≡ count_if (labelled path status) rs)
      × ((counted rs).errors path status
          ≡ (if leb 400 status then count_if (labelled path status) rs else 0))
unfolding metrics_middleware
counted-count_if [] path status = (refl, refl, ground arith)
counted-count_if (r ∷ rs) path status =
    let (requests, observed, errors) = counted-count_if rs path status in
    (ground (arith, requests), ground (arith, observed), ground (arith, errors))
