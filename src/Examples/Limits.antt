-- ===== src/Examples/Limits.antt =====
-- The request size limit at concrete requests.
use openclaw_observatory.Prelude.{ℕ, ◌≤◌, ◌≡◌, refl, none, some, [], ◌∷◌, arith}
use openclaw_observatory.Prelude.Int.{pos}
use openclaw_observatory.Middleware.{Application, handled, receive_all, limit_size}
use openclaw_observatory.Middleware.Limit.{handled_within_limit, small_request_handled}

abbrev eager : Application
eager = record { receives = 3; starts_after = 3 }

two_chunks_handled : limit_size 10 eager (some (pos 7)) (3 ∷ 4 ∷ []) ≡ handled 7
unfolding limit_size receive_all
two_chunks_handled = refl

handled_within_limit_example : 7 ≤ 10
handled_within_limit_example =
    handled_within_limit 10 eager (some (pos 7)) (3 ∷ 4 ∷ []) 7 two_chunks_handled

small_request_handled_example :
    (total : ℕ) × (limit_size 10 eager none (3 ∷ 4 ∷ []) ≡ handled total)
small_request_handled_example = small_request_handled 10 eager none (3 ∷ 4 ∷ []) refl (omega arith)
