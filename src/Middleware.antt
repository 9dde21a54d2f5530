-- ===== src/Middleware.antt =====
-- `RequestSizeLimitMiddleware` of backend/app/middleware.py for an HTTP scope. The wrapped
-- application is a parameter: how many body messages it receives, and after how many of them it
-- starts its response.
pub mod Limit
use openclaw_observatory.Prelude.{
  ℕ, zero, suc, ◌+◌, ltb, leb, Bool, true, false, ◌||◌, Option, none, some, List, [], ◌∷◌,
  if◌then◌else◌,
}
use openclaw_observatory.Prelude.Int.{ℤ, pos, negsuc}

pub record Application : Type 0 where
  pub receives : ℕ
  pub starts_after : ℕ

pub data Outcome : Type 0 where
  -- the application ran to its end and was given that many bytes
  handled : ℕ → Outcome
  -- 413 was sent
  rejected : Outcome
  -- `BodyTooLargeError` went on to the server, since the response had started
  broken_off : Outcome

-- `int(content_length)`, where -1 stands for a header that is no number
abbrev pub is_refused : ℕ → Option ℤ → Bool
is_refused max_bytes none = false
is_refused max_bytes (some (pos declared)) = ltb max_bytes declared
is_refused max_bytes (some (negsuc _)) = true

abbrev pub too_large : Bool → Outcome
too_large response_started = if response_started then broken_off else rejected

-- `counting_receive` once for each message that the application receives; `n` are behind it.
unfoldable pub receive_all : ℕ → Application → ℕ → ℕ → ℕ → List ℕ → Outcome
receive_all max_bytes app n zero received sizes = handled received
receive_all max_bytes app n (suc left) received [] = handled received
receive_all max_bytes app n (suc left) received (size ∷ sizes) =
    let rest = receive_all max_bytes app (suc n) left (received + size) sizes in
    if ltb max_bytes (received + size) then too_large (leb app.starts_after n) else rest

-- `__call__`
unfoldable pub limit_size : ℕ → Application → Option ℤ → List ℕ → Outcome
unfolding receive_all
limit_size max_bytes app content_length sizes =
    if is_refused max_bytes content_length
    then rejected
    else receive_all max_bytes app 0 app.receives 0 sizes
