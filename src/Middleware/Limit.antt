-- ===== src/Middleware/Limit.antt =====
-- What the size limit lets through.
use openclaw_observatory.Prelude.{
  ℕ, zero, suc, ◌+◌, ◌≤◌, ◌≡◌, refl, Bool, true, false, Option, List, [], ◌∷◌, arith, Bool-cases,
  inl, inr, ltb, leb,
}
use openclaw_observatory.Prelude.Int.{ℤ}
use openclaw_observatory.Middleware.{
  Application, handled, is_refused, too_large, receive_all, limit_size,
}

not_handled : (b : Bool) (n : ℕ) → too_large b ≡ handled n → ⊥
not_handled true n h = ground arith
not_handled false n h = ground arith

receive_bounded :
    (max_bytes : ℕ) (app : Application) (n left received : ℕ) (sizes : List ℕ) (total : ℕ)
    → received ≤ max_bytes
    → receive_all max_bytes app n left received sizes ≡ handled total
    → total ≤ max_bytes
unfolding receive_all
receive_bounded max_bytes app n zero received sizes total le h = ground arith
receive_bounded max_bytes app n (suc left) received [] total le h = ground arith
receive_bounded max_bytes app n (suc left) received (size ∷ sizes) total le h =
    elim (Bool-cases (ltb max_bytes (received + size))) [
      | inl over ↦ absurd (not_handled (leb app.starts_after n) total (rw over at h))
      | inr fits ↦
          receive_bounded max_bytes app (suc n) left (received + size) sizes total
            (ground (arith, fits)) (rw fits at h)
    ]

abbrev pub sum : List ℕ → ℕ
sum [] = 0
sum (size ∷ sizes) = size + sum sizes

receive_fits :
    (max_bytes : ℕ) (app : Application) (n left received : ℕ) (sizes : List ℕ)
    → received + sum sizes ≤ max_bytes
    → (total : ℕ) × (receive_all max_bytes app n left received sizes ≡ handled total)
unfolding receive_all
receive_fits max_bytes app n zero received sizes le = (received, refl)
receive_fits max_bytes app n (suc left) received [] le = (received, refl)
receive_fits max_bytes app n (suc left) received (size ∷ sizes) le =
    let (total, e) =
      receive_fits max_bytes app (suc n) left (received + size) sizes (omega (arith, le)) in
    (total, ground (arith, e, le))

-- An application that runs to its end was given no more bytes than the limit, whatever the client
-- declared and however it cut the body up.
pub handled_within_limit :
    (max_bytes : ℕ) (app : Application) (content_length : Option ℤ) (sizes : List ℕ) (total : ℕ)
    → limit_size max_bytes app content_length sizes ≡ handled total
    → total ≤ max_bytes
unfolding limit_size
handled_within_limit max_bytes app content_length sizes total h =
    elim (Bool-cases (is_refused max_bytes content_length)) [
      | inl refused ↦ absurd (not_handled false total (rw refused at h))
      | inr open_end ↦
          receive_bounded max_bytes app 0 app.receives 0 sizes total (omega arith)
            (rw open_end at h)
    ]

-- A request whose body is within the limit, and whose declared length is too or is not declared, is
-- handled.
pub small_request_handled :
    (max_bytes : ℕ) (app : Application) (content_length : Option ℤ) (sizes : List ℕ)
    → is_refused max_bytes content_length ≡ false
    → sum sizes ≤ max_bytes
    → (total : ℕ) × (limit_size max_bytes app content_length sizes ≡ handled total)
unfolding limit_size
small_request_handled max_bytes app content_length sizes fits le =
    let (total, e) = receive_fits max_bytes app 0 app.receives 0 sizes (omega (arith, le)) in
    (total, ground (arith, fits, e))
