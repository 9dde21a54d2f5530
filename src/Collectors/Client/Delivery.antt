-- ===== src/Collectors/Client/Delivery.antt =====
-- What the delivery of one event does to the client.
use mathlib.Core.Path.{subst}
use mathlib.Core.List.{append-nil, append_assoc}
use openclaw_observatory.Prelude.{
  ℕ, zero, suc, ◌+◌, ◌*◌, ◌≤◌, ◌<◌, min, ◌≡◌, refl, sym, ap, ◌∙◌, ◌⊎◌, Bool, true, false, List, [],
  ◌∷◌, ◌++◌, length, length-append, All, arith, String, Bool-cases, inl, inr,
}
use openclaw_observatory.Json.{Fields}
use openclaw_observatory.Exec.{Exn, Result, ok, err}
use openclaw_observatory.Collectors.Client.{
  Reply, accepted, http_error, connection_error, uncaught, Body, Client, submit_loop, submit_event,
  is_retryable,
}

reply-cases :
    (r : Reply)
    → (r ≡ accepted)
      ⊎ ((r ≡ connection_error)
          ⊎ (((code : ℕ) × (r ≡ http_error code)) ⊎ ((e : Exn) × (r ≡ uncaught e))))
reply-cases accepted = inl refl
reply-cases connection_error = inr (inl refl)
reply-cases (http_error code) = inr (inr (inl (code, refl)))
reply-cases (uncaught e) = inr (inr (inr (e, refl)))

-- by how much a delivery raises the failure count
abbrev pub failures : Result Bool → ℕ
failures (ok true) = 0
failures (ok false) = 1
failures (err e) = 0

-- What one delivery did to the client.
pub record Delivered (post : ℕ → Reply) (limit : ℕ) (result : Result Bool) (c c' : Client)
    : Type 0 where
  -- a failure is counted once, a success and an escaping exception not at all
  pub counted : c'.failures_total ≡ c.failures_total + failures result
  -- at least one request, and no more than allowed
  pub tried : length c.sent + 1 ≤ length c'.sent
  pub bounded : length c'.sent ≤ length c.sent + limit
  -- one pause between two requests
  pub paused : length c'.slept + length c.sent + 1 ≡ length c.slept + length c'.sent
  -- the pauses are of 30 s at most
  pub pauses : (added : List ℕ) × (c'.slept ≡ c.slept ++ added) × All (λ d. d ≤ 30000000) added
  -- an exception that escapes is that of the last request
  pub escaped :
      (e : Exn) → result ≡ err e → (n : ℕ) × (length c'.sent ≡ n + 1) × (post n ≡ uncaught e)

abbrev posted_by : Client → Body → Client
posted_by c body = record c { sent = c.sent ++ body ∷ [] }

abbrev paused_by : Client → Body → ℕ → Client
paused_by c body delay = record c { sent = c.sent ++ body ∷ []; slept = c.slept ++ delay ∷ [] }

-- a delivery that ends with the request just made
ended-Delivered :
    (post : ℕ → Reply) (left : ℕ) (body : Body) (r : Result Bool) (c : Client)
    → ((e : Exn) → r ≡ err e → post (length c.sent) ≡ uncaught e)
    → Delivered post
        (suc left)
        r
        c
        (record (posted_by c body) { failures_total = c.failures_total + failures r })
ended-Delivered post left body r c escapes = record {
  counted = refl;
  tried = omega (arith, length-append c.sent (body ∷ []));
  bounded = omega (arith, length-append c.sent (body ∷ []));
  paused = omega (arith, length-append c.sent (body ∷ []));
  pauses = ([], sym (append-nil c.slept), tt);
  escaped = λ e q. (length c.sent, length-append c.sent (body ∷ []), escapes e q);
}

again-Delivered :
    (post : ℕ → Reply) (limit delay : ℕ) (body : Body) (r : Result Bool) (c c' : Client)
    → delay ≤ 30000000
    → Delivered post limit r (paused_by c body delay) c'
    → Delivered post (suc limit) r c c'
again-Delivered post limit delay body r c c' h d =
    let sent = length-append c.sent (body ∷ []) in
    let slept = length-append c.slept (delay ∷ []) in
    let (added, e, bound) = d.pauses in
    record {
      counted = d.counted;
      tried = omega (arith, sent, d.tried);
      bounded = omega (arith, sent, d.bounded);
      paused = omega (arith, sent, slept, d.paused);
      pauses = (delay ∷ added, e ∙ append_assoc c.slept (delay ∷ []) added, (h, bound));
      escaped = d.escaped;
    }

-- What a retry may mend.
abbrev pub IsTransient : Reply → Type 0
IsTransient (uncaught e) = ⊥
IsTransient accepted = ⊥
IsTransient (http_error code) = is_retryable code ≡ true
IsTransient connection_error = Unit

plus_zero : (n : ℕ) → n + 0 ≡ n
plus_zero n = omega arith

next_index :
    (i : ℕ) (c : Client) (body : Body) → length (c.sent ++ body ∷ []) + i ≡ length c.sent + suc i
next_index i c body = omega (arith, length-append c.sent (body ∷ []))

module _ (post : ℕ → Reply) where
  abbrev ended : Result Bool → Body → Client → Result Bool × Client
  ended r body c = (r, record (posted_by c body) { failures_total = c.failures_total + failures r })

  accepted_step :
      (left delay : ℕ) (body : Body) (c : Client)
      → post (length c.sent) ≡ accepted
      → submit_loop post (suc left) delay body c ≡ ended (ok true) body c
  unfolding submit_loop
  accepted_step left delay body c e = ground (arith, e)

  uncaught_step :
      (left delay : ℕ) (body : Body) (c : Client) (x : Exn)
      → post (length c.sent) ≡ uncaught x
      → submit_loop post (suc left) delay body c ≡ ended (err x) body c
  unfolding submit_loop
  uncaught_step left delay body c x e = ground (arith, e)

  last_connection :
      (delay : ℕ) (body : Body) (c : Client)
      → post (length c.sent) ≡ connection_error
      → submit_loop post 1 delay body c ≡ ended (ok false) body c
  unfolding submit_loop
  last_connection delay body c e = ground (arith, e)

  last_status :
      (delay : ℕ) (body : Body) (c : Client) (code : ℕ)
      → post (length c.sent) ≡ http_error code
      → submit_loop post 1 delay body c ≡ ended (ok false) body c
  unfolding submit_loop
  last_status delay body c code e = ground (arith, e)

  refused_step :
      (left delay : ℕ) (body : Body) (c : Client) (code : ℕ)
      → post (length c.sent) ≡ http_error code
      → is_retryable code ≡ false
      → submit_loop post (suc left) delay body c ≡ ended (ok false) body c
  unfolding submit_loop
  refused_step left delay body c code e f = ground (arith, e, f)

  again_step :
      (left delay : ℕ) (body : Body) (c : Client)
      → IsTransient (post (length c.sent))
      → submit_loop post (suc (suc left)) delay body c
        ≡ submit_loop post (suc left) (min (delay * 2) 30000000) body (paused_by c body delay)
  unfolding submit_loop
  again_step left delay body c t = elim (reply-cases (post (length c.sent))) [
    | inl e ↦ absurd (rw e at t)
    | inr (inl e) ↦ ground (arith, e)
    | inr (inr (inl (code, e))) ↦ ground (arith, e, (rw e at t))
    | inr (inr (inr (x, e))) ↦ absurd (rw e at t)
  ]

  -- a delivery that ended at this request and did not raise
  quiet-Delivered :
      (left : ℕ) (body : Body) (b : Bool) (c : Client)
      → let (r, c') = ended (ok b) body c in Delivered post (suc left) r c c'
  quiet-Delivered left body b c = ended-Delivered post left body (ok b) c (λ e q. absurd (cc q))

  raised-Delivered :
      (left : ℕ) (body : Body) (x : Exn) (c : Client)
      → post (length c.sent) ≡ uncaught x
      → let (r, c') = ended (err x) body c in Delivered post (suc left) r c c'
  raised-Delivered left body x c h =
      ended-Delivered post left body (err x) c (λ e q. h ∙ ap uncaught (cc q))

  loop-Delivered :
      (left delay : ℕ) (body : Body) (c : Client)
      → delay ≤ 30000000
      → let (r, c') = submit_loop post (suc left) delay body c in Delivered post (suc left) r c c'
  loop-Delivered zero delay body c h = elim (reply-cases (post (length c.sent))) [
    | inl e ↦ rw (accepted_step zero delay body c e) (quiet-Delivered zero body true c)
    | inr (inl e) ↦ rw (last_connection delay body c e) (quiet-Delivered zero body false c)
    | inr (inr (inl (code, e))) ↦
        rw (last_status delay body c code e) (quiet-Delivered zero body false c)
    | inr (inr (inr (x, e))) ↦
        rw (uncaught_step zero delay body c x e) (raised-Delivered zero body x c e)
  ]
  loop-Delivered (suc left) delay body c h =
      let c' = paused_by c body delay in
      let ih = loop-Delivered left (min (delay * 2) 30000000) body c' (omega arith) in
      let d = again-Delivered post (suc left) delay body _ c _ h ih in
      elim (reply-cases (post (length c.sent))) [
        | inl e ↦
            rw (accepted_step (suc left) delay body c e) (quiet-Delivered (suc left) body true c)
        | inr (inl e) ↦ rw (again_step left delay body c (rw e tt)) d
        | inr (inr (inr (x, e))) ↦
            rw (uncaught_step (suc left) delay body c x e) (raised-Delivered (suc left) body x c e)
        | inr (inr (inl (code, e))) ↦ elim (Bool-cases (is_retryable code)) [
          | inl t ↦ rw (again_step left delay body c (rw e t)) d
          | inr f ↦
              rw (refused_step (suc left) delay body c code e f)
                (quiet-Delivered (suc left) body false c)
        ]
      ]

  -- Whatever each request comes to, an exception that `submit_event` does not catch included, a
  -- delivery makes between one request and `max_retries + 1` of them, with one pause of at most 30 s
  -- between two. The failure count goes up by one exactly if it returns False, and an exception that
  -- escapes is that of its last request.
  pub submit_event-Delivered :
      (event_type : String) (payload : Fields) (schema_version timestamp : ℕ) (c : Client)
      → let (r, c') = submit_event post event_type payload schema_version timestamp c in
        Delivered post (suc c.max_retries) r c c'
  unfolding submit_event
  submit_event-Delivered event_type payload schema_version timestamp c =
      loop-Delivered c.max_retries 1000000 _ c (omega arith)

  -- A status that is not worth a retry, as 403 or 422, ends the delivery at its first request.
  client_error_not_retried :
      (event_type : String) (payload : Fields) (schema_version timestamp : ℕ) (c : Client)
      (code : ℕ)
      → post (length c.sent) ≡ http_error code
      → is_retryable code ≡ false
      → let (r, c') = submit_event post event_type payload schema_version timestamp c in
        (r ≡ ok false)
        × (length c'.sent ≡ length c.sent + 1)
        × (c'.slept ≡ c.slept)
        × (c'.failures_total ≡ c.failures_total + 1)
  unfolding submit_event
  client_error_not_retried event_type payload schema_version timestamp c code e f =
      rw (refused_step c.max_retries 1000000 _ c code e f)
        (refl, length-append c.sent _, refl, omega arith)

  loop_delivers :
      (k left delay : ℕ) (body : Body) (c : Client)
      → k ≤ left
      → ((i : ℕ) → i < k → IsTransient (post (length c.sent + i)))
      → post (length c.sent + k) ≡ accepted
      → let (r, c') = submit_loop post (suc left) delay body c in
        (r ≡ ok true) × (length c'.sent ≡ length c.sent + k + 1)
  loop_delivers zero left delay body c le before last =
      rw (accepted_step left delay body c (ap post (sym (plus_zero (length c.sent))) ∙ last))
        (refl, omega (arith, length-append c.sent (body ∷ [])))
  loop_delivers (suc k) zero delay body c le before last = absurd (omega (arith, le))
  loop_delivers (suc k) (suc left) delay body c le before last =
      let c' = paused_by c body delay in
      let ih =
        loop_delivers k left (min (delay * 2) 30000000) body c' (omega (arith, le))
          (λ i lt.
            subst IsTransient (ap post (sym (next_index i c body)))
              (before (suc i) (omega (arith, lt))))
          (ap post (next_index k c body) ∙ last) in
      rw
        (again_step left delay body c
          (subst IsTransient (ap post (plus_zero (length c.sent))) (before 0 (omega arith))))
        (ih.0, omega (arith, ih.1, length-append c.sent (body ∷ [])))

  -- If the k-th request after the first is accepted, k is within the retries, and each request before
  -- it meets a connection error or a status worth a retry, then the event is delivered by that
  -- request.
  pub transient_failures_overcome :
      (event_type : String) (payload : Fields) (schema_version timestamp k : ℕ) (c : Client)
      → k ≤ c.max_retries
      → ((i : ℕ) → i < k → IsTransient (post (length c.sent + i)))
      → post (length c.sent + k) ≡ accepted
      → let (r, c') = submit_event post event_type payload schema_version timestamp c in
        (r ≡ ok true) × (length c'.sent ≡ length c.sent + k + 1)
  unfolding submit_event
  transient_failures_overcome event_type payload schema_version timestamp k c le before last =
      loop_delivers k c.max_retries 1000000 _ c le before last
