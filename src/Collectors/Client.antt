-- ===== src/Collectors/Client.antt =====
-- `ObservatoryClient` of collectors/observatory_collectors/client.py. The network is `post`: what the
-- n-th request of the client comes to. Delays are microseconds.
pub mod Delivery
use openclaw_observatory.Prelude.{
  ℕ, zero, suc, ◌*◌, min, String, Bool, true, false, ◌&&◌, List, [], ◌∷◌, ◌++◌, any, length, nat_eq,
  ltb, if◌then◌else◌,
}
use openclaw_observatory.Json.{Fields}
use openclaw_observatory.Exec.{Exec, Exn, ok, err}

-- What the `except` clauses tell apart, and what none of them catches.
pub data Reply : Type 0 where
  accepted : Reply
  -- urllib.error.HTTPError
  http_error : ℕ → Reply
  -- URLError, OSError, TimeoutError
  connection_error : Reply
  -- any other exception of the request, as an http.client.HTTPException
  uncaught : Exn → Reply

-- the JSON document that is sent
pub record Body : Type 0 where
  pub collector_id : String
  pub timestamp : ℕ
  pub event_type : String
  pub schema_version : ℕ
  pub payload : Fields

-- The client: its configuration, its counter, and what it did, newest last.
pub record Client : Type 0 where
  pub fleet_id : String
  pub max_retries : ℕ
  pub failures_total : ℕ
  pub sent : List Body
  pub slept : List ℕ

abbrev pub retryable_statuses : List ℕ
retryable_statuses = 500 ∷ 502 ∷ 503 ∷ 504 ∷ []

abbrev pub is_retryable : ℕ → Bool
is_retryable code = any (nat_eq code) retryable_statuses

abbrev pub give_up : Exec Client Bool
give_up c = (ok false, record c { failures_total = suc c.failures_total })

module _ (post : ℕ → Reply) where
  -- The loop of `submit_event` with the attempts that are left; `attempt < attempts` while more
  -- than this one are.
  unfoldable pub submit_loop : ℕ → ℕ → Body → Exec Client Bool
  submit_loop zero delay body c = (ok false, c)
  submit_loop (suc left) delay body c =
      let posted : Client = record c { sent = c.sent ++ body ∷ [] } in
      let again =
        submit_loop left (min (delay * 2) 30000000) body
          (record posted { slept = posted.slept ++ delay ∷ [] }) in
      elim (post (length c.sent)) [
        | accepted ↦ (ok true, posted)
        | http_error code ↦ if is_retryable code && ltb 0 left then again else give_up posted
        | connection_error ↦ if ltb 0 left then again else give_up posted
        | uncaught e ↦ (err e, posted)
      ]

  -- `timestamp` is the given one, or what the clock shows.
  unfoldable pub submit_event : String → Fields → ℕ → ℕ → Exec Client Bool
  unfolding submit_loop
  submit_event event_type payload schema_version timestamp c =
      submit_loop (suc c.max_retries) 1000000
        (record {
          collector_id = c.fleet_id;
          timestamp = timestamp;
          event_type = event_type;
          schema_version = schema_version;
          payload = payload;
        })
        c
