-- ===== src/Collectors/Configuration/Valid.antt =====
-- What a collector's configuration has been checked for.
use openclaw_observatory.Prelude.{
  ◌≡◌, ◌≢◌, inl, inr, refl, String, Bool, true, false, not, ◌==◌, Option, arith, eq_iff, Bool-cases,
}
use openclaw_observatory.Prelude.Dict.{Dict}
use openclaw_observatory.Prelude.Text.{occurs_in}
use openclaw_observatory.Exec.{Result, ok, err, Result-cases}
use openclaw_observatory.Collectors.Configuration.{
  Float, Timing, timing_from, not_positive, setting, CollectorConfig, placeholder_marker, is_http,
  float_env, from_env, unless, checked_key, fleet_from, url_from, finite, to_int, api_key_from,
}
use openclaw_observatory.Prelude.Text.{rstrip_by}
use openclaw_observatory.Prelude.Int.{pos}
use mathlib.Core.Path.{subst}
use openclaw_observatory.Prelude.{nat_eq, Option-cases, ◌||◌}

unfoldable Ensures : {A : Type 0} → (A → Type 0) → Result A → Type 0
Ensures P (ok a) = P a
Ensures P (err e) = Unit

ensured : {A : Type 0} {r : Result A} (P : A → Type 0) {a : A} → Ensures P r → r ≡ ok a → P a
unfolding Ensures
ensured P p e = subst (Ensures P) e p

not_blank : (s : String) → (s == "") ≡ false → s ≢ ""
not_blank s h e = absurd (ground (arith, h, (eq_iff s "").1 e))

abbrev IsPositive : Float → Type 0
IsPositive value = not_positive value ≡ false

module _ (to_float : String → Option Float) where
  float_env-IsPositive :
      (env : Dict String) (name : String) (default : Float)
      → IsPositive default
      → Ensures IsPositive (float_env to_float env name default)
  unfolding float_env Ensures
  float_env-IsPositive env name default d = elim (Bool-cases (setting env name "" == "")) [
    | inl b ↦ rw b d
    | inr b ↦ elim (Option-cases (to_float (setting env name ""))) [
      | inl n ↦ rw (b, n) tt
      | inr (value, v) ↦ elim (Bool-cases (not_positive value)) [
        | inl t ↦ rw (b, v, t) tt
        | inr f ↦ rw (b, v, f) f
      ]
    ]
  ]

abbrev IsKey : String → Type 0
IsKey key = (key ≢ "") × (occurs_in placeholder_marker key ≡ false)

unless-Ensures :
    (P : String → Type 0) (refused : Bool) (value : String)
    → (refused ≡ false → P value)
    → Ensures P (unless refused value)
unfolding Ensures
unless-Ensures P true value p = tt
unless-Ensures P false value p = p refl

checked_key-IsKey :
    (read_file : String → Option String) (env : Dict String)
    → Ensures IsKey (checked_key read_file env)
unfolding checked_key Ensures
checked_key-IsKey read_file env = elim (Result-cases (api_key_from read_file env)) [
  | inr (e, q) ↦ rw q tt
  | inl (key, q) ↦ rw q (
      unless-Ensures IsKey (key == "" || occurs_in placeholder_marker key) key
        (λ h. (not_blank key (ground (arith, h)), ground (arith, h))))
]

fleet_from-given : (env : Dict String) → Ensures (λ f. f ≢ "") (fleet_from env)
unfolding fleet_from
fleet_from-given env =
    unless-Ensures (λ f. f ≢ "") (setting env "FLEET_ID" "" == "") (setting env "FLEET_ID" "")
      (not_blank (setting env "FLEET_ID" ""))

url_from-http : (env : Dict String) → Ensures (λ u. is_http u ≡ true) (url_from env)
unfolding url_from
url_from-http env =
    let url = rstrip_by (nat_eq b'/') (setting env "OBSERVATORY_URL" "http://127.0.0.1:8000") in
    unless-Ensures (λ u. is_http u ≡ true) (not (is_http url)) url (λ h. ground (arith, h))

pub record HasPositive (t : Timing) : Type 0 where
  pub heartbeat : IsPositive t.heartbeat_interval
  pub telemetry : IsPositive t.telemetry_interval
  pub mission_poll : IsPositive t.mission_poll_interval
  pub inventory : IsPositive t.inventory_interval
  pub timeout : IsPositive t.request_timeout

pub record IsValid (c : CollectorConfig) : Type 0 where
  pub key : IsKey c.api_key
  pub fleet : c.fleet_id ≢ ""
  pub url : is_http c.observatory_url ≡ true
  pub timing : HasPositive c.timing

module _ (to_float : String → Option Float) where
  interval :
      (env : Dict String) (name : String) (default : Float) {value : Float}
      → IsPositive default
      → float_env to_float env name default ≡ ok value
      → IsPositive value
  interval env name default d q =
      ensured IsPositive (float_env-IsPositive to_float env name default d) q

  timing_from-HasPositive : (env : Dict String) → Ensures HasPositive (timing_from to_float env)
  unfolding timing_from Ensures
  timing_from-HasPositive env =
      elim (Result-cases (float_env to_float env "HEARTBEAT_INTERVAL" (finite (pos 30000000)))) [
        | inr (e, q) ↦ rw (q) tt
        | inl (heartbeat, q0) ↦
            elim (Result-cases (float_env to_float env "TELEMETRY_INTERVAL" heartbeat)) [
              | inr (e, q) ↦ rw (q0, q) tt
              | inl (telemetry, q1) ↦
                  elim (Result-cases
                    (float_env to_float env "MISSION_POLL_INTERVAL" (finite (pos 60000000)))) [
                      | inr (e, q) ↦ rw (q0, q1, q) tt
                      | inl (poll, q2) ↦
                          elim (Result-cases (
                            float_env to_float env "INVENTORY_INTERVAL"
                              (finite (pos 3600000000)))) [
                                | inr (e, q) ↦ rw (q0, q1, q2, q) tt
                                | inl (inventory, q3) ↦
                                    elim (Result-cases (
                                      float_env to_float env "REQUEST_TIMEOUT"
                                        (finite (pos 10000000)))) [
                                          | inr (e, q) ↦ rw (q0, q1, q2, q3, q) tt
                                          | inl (timeout, q4) ↦
                                              elim (Result-cases (
                                                float_env to_float env "MAX_RETRIES"
                                                  (finite (pos 3000000)))) [
                                                    | inr (e, q) ↦ rw (q0, q1, q2, q3, q4, q) tt
                                                    | inl (retries, q5) ↦
                                                        elim (Result-cases (to_int retries)) [
                                                          | inr (e, q) ↦
                                                            rw (q0, q1, q2, q3, q4, q5, q) tt
                                                          | inl (max_retries, q6) ↦
                                                            rw (q0, q1, q2, q3, q4, q5, q6)
                                                            (let h =
                                                            interval env "HEARTBEAT_INTERVAL"
                                                            (finite (pos 30000000)) refl q0 in
                                                            record {
                                                            heartbeat = h;
                                                            telemetry =
                                                            interval env "TELEMETRY_INTERVAL"
                                                            heartbeat h q1;
                                                            mission_poll =
                                                            interval env "MISSION_POLL_INTERVAL"
                                                            (finite (pos 60000000)) refl q2;
                                                            inventory =
                                                            interval env "INVENTORY_INTERVAL"
                                                            (finite (pos 3600000000)) refl q3;
                                                            timeout =
                                                            interval env "REQUEST_TIMEOUT"
                                                            (finite (pos 10000000)) refl q4;
                                                            })
                                                        ]
                                                  ]
                                        ]
                              ]
                    ]
            ]
      ]

module _ (to_float : String → Option Float) (read_file : String → Option String) where
  from_env-Ensures :
      (env : Dict String) (default_name : String)
      → Ensures IsValid (from_env to_float read_file env default_name)
  unfolding from_env Ensures
  from_env-Ensures env default_name = elim (Result-cases (checked_key read_file env)) [
    | inr (e, q) ↦ rw (q) tt
    | inl (key, q0) ↦ elim (Result-cases (fleet_from env)) [
      | inr (e, q) ↦ rw (q0, q) tt
      | inl (fleet, q1) ↦ elim (Result-cases (url_from env)) [
        | inr (e, q) ↦ rw (q0, q1, q) tt
        | inl (url, q2) ↦ elim (Result-cases (timing_from to_float env)) [
          | inr (e, q) ↦ rw (q0, q1, q2, q) tt
          | inl (timing, q3) ↦
              rw (q0, q1, q2, q3)
                (record {
                  key = ensured IsKey (checked_key-IsKey read_file env) q0;
                  fleet = ensured (λ f. f ≢ "") (fleet_from-given env) q1;
                  url = ensured (λ u. is_http u ≡ true) (url_from-http env) q2;
                  timing = ensured HasPositive (timing_from-HasPositive to_float env) q3;
                })
        ]
      ]
    ]
  ]

  -- A configuration that is read from the environment has a key that is not blank and not the
  -- placeholder, a fleet identity and an http(s) address, and none of its intervals is zero or below.
  pub from_env-IsValid :
      (env : Dict String) (default_name : String) (c : CollectorConfig)
      → from_env to_float read_file env default_name ≡ ok c
      → IsValid c
  unfolding Ensures
  from_env-IsValid env default_name c h =
      subst (Ensures IsValid) h (from_env-Ensures env default_name)
