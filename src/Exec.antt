-- ===== src/Exec.antt =====
-- A method call: it returns or raises, and the state comes back either way, since what was written
-- before a raise stays written. The texts of exceptions and log lines are left out.
use openclaw_observatory.Prelude.{
  ℕ, String, Bool, Option, none, some, ◌≡◌, refl, ap, ◌⊎◌, inl, inr, if◌then◌else◌,
}

pub data Exn : Type 0 where
  -- app.services.pipeline.PipelineRejection(status_code, reason)
  pipeline_rejection : ℕ → String → Exn
  -- app.storage.base.StorageError
  storage_error : Exn
  -- fastapi.HTTPException(status_code)
  http_exception : ℕ → Exn
  -- Python's KeyError, ValueError, ZeroDivisionError, IndexError and OverflowError
  key_error : Exn
  value_error : Exn
  zero_division : Exn
  index_error : Exn
  overflow_error : Exn
  -- observatory_collectors.config.ConfigError
  config_error : Exn
  -- http.client.HTTPException, as IncompleteRead or BadStatusLine: no OSError
  http_protocol_error : Exn

pub data Result {ℓ} (A : Type ℓ) : Type ℓ where
  ok : A → Result A
  err : Exn → Result A

pub Result-cases {ℓ} :
    {A : Type ℓ} (r : Result A) → ((a : A) × (r ≡ ok a)) ⊎ ((e : Exn) × (r ≡ err e))
Result-cases (ok a) = inl (a, refl)
Result-cases (err e) = inr (e, refl)

abbrev pub Exec : Type 0 → Type 0 → Type 0
Exec S A = S → Result A × S

module _ {S A : Type 0} where
  abbrev pub pure : A → Exec S A
  pure a s = (ok a, s)

  abbrev pub raise : Exn → Exec S A
  raise e s = (err e, s)

module _ {S : Type 0} where
  abbrev pub modify : (S → S) → Exec S (Unit {0})
  modify f s = (ok tt, f s)

  abbrev pub raise_if : Bool → Exn → Exec S (Unit {0})
  raise_if b e s = (if b then err e else ok tt, s)

infixl 5 ◌>>=◌ ◌>>◌
abbrev pub ◌>>=◌ : {S A B : Type 0} → Exec S A → (A → Exec S B) → Exec S B
◌>>=◌ m f s = let (r, s') = m s in elim r [ ok a ↦ f a s' | err e ↦ (err e, s') ]

abbrev pub ◌>>◌ : {S A B : Type 0} → Exec S A → Exec S B → Exec S B
m >> k = m >>= λ _. k

module _ {S A B : Type 0} (m : Exec S A) (k : Exec S B) (s : S) where
  pub then_ok : {s' : S} {a : A} → m s ≡ (ok a, s') → (m >> k) s ≡ k s'
  then_ok e = ap (λ r. elim r.0 [ ok a ↦ k r.1 | err e ↦ (err e, r.1) ]) e

  pub then_err : {s' : S} {e : Exn} → m s ≡ (err e, s') → (m >> k) s ≡ (err e, s')
  then_err e = ap (λ r. elim r.0 [ ok a ↦ k r.1 | err e ↦ (err e, r.1) ]) e

-- `try: m; except E: h`: `handles e` is the handler's body where it catches `e`.
abbrev pub try_except : {S A : Type 0} → Exec S A → (Exn → Option (Exec S A)) → Exec S A
try_except m handles s =
    let (r, s') = m s in
    elim r [ ok a ↦ (ok a, s') | err e ↦ elim (handles e) [ none ↦ (err e, s') | some h ↦ h s' ] ]

-- `except StorageError`
abbrev pub on_storage_error : {S A : Type 0} → Exec S A → Exn → Option (Exec S A)
on_storage_error h storage_error = some h
on_storage_error h _ = none
