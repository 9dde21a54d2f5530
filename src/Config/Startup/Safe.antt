-- ===== src/Config/Startup/Safe.antt =====
-- The settings that the backend starts with.
use openclaw_observatory.Prelude.{
  ◌≡◌, ◌↔◌, inl, inr, refl, sym, ap, ◌∙◌, String, Bool, true, false, not, ◌==◌, ◌<◌, Option, none,
  some, List, [], ◌∷◌, ◌++◌, any, All, In, here, there, In-nil, In-cons, arith, eq_iff, Bool-cases,
}
use openclaw_observatory.Prelude.Text.{occurs_in}
use openclaw_observatory.Prelude.Text.Case.{upper}
use openclaw_observatory.Json.{Value}
use openclaw_observatory.Config.{Settings}
use openclaw_observatory.Config.Bindings.{Pairs, api_key_bindings}
use openclaw_observatory.Config.Startup.{
  Problem, placeholder_key, invalid_log_level, offline_timeout_too_short, bindings_problem,
  reported_if, known_bindings, placeholder_marker, valid_log_levels, has_placeholder,
  startup_problems, load_settings,
}

abbrev pub AllEdited : Pairs → Type 0
AllEdited bs = All (λ b. occurs_in placeholder_marker b.1 ≡ false) bs

any-In : (x : String) (xs : List String) → any (λ v. v == x) xs ≡ true → In x xs
any-In x [] h = absurd (ground (arith, h))
any-In x (v ∷ vs) h = elim (Bool-cases (v == x)) [
  | inl e ↦ here (sym ((eq_iff v x).0 e))
  | inr d ↦ there (any-In x vs (rw d at h))
]

In-any : (x : String) (xs : List String) → In x xs → any (λ v. v == x) xs ≡ true
In-any x [] m = absurd (In-nil m)
In-any x (v ∷ vs) m = elim (In-cons m) [
  | inl e ↦ rw ((eq_iff v x).1 (sym e)) refl
  | inr n ↦ ground (arith, In-any x vs n)
]

edited_of : (bs : Pairs) → has_placeholder bs ≡ false → AllEdited bs
edited_of [] h = tt
edited_of (b ∷ bs) h = (ground (arith, h), edited_of bs (ground (arith, h)))

of_edited : (bs : Pairs) → AllEdited bs → has_placeholder bs ≡ false
of_edited [] h = refl
of_edited (b ∷ bs) (e, h) = ground (arith, e, of_edited bs h)

none_of :
    (ps : List Problem) (s : Settings) → elim ps [ [] ↦ some s | _ ∷ _ ↦ none ] ≡ some s → ps ≡ []
none_of [] s h = refl
none_of (p ∷ ps) s h = absurd (ground (arith, h))

-- what the list of problems is computed from
abbrev problems : Option Pairs → Bool → Bool → Bool → List Problem
problems bindings placeholder level short =
    bindings_problem bindings
    ++ reported_if placeholder placeholder_key
    ++ reported_if (not level) invalid_log_level
    ++ reported_if short offline_timeout_too_short

no_problems :
    (bindings : Option Pairs) (placeholder level short : Bool)
    → problems bindings placeholder level short ≡ []
    → ((b : String × String) × (bs : Pairs) × (bindings ≡ some (b ∷ bs)))
      × (placeholder ≡ false)
      × (level ≡ true)
      × (short ≡ false)
no_problems none placeholder level short h = absurd (ground (arith, h))
no_problems (some []) placeholder level short h = absurd (ground (arith, h))
no_problems (some (b ∷ bs)) true level short h = absurd (ground (arith, h))
no_problems (some (b ∷ bs)) false false short h = absurd (ground (arith, h))
no_problems (some (b ∷ bs)) false true true h = absurd (ground (arith, h))
no_problems (some (b ∷ bs)) false true false h = ((b, bs, refl), refl, refl, refl)

module _ (loads : String → Option Value) where
  pub record IsSafe (s : Settings) : Type 0 where
    pub first : String × String
    pub rest : Pairs
    pub parsed : api_key_bindings loads s.api_keys ≡ some (first ∷ rest)
    pub edited : AllEdited (first ∷ rest)
    pub level : In (upper s.log_level) valid_log_levels
    pub timeout : s.heartbeat_interval < s.offline_timeout

  startup_problems-IsSafe : (s : Settings) → startup_problems loads s ≡ [] → IsSafe s
  unfolding startup_problems
  startup_problems-IsSafe s h =
      let ((b, bs, e), p, l, t) = no_problems (api_key_bindings loads s.api_keys) _ _ _ h in
      record {
        first = b;
        rest = bs;
        parsed = e;
        edited = edited_of (b ∷ bs) (ap has_placeholder (sym (ap known_bindings e)) ∙ p);
        level = any-In (upper s.log_level) valid_log_levels l;
        timeout = ground (arith, t);
      }

  IsSafe-startup_problems : (s : Settings) → IsSafe s → startup_problems loads s ≡ []
  unfolding startup_problems
  IsSafe-startup_problems s safe =
      rw
        (
          safe.parsed,
          of_edited (safe.first ∷ safe.rest) safe.edited,
          In-any (upper s.log_level) valid_log_levels safe.level,
        )
        (ground (arith, safe.timeout))

  -- The backend starts with the settings that it was given exactly if they are safe to serve with:
  -- `API_KEYS` parses to at least one binding, no key still holds the placeholder, the log level is
  -- one of the five, and the offline timeout exceeds the heartbeat interval.
  pub load_settings-IsSafe : (s : Settings) → (load_settings loads (some s) ≡ some s) ↔ IsSafe s
  unfolding load_settings
  load_settings-IsSafe s = (
    (λ h. startup_problems-IsSafe s (none_of (startup_problems loads s) s h)),
    (λ safe. ap (λ ps. elim ps [ [] ↦ some s | _ ∷ _ ↦ none ]) (IsSafe-startup_problems s safe)),
  )
