-- ===== src/Collectors/Inventory/Cadence.antt =====
-- How often inventories are sent.
use openclaw_observatory.Prelude.{
  ℕ, ◌+◌, ◌≤◌, ◌<◌, ◌≡◌, ◌≢◌, ◌⊎◌, refl, ap, String, some, List, [], ◌∷◌, All, arith, eq_iff, inl,
  inr, head?,
}
use openclaw_observatory.Collectors.Inventory.{InventoryTelemetry, Poll, produce, sent_at}

-- the telemetry after it sent `signature` at `at`
abbrev pub SentAt : ℕ → String → InventoryTelemetry → Type 0
SentAt at signature t = (t.last_sent ≡ some at) × (t.last_signature ≡ some signature)

-- Each instant stands at least an interval after the one before it.
abbrev pub Spaced : ℕ → ℕ → List ℕ → Type 0
Spaced interval last [] = Unit
Spaced interval last (x ∷ xs) = (last + interval ≤ x) × Spaced interval x xs

quiet_step :
    (p : Poll) (ps : List Poll) (t : InventoryTelemetry) (at : ℕ) (signature : String)
    → SentAt at signature t
    → p.signature ≡ signature
    → p.now < at + t.interval
    → sent_at (p ∷ ps) t ≡ sent_at ps t
unfolding sent_at produce
quiet_step p ps t at signature (s, k) same early =
    ground (arith, s, k, eq_iff p.signature signature, early)

abbrev after : Poll → InventoryTelemetry → InventoryTelemetry
after p t = record t { last_sent = some p.now; last_signature = some p.signature }

due_step :
    (p : Poll) (ps : List Poll) (t : InventoryTelemetry) (at : ℕ)
    → t.last_sent ≡ some at
    → at + t.interval ≤ p.now
    → sent_at (p ∷ ps) t ≡ p.now ∷ sent_at ps (after p t)
unfolding sent_at produce
due_step p ps t at s late = ground (arith, s, late)

lt-or-le : (a b : ℕ) → (a < b) ⊎ (b ≤ a)
lt-or-le a b = ground arith

-- While the host's signature stays what was last sent, two inventories are never sent less than an
-- interval apart, however often the host is polled.
pub unchanged_host-Spaced :
    (ps : List Poll) (t : InventoryTelemetry) (at : ℕ) (signature : String)
    → SentAt at signature t
    → All (λ p. p.signature ≡ signature) ps
    → Spaced t.interval at (sent_at ps t)
unfolding sent_at
unchanged_host-Spaced [] t at signature sent same = tt
unchanged_host-Spaced (p ∷ ps) t at signature sent (e, same) =
    elim (lt-or-le p.now (at + t.interval)) [
      | inl early ↦
          rw (quiet_step p ps t at signature sent e early)
            (unchanged_host-Spaced ps t at signature sent same)
      | inr late ↦
          rw (due_step p ps t at sent.0 late)
            (late, unchanged_host-Spaced ps (after p t) p.now signature (refl, ap some e) same)
    ]

-- A changed signature is sent at the very poll that shows it, however early,
-- and so is any signature an interval after the last one that was sent.
pub change_sent_at_once :
    (p : Poll) (ps : List Poll) (t : InventoryTelemetry) (at : ℕ) (signature : String)
    → SentAt at signature t
    → (p.signature ≢ signature) ⊎ (at + t.interval ≤ p.now)
    → head? (sent_at (p ∷ ps) t) ≡ some p.now
unfolding sent_at produce
change_sent_at_once p ps t at signature (s, k) (inl new) =
    ground (arith, s, k, eq_iff p.signature signature, new)
change_sent_at_once p ps t at signature (s, k) (inr late) = ground (arith, s, k, late)
