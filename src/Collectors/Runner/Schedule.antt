-- ===== src/Collectors/Runner/Schedule.antt =====
-- When the runner runs a task.
use mathlib.Core.Path.{subst, sym}
use openclaw_observatory.Prelude.{
  ℕ, ◌+◌, ◌≤◌, ◌<◌, ◌≡◌, ◌∙◌, refl, ◌⊎◌, String, some, List, [], ◌∷◌, All, arith, Bool-cases, inl,
  inr, eq_refl, ◌==◌,
}
use openclaw_observatory.Prelude.Dict.{Dict, lookup}
use openclaw_observatory.Exec.{Result, ok}
use openclaw_observatory.Collectors.Client.{Reply}
use openclaw_observatory.Collectors.Runner.DueTask.{Caught, after_insert, run_task-ok}
use openclaw_observatory.Collectors.Runner.{Task, Runner, run_task, run_tasks, run_pending}

later_than : (a b : ℕ) → 0 < b → a < a + b
later_than a b h = omega (arith, h)

lt-or-le : (a b : ℕ) → (a < b) ⊎ (b ≤ a)
lt-or-le a b = ground arith

module _ {T : Type 0} (post : ℕ → Reply) (version : String) (wall : ℕ → ℕ) where
  -- Every task has an instant from which it is due.
  abbrev pub Scheduled : Dict ℕ → List (Task T) → Type 0
  Scheduled d tasks = All (λ t. (due : ℕ) × (lookup t.name d ≡ some due)) tasks

  -- Every task is due only later than `now`.
  abbrev pub Idle : ℕ → Dict ℕ → List (Task T) → Type 0
  Idle now d tasks = All (λ t. (due : ℕ) × (lookup t.name d ≡ some due) × (now < due)) tasks

  -- While no task is due, polling submits nothing and changes nothing.
  pub Idle-poll :
      (now : ℕ) (tasks : List (Task T)) (r : Runner T)
      → Idle now r.next_run tasks
      → run_pending post version wall now tasks r ≡ (ok 0, r)
  unfolding run_pending run_tasks
  Idle-poll now [] r idle = refl
  Idle-poll now (t ∷ ts) r ((due, e, lt), idle) = ground (arith, e, Idle-poll now ts r idle)

  skip_step :
      (now : ℕ) (t : Task T) (ts : List (Task T)) (n : ℕ) (r : Runner T) (due : ℕ)
      → lookup t.name r.next_run ≡ some due
      → now < due
      → run_tasks post version wall now (t ∷ ts) n r ≡ run_tasks post version wall now ts n r
  unfolding run_tasks
  skip_step now t ts n r due e lt = ground (arith, e, lt)

  run_step :
      (now : ℕ) (t : Task T) (ts : List (Task T)) (n : ℕ) (r : Runner T) (due : ℕ)
      → lookup t.name r.next_run ≡ some due
      → due ≤ now
      → (m : ℕ) → (run_task post version wall now t n r).0 ≡ ok m
      → run_tasks post version wall now (t ∷ ts) n r
        ≡ run_tasks post version wall now ts m (run_task post version wall now t n r).1
  unfolding run_tasks
  run_step now t ts n r due e le m h = ground (arith, e, le, h)

  -- After a task ran at `now`, a task that had an instant to be due at still has one.
  still-Scheduled :
      (now : ℕ) (t : Task T) (n : ℕ) (r : Runner T) (ts : List (Task T))
      → Scheduled r.next_run ts
      → Scheduled (run_task post version wall now t n r).1.next_run ts
  still-Scheduled now t n r [] sch = tt
  still-Scheduled now t n r (x ∷ xs) ((due, e), sch) = (
    elim (Bool-cases (t.name == x.name)) [
      | inl same ↦
          (now + t.interval, after_insert post version wall now t n r x.name ∙ (rw same refl))
      | inr other ↦ (due, after_insert post version wall now t n r x.name ∙ (rw other e))
    ],
    still-Scheduled now t n r xs sch,
  )

  -- A key that is due only later stays so.
  stays_later :
      Caught post
      → (now : ℕ) (ts : List (Task T)) (n : ℕ) (r : Runner T) (k : String) (due : ℕ)
      → All (λ t. 0 < t.interval) ts
      → Scheduled r.next_run ts
      → lookup k r.next_run ≡ some due
      → now < due
      → (due' : ℕ) × (lookup k (run_tasks post version wall now ts n r).1.next_run ≡ some due')
        × (now < due')
  unfolding run_tasks
  stays_later caught now [] n r k due iv sch e lt = (due, e, lt)
  stays_later caught now (t ∷ ts) n r k due (i, iv) ((d, q), sch) e lt = elim (lt-or-le now d) [
    | inl later ↦
        rw (skip_step now t ts n r d q later) (stays_later caught now ts n r k due iv sch e lt)
    | inr le ↦
        let (m, h) = run_task-ok post version wall caught now t n r in
        let r' = (run_task post version wall now t n r).1 in
        let next = still-Scheduled now t n r ts sch in
        rw (run_step now t ts n r d q le m h) (elim (Bool-cases (t.name == k)) [
          | inl same ↦
              stays_later caught now ts m r' k (now + t.interval) iv next
                (after_insert post version wall now t n r k ∙ (rw same refl)) (omega (arith, i))
          | inr other ↦
              stays_later caught now ts m r' k due iv next
                (after_insert post version wall now t n r k ∙ (rw other e)) lt
        ])
  ]

  -- What a pass over tasks comes to: it succeeds, and leaves `ts` due only later.
  abbrev Passed : ℕ → List (Task T) → Result ℕ × Runner T → Type 0
  Passed now ts (res, r) = ((m : ℕ) × (res ≡ ok m)) × Idle now r.next_run ts

  loop-Passed :
      Caught post
      → (now : ℕ) (ts : List (Task T)) (n : ℕ) (r : Runner T) → All (λ t. 0 < t.interval) ts
      → Scheduled r.next_run ts
      → Passed now ts (run_tasks post version wall now ts n r)
  unfolding run_tasks
  loop-Passed caught now [] n r iv sch = ((n, refl), tt)
  loop-Passed caught now (t ∷ ts) n r (i, iv) ((d, q), sch) = elim (lt-or-le now d) [
    | inl later ↦
        let (s, idle) = loop-Passed caught now ts n r iv sch in
        subst (Passed now (t ∷ ts)) (sym (skip_step now t ts n r d q later))
          (s, (stays_later caught now ts n r t.name d iv sch q later, idle))
    | inr le ↦
        let (m, h) = run_task-ok post version wall caught now t n r in
        let r' = (run_task post version wall now t n r).1 in
        let next = still-Scheduled now t n r ts sch in
        let (s, idle) = loop-Passed caught now ts m r' iv next in
        let own = after_insert post version wall now t n r t.name ∙ (rw (eq_refl t.name) refl) in
        subst (Passed now (t ∷ ts)) (sym (run_step now t ts n r d q le m h)) (
          s,
          (
            stays_later caught now ts m r' t.name (now + t.interval) iv next own
                (later_than now t.interval i),
            idle,
          ),
        )
  ]

  -- With positive intervals, every task scheduled, as the constructor makes it, and no request that
  -- ends in an exception that `submit_event` does not catch, a poll succeeds whatever the producers do
  -- and however requests fail, and a second poll at the same instant submits nothing and changes
  -- nothing.
  pub second_poll_idle :
      Caught post
      → (now : ℕ) (ts : List (Task T)) (r : Runner T) → All (λ t. 0 < t.interval) ts
      → Scheduled r.next_run ts
      → let (res, r') = run_pending post version wall now ts r in
        ((m : ℕ) × (res ≡ ok m)) × (run_pending post version wall now ts r' ≡ (ok 0, r'))
  unfolding run_pending
  second_poll_idle caught now ts r iv sch =
      let (s, idle) = loop-Passed caught now ts 0 r iv sch in
      (s, Idle-poll now ts (run_tasks post version wall now ts 0 r).1 idle)
