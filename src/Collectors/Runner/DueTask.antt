-- ===== src/Collectors/Runner/DueTask.antt =====
-- What the run of one due task does.
use openclaw_observatory.Prelude.{
  ℕ, suc, ◌+◌, ◌≢◌, Bool, length, ◌≡◌, ◌∙◌, ap, refl, String, Option, none, some, List, [], ◌∷◌,
  arith, inl, inr, ◌==◌, if◌then◌else◌,
}
use openclaw_observatory.Prelude.Dict.{lookup, insert, lookup-insert}
use openclaw_observatory.Exec.{Exn, Result, Result-cases, ok}
use openclaw_observatory.Collectors.Client.{Reply, uncaught, Client, submit_event}
use openclaw_observatory.Collectors.Client.Delivery.{submit_event-Delivered}
use openclaw_observatory.Collectors.Runner.{
  EventTuple, Producer, heartbeat_events, probe, Task, Runner, run_producer, submit_all,
  take_events, run_task,
}

-- The exceptions of requests are ones that `submit_event` catches.
abbrev pub Caught : (ℕ → Reply) → Type 0
Caught post = (n : ℕ) (e : Exn) → post n ≢ uncaught e

module _ {T : Type 0} (post : ℕ → Reply) (version : String) (wall : ℕ → ℕ) where
  abbrev submitted : EventTuple → Runner T → Result Bool × Client
  submitted e r =
      submit_event post e.event_type e.payload e.schema_version (wall (length r.client.sent))
        r.client

  submit_all-next_run :
      (es : List EventTuple) (n : ℕ) (r : Runner T)
      → (submit_all post version wall es n r).1.next_run ≡ r.next_run
  unfolding submit_all
  submit_all-next_run [] n r = refl
  submit_all-next_run (e ∷ es) n r =
      let (q, c) = submitted e r in
      elim (Result-cases q) [
        | inl (b, ok_q) ↦
            ground (
              arith,
              ok_q,
              submit_all-next_run es (if b then suc n else n) (record r { client = c }),
            )
        | inr (x, err_q) ↦ ground (arith, err_q)
      ]

  take_events-next_run :
      (n : ℕ) (es : Option (List EventTuple)) (r : Runner T)
      → (take_events post version wall n (es, r)).1.next_run ≡ r.next_run
  unfolding take_events
  take_events-next_run n none r = refl
  take_events-next_run n (some es) r = submit_all-next_run es n r

  run_producer-next_run :
      (now : ℕ) (p : Producer T) (r : Runner T)
      → (run_producer version now p r).1.next_run ≡ r.next_run
  unfolding run_producer
  run_producer-next_run now heartbeat_events r = refl
  run_producer-next_run now (probe f) r = refl

  run_task-next_run :
      (now : ℕ) (task : Task T) (n : ℕ) (r : Runner T)
      → (run_task post version wall now task n r).1.next_run
        ≡ insert task.name (now + task.interval) r.next_run
  unfolding run_task
  run_task-next_run now task n r =
      let started : Runner T = record r {
        next_run = insert task.name (now + task.interval) r.next_run;
      } in
      let (es, r') = run_producer version now task.produce started in
      take_events-next_run n es r' ∙ run_producer-next_run now task.produce started

  submit_event-ok :
      Caught post → (e : EventTuple) (r : Runner T) → (b : Bool) × ((submitted e r).0 ≡ ok b)
  submit_event-ok caught e r = elim (Result-cases (submitted e r).0) [
    | inl (b, q) ↦ (b, q)
    | inr (x, q) ↦
        let d =
          submit_event-Delivered post e.event_type e.payload e.schema_version
            (wall (length r.client.sent)) r.client in
        let (n, _, raised) = d.escaped x q in absurd (caught n x raised)
  ]

  submit_all-ok :
      Caught post
      → (es : List EventTuple) (n : ℕ) (r : Runner T)
      → (m : ℕ) × ((submit_all post version wall es n r).0 ≡ ok m)
  unfolding submit_all
  submit_all-ok caught [] n r = (n, refl)
  submit_all-ok caught (e ∷ es) n r =
      let (b, q) = submit_event-ok caught e r in
      let (m, h) =
        submit_all-ok caught es (if b then suc n else n)
          (record r { client = (submitted e r).1 }) in
      (m, ground (arith, q, h))

  take_events-ok :
      Caught post
      → (n : ℕ) (es : Option (List EventTuple)) (r : Runner T)
      → (m : ℕ) × ((take_events post version wall n (es, r)).0 ≡ ok m)
  unfolding take_events
  take_events-ok caught n none r = (n, refl)
  take_events-ok caught n (some es) r = submit_all-ok caught es n r

  -- With such a network a due task does not raise, whatever its producer does.
  pub run_task-ok :
      Caught post
      → (now : ℕ) (t : Task T) (n : ℕ) (r : Runner T)
      → (m : ℕ) × ((run_task post version wall now t n r).0 ≡ ok m)
  unfolding run_task
  run_task-ok caught now t n r =
      let (es, r') =
        run_producer version now t.produce
          (record r { next_run = insert t.name (now + t.interval) r.next_run }) in
      take_events-ok caught n es r'

  pub after_insert :
      (now : ℕ) (t : Task T) (n : ℕ) (r : Runner T) (k : String)
      → lookup k (run_task post version wall now t n r).1.next_run
        ≡ (if t.name == k then some (now + t.interval) else lookup k r.next_run)
  after_insert now t n r k =
      ap (lookup k) (run_task-next_run now t n r)
      ∙ lookup-insert t.name k (now + t.interval) r.next_run
