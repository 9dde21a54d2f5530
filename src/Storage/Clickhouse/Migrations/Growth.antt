-- ===== src/Storage/Clickhouse/Migrations/Growth.antt =====
-- What the commands of a bootstrap leave at the server.
use mathlib.Core.Path.{subst}
use openclaw_observatory.Prelude.{
  ◌≡◌, ◌∙◌, ◌⊎◌, sym, ap, refl, String, true, false, ◌&&◌, List, [], ◌∷◌, ◌++◌, All, In,
  In-append_left, arith, eq_refl, Bool-cases, inl, inr,
}
use openclaw_observatory.Exec.{Exn, Result, ok, err, storage_error, Result-cases, then_ok, then_err}
use openclaw_observatory.Storage.Clickhouse.Migrations.{
  Migration, Server, Engine, is_applied, command, run_statements, record_applied, migrate,
  apply_pending,
}

applied_append_left :
    (n : String) (xs ys : List String) → is_applied n xs ≡ true → is_applied n (xs ++ ys) ≡ true
applied_append_left n [] ys h = absurd (ground (arith, h))
applied_append_left n (x ∷ xs) ys h = ground (arith, h, applied_append_left n xs ys)

applied_last : (n : String) (xs : List String) → is_applied n (xs ++ n ∷ []) ≡ true
applied_last n [] = ground (arith, eq_refl n)
applied_last n (x ∷ xs) = ground (arith, applied_last n xs)

abbrev pub execute : String → Server → Server
execute statement s = record s { commands = s.commands ++ statement ∷ [] }

-- What a call leaves: the server as reachable as it was, and every name and command on record.
pub record Grows (s s' : Server) : Type 0 where
  pub reachable : s'.up ≡ s.up
  pub names : (n : String) → is_applied n s.applied ≡ true → is_applied n s'.applied ≡ true
  pub done : (x : String) → In x s.commands → In x s'.commands

pub Grows-refl : (s : Server) → Grows s s
Grows-refl s = record { reachable = refl; names = λ n h. h; done = λ x h. h }

pub Grows-trans : {a b c : Server} → Grows a b → Grows b c → Grows a c
Grows-trans p q = record {
  reachable = q.reachable ∙ p.reachable;
  names = λ n h. q.names n (p.names n h);
  done = λ x h. q.done x (p.done x h);
}

module _ (engine : Engine) where
  pub command-cases :
      (x : String) (s : Server)
      → ((s.up && engine.accepts s.commands x ≡ true) × (command engine x s ≡ (ok tt, execute x s)))
        ⊎ (command engine x s ≡ (err storage_error, s))
  unfolding command
  command-cases x s = elim (Bool-cases (s.up && engine.accepts s.commands x)) [
    | inl a ↦ inl (a, rw a refl)
    | inr d ↦ inr (rw d refl)
  ]

  abbrev pub Grown : Server → Result (Unit {0}) × Server → Type 0
  Grown s r = Grows s r.1

  pub execute-Grows : (x : String) (s : Server) → Grows s (execute x s)
  execute-Grows x s = record {
    reachable = refl;
    names = λ n h. h;
    done = λ y h. In-append_left (x ∷ []) h;
  }

  pub command-Grows : (x : String) (s : Server) → Grown s (command engine x s)
  command-Grows x s = elim (command-cases x s) [
    | inl (_, e) ↦ subst (Grown s) (sym e) (execute-Grows x s)
    | inr e ↦ subst (Grown s) (sym e) (Grows-refl s)
  ]

  run_rest :
      (x : String) (xs : List String) (s : Server)
      → command engine x s ≡ (ok tt, execute x s)
      → run_statements engine (x ∷ xs) s ≡ run_statements engine xs (execute x s)
  unfolding run_statements
  run_rest x xs s e =
      ap
        (λ (p : Result (Unit {0}) × Server).
          let later = run_statements engine xs p.1 in
          elim p.0 [ err y ↦ (err y, p.1) | ok _ ↦ later ])
        e

  run_refused :
      (x : String) (xs : List String) (s : Server)
      → command engine x s ≡ (err storage_error, s)
      → run_statements engine (x ∷ xs) s ≡ (err storage_error, s)
  unfolding run_statements
  run_refused x xs s e =
      ap
        (λ (p : Result (Unit {0}) × Server).
          let later = run_statements engine xs p.1 in
          elim p.0 [ err y ↦ (err y, p.1) | ok _ ↦ later ])
        e

  run_statements-Grows : (xs : List String) (s : Server) → Grown s (run_statements engine xs s)
  unfolding run_statements
  run_statements-Grows [] s = Grows-refl s
  run_statements-Grows (x ∷ xs) s = elim (command-cases x s) [
    | inl (_, e) ↦
        subst (Grown s) (sym (run_rest x xs s e))
          (Grows-trans (execute-Grows x s) (run_statements-Grows xs (execute x s)))
    | inr e ↦ subst (Grown s) (sym (run_refused x xs s e)) (Grows-refl s)
  ]

  -- What a call for the migration `name` leaves: one that goes through is on record.
  abbrev Recorded : String → Server → Result (Unit {0}) × Server → Type 0
  Recorded name s r = Grows s r.1 × (r.0 ≡ ok tt → is_applied name r.1.applied ≡ true)

  record_applied-Grows :
      (name : String) (s : Server) → Recorded name s (record_applied engine name s)
  unfolding record_applied
  record_applied-Grows name s = elim (Bool-cases (s.up && engine.inserts s.commands)) [
    | inl a ↦ rw a (
      record {
        reachable = refl;
        names = λ n h. applied_append_left n s.applied (name ∷ []) h;
        done = λ x h. h;
      },
      λ _. applied_last name s.applied,
    )
    | inr d ↦ rw d (Grows-refl s, λ h. absurd (cc h))
  ]

  migrate-Grows : (m : Migration) (s : Server) → Recorded m.name s (migrate engine m s)
  unfolding migrate
  migrate-Grows m s =
      let grown = run_statements-Grows m.statements s in
      let s' = (run_statements engine m.statements s).1 in
      let write = record_applied engine m.name in
      elim (Result-cases (run_statements engine m.statements s).0) [
        | inl (tt, e) ↦
            let (g, named) = record_applied-Grows m.name s' in
            subst (Recorded m.name s)
              (sym (then_ok (run_statements engine m.statements) write s (λ i. (e i, s'))))
              (Grows-trans grown g, named)
        | inr (x, e) ↦
            subst (Recorded m.name s)
              (sym (then_err (run_statements engine m.statements) write s (λ i. (e i, s'))))
              (grown, λ h. absurd (cc h))
      ]

  skip_step :
      (applied : List String) (m : Migration) (ms : List Migration) (s : Server)
      → is_applied m.name applied ≡ true
      → apply_pending engine applied (m ∷ ms) s ≡ apply_pending engine applied ms s
  unfolding apply_pending
  skip_step applied m ms s h = ground (arith, h)

  run_step :
      (applied : List String) (m : Migration) (ms : List Migration) (s : Server)
      → is_applied m.name applied ≡ false
      → (migrate engine m s).0 ≡ ok tt
      → apply_pending engine applied (m ∷ ms) s
        ≡ apply_pending engine applied ms (migrate engine m s).1
  unfolding apply_pending
  run_step applied m ms s h r = ground (arith, h, r)

  fail_step :
      (applied : List String) (m : Migration) (ms : List Migration) (s : Server) (e : Exn)
      → is_applied m.name applied ≡ false
      → (migrate engine m s).0 ≡ err e
      → apply_pending engine applied (m ∷ ms) s ≡ (err e, (migrate engine m s).1)
  unfolding apply_pending
  fail_step applied m ms s e h r = ground (arith, h, r)

  -- What the loop over the migrations does: if it ends, all of them are on record.
  pub record Looped (ms : List Migration) (s : Server) (r : Result (Unit {0}) × Server)
      : Type 0 where
    pub grown : Grows s r.1
    pub recorded : r.0 ≡ ok tt → All (λ m. is_applied m.name r.1.applied ≡ true) ms

  pub pending-Looped :
      (applied : List String) (ms : List Migration) (s : Server)
      → ((n : String) → is_applied n applied ≡ true → is_applied n s.applied ≡ true)
      → Looped ms s (apply_pending engine applied ms s)
  unfolding apply_pending
  pending-Looped applied [] s known = record { grown = Grows-refl s; recorded = λ _. tt }
  pending-Looped applied (m ∷ ms) s known = elim (Bool-cases (is_applied m.name applied)) [
    | inl a ↦
        let rest = pending-Looped applied ms s known in
        subst (Looped (m ∷ ms) s) (sym (skip_step applied m ms s a)) (record {
          grown = rest.grown;
          recorded = λ h. (rest.grown.names m.name (known m.name a), rest.recorded h);
        })
    | inr d ↦
        let (g, named) = migrate-Grows m s in
        elim (Result-cases (migrate engine m s).0) [
          | inr (e, r) ↦
              subst (Looped (m ∷ ms) s) (sym (fail_step applied m ms s e d r))
                (record { grown = g; recorded = λ h. absurd (cc h) })
          | inl (tt, r) ↦
              let rest =
                pending-Looped applied ms (migrate engine m s).1 (λ n k. g.names n (known n k)) in
              subst (Looped (m ∷ ms) s) (sym (run_step applied m ms s d r)) (record {
                grown = Grows-trans g rest.grown;
                recorded = λ h. (rest.grown.names m.name (named r), rest.recorded h);
              })
        ]
  ]
