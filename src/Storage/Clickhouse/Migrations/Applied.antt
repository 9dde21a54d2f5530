-- ===== src/Storage/Clickhouse/Migrations/Applied.antt =====
-- Applying the migrations once and again.
use mathlib.Core.Path.{subst}
use openclaw_observatory.Prelude.{
  ◌≡◌, ◌∙◌, sym, ap, refl, String, Bool, true, ◌&&◌, List, [], ◌∷◌, ◌++◌, All, In-append_left,
  In-append_last, arith, Bool-cases, inl, inr,
}
use openclaw_observatory.Exec.{Exec, Result, ok, err, storage_error, then_ok, then_err, ◌>>=◌, ◌>>◌}
use openclaw_observatory.Storage.Clickhouse.Migrations.IfNotExists.{
  IfNotExists, create_database-IfNotExists, create_ledger-IfNotExists,
}
use openclaw_observatory.Storage.Clickhouse.Migrations.Growth.{
  execute, command-cases, Looped, pending-Looped,
}
use openclaw_observatory.Storage.Clickhouse.Migrations.{
  Migration, Server, Engine, is_applied, create_database, create_ledger, command, apply_pending,
  select_applied, bootstrap,
}

append_two : (xs : List String) (a b : String) → (xs ++ a ∷ []) ++ b ∷ [] ≡ xs ++ a ∷ b ∷ []
append_two [] a b = refl
append_two (x ∷ xs) a b = ap (λ l. x ∷ l) (append_two xs a b)

abbrev fst : {A B : Type 0} → A × B → A
fst p = p.0

refused : {r : Result (Unit {0})} → r ≡ err storage_error → r ≡ ok tt → ⊥
refused e h = cc (e, h)

module _ (engine : Engine) where
  nothing_pending :
      (applied : List String) (ms : List Migration) (s : Server)
      → All (λ m. is_applied m.name applied ≡ true) ms
      → apply_pending engine applied ms s ≡ (ok tt, s)
  unfolding apply_pending
  nothing_pending applied [] s h = refl
  nothing_pending applied (m ∷ ms) s (a, h) = ground (arith, a, nothing_pending applied ms s h)

  -- What is left to do once the two commands went through.
  abbrev load : List Migration → Exec Server (Unit {0})
  load ms = select_applied engine >>= λ applied. apply_pending engine applied ms

  load_ok :
      (ms : List Migration) (s : Server)
      → select_applied engine s ≡ (ok s.applied, s)
      → load ms s ≡ apply_pending engine s.applied ms s
  load_ok ms s e =
      ap
        (λ (p : Result (List String) × Server).
          let r : Result (Unit {0}) × Server = elim p.0 [
            | ok applied ↦ apply_pending engine applied ms p.1
            | err x ↦ (err x, p.1)
          ] in
          r)
        e

  load_err :
      (ms : List Migration) (s : Server)
      → select_applied engine s ≡ (err storage_error, s)
      → load ms s ≡ (err storage_error, s)
  load_err ms s e =
      ap
        (λ (p : Result (List String) × Server).
          let r : Result (Unit {0}) × Server = elim p.0 [
            | ok applied ↦ apply_pending engine applied ms p.1
            | err x ↦ (err x, p.1)
          ] in
          r)
        e

  select_up :
      (s : Server)
      → s.up ≡ true
      → engine.selects s.commands ≡ true
      → select_applied engine s ≡ (ok s.applied, s)
  unfolding select_applied
  select_up s up readable = ground (arith, up, readable)

  command_up :
      (x : String) (s : Server)
      → s.up ≡ true
      → engine.accepts s.commands x ≡ true
      → command engine x s ≡ (ok tt, execute x s)
  unfolding command
  command_up x s up a = ground (arith, up, a)

  load_succeeds :
      (ms : List Migration) (s : Server)
      → (load ms s).0 ≡ ok tt
      → load ms s ≡ apply_pending engine s.applied ms s
  unfolding select_applied
  load_succeeds ms s h = elim (Bool-cases (s.up && engine.selects s.commands)) [
    | inl a ↦ load_ok ms s (ground (arith, a))
    | inr d ↦ absurd (refused (ap fst (load_err ms s (ground (arith, d)))) h)
  ]

  abbrev creates : String → List Migration → Exec Server (Unit {0})
  creates database ms = command engine (create_ledger database) >> load ms

  -- the server once the two commands went through
  abbrev created : String → Server → Server
  created database s = execute (create_ledger database) (execute (create_database database) s)

  bootstrap_created :
      (database : String) (ms : List Migration) (s : Server)
      → (let s' = execute (create_database database) s in
          command engine (create_database database) s ≡ (ok tt, s'))
      → (let s' = execute (create_database database) s in
          command engine (create_ledger database) s' ≡ (ok tt, created database s))
      → bootstrap engine database ms s ≡ load ms (created database s)
  unfolding bootstrap
  bootstrap_created database ms s d t =
      then_ok (command engine (create_database database)) (creates database ms) s d
      ∙ then_ok (command engine (create_ledger database)) (load ms)
          (execute (create_database database) s) t

  and_left : (a b : Bool) → (a && b) ≡ true → a ≡ true
  and_left a b h = ground (arith, h)

  -- A bootstrap that succeeds got through the two commands, on a server that is up.
  bootstrap_succeeds :
      (database : String) (ms : List Migration) (s : Server)
      → (bootstrap engine database ms s).0 ≡ ok tt
      → (s.up ≡ true) × (bootstrap engine database ms s ≡ load ms (created database s))
  unfolding bootstrap
  bootstrap_succeeds database ms s h =
      let first = command engine (create_database database) in
      let second = command engine (create_ledger database) in
      let s' = execute (create_database database) s in
      elim (command-cases engine (create_database database) s) [
        | inr d ↦ absurd (refused (ap fst (then_err first (creates database ms) s d)) h)
        | inl (up, d) ↦ elim (command-cases engine (create_ledger database) s') [
          | inr t ↦ absurd (
              refused
                (ap fst (then_ok first (creates database ms) s d ∙ then_err second (load ms) s' t))
                h)
          | inl (_, t) ↦ (and_left s.up _ up, bootstrap_created database ms s d t)
        ]
      ]

  -- After a bootstrap that succeeded, another one with the same migrations succeeds and executes
  -- nothing but the two commands that create what is missing, if schema_migrations can still be read:
  -- none of the migrations runs again, and no name is recorded again.
  pub bootstrap_idempotent :
      IfNotExists engine
      → (database : String) (ms : List Migration) (s : Server)
      → (bootstrap engine database ms s).0 ≡ ok tt
      → let s' = (bootstrap engine database ms s).1 in
        engine.selects s'.commands ≡ true
        → bootstrap engine database ms s' ≡ (
          ok tt,
          record s' {
            commands = s'.commands ++ create_database database ∷ create_ledger database ∷ [];
          },
        )
  bootstrap_idempotent laws database ms s h readable =
      let db = create_database database in
      let ledger = create_ledger database in
      let db_law = create_database-IfNotExists database in
      let ledger_law = create_ledger-IfNotExists database in
      let (up, first) = bootstrap_succeeds database ms s h in
      let s' = (bootstrap engine database ms s).1 in
      let c = created database s in
      let loaded = load_succeeds ms c (sym (ap fst first) ∙ h) in
      let loop : Looped engine ms c (bootstrap engine database ms s) =
        subst (Looped engine ms c) (sym (first ∙ loaded))
          (pending-Looped engine c.applied ms c (λ n k. k)) in
      let up' = loop.grown.reachable ∙ up in
      let db_done =
        loop.grown.done db (In-append_left (ledger ∷ []) (In-append_last db s.commands)) in
      let ledger_done = loop.grown.done ledger (In-append_last ledger (s.commands ++ db ∷ [])) in
      let s1 = execute db s' in
      let s2 = execute ledger s1 in
      bootstrap_created database ms s'
        (command_up db s' up' (laws.again s'.commands db db_law db_done))
        (command_up ledger s1 up'
          (laws.again s1.commands ledger ledger_law (In-append_left (db ∷ []) ledger_done)))
      ∙ load_ok ms s2 (
          select_up s2 up' (
            laws.readable s1.commands ledger ledger_law
              (laws.readable s'.commands db db_law readable)))
      ∙ nothing_pending s'.applied ms s2 (loop.recorded h)
      ∙ ap (λ done. (ok tt, record s' { commands = done })) (append_two s'.commands db ledger)
