-- ===== src/Missions/History.antt =====
-- Mission records over a whole history of requests, from a store that holds none.
use openclaw_observatory.Prelude.{◌≡◌, ◌≢◌, String, List, [], some, arith}
use openclaw_observatory.Prelude.Dict.{lookup}
use openclaw_observatory.Models.Mission.{MissionRecord}
use openclaw_observatory.Schemas.{Schemas}
use openclaw_observatory.World.{World}
use openclaw_observatory.Ingest.Serve.{Request, serve}
use openclaw_observatory.Missions.Record.{IsMission, Extends}
use openclaw_observatory.Missions.Invariant.{IsWellFormed, serve-IsWellFormed, serve-Later}

none_found : (k : String) (r : MissionRecord) → lookup k [] ≢ some r
unfolding lookup
none_found k r h = ground arith

module _ (schemas : Schemas) (bindings : List (String × String)) (rs : List Request) (w : World)
    (empty : w.missions.records ≡ []) where
  reached-IsWellFormed : IsWellFormed (serve schemas bindings rs w).missions
  reached-IsWellFormed =
      serve-IsWellFormed schemas bindings rs w (λ k r h. absurd (none_found k r (rw empty at h)))

  -- From a store without missions, whatever requests are served, accepted or refused: a record that
  -- is found under an id carries that id, its state is one of the lifecycle's, its start is set
  -- exactly if the state is Running or a later one, and its end exactly if the state is Completed.
  pub stored_record-IsMission :
      (k : String) (r : MissionRecord)
      → lookup k (serve schemas bindings rs w).missions.records ≡ some r
      → IsMission r × (r.mission_id ≡ k)
  stored_record-IsMission k r h = reached-IsWellFormed k r h

  -- After such requests let any further ones be served. A mission record that was there is there
  -- still; its state is the same or a later one, its creation time is the same, and a start or an
  -- end that was set is the same.
  pub missions_never_regress :
      (more : List Request) (k : String) (r : MissionRecord)
      → lookup k (serve schemas bindings rs w).missions.records ≡ some r
      → (r' : MissionRecord) × (lookup k
            (serve schemas bindings more (serve schemas bindings rs w)).missions.records
          ≡ some r')
        × Extends r r'
  missions_never_regress more k r h =
      serve-Later schemas bindings more (serve schemas bindings rs w) reached-IsWellFormed k r h
