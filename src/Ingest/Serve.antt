-- ===== src/Ingest/Serve.antt =====
-- Requests to `POST /api/v1/events` served one after the other.
use openclaw_observatory.Prelude.{ℕ, String, Option, List, [], ◌∷◌}
use openclaw_observatory.Models.Event.{EventIn, Stamp}
use openclaw_observatory.Schemas.{Schemas}
use openclaw_observatory.World.{World}
use openclaw_observatory.Ingest.{post_event}

-- What a request carries, and what the clock and `uuid4` give while it is served.
pub record Request : Type 0 where
  pub api_key : Option String
  pub now : ℕ
  pub stamp : Stamp
  pub inbound : EventIn

module _ (schemas : Schemas) (bindings : List (String × String)) where
  -- the state that the request leaves behind, whether it is accepted or refused
  unfoldable pub handle : Request → World → World
  handle r w = (post_event schemas bindings r.api_key r.now r.stamp r.inbound w).1

  -- An error ends only its own request.
  unfoldable pub serve : List Request → World → World
  unfolding handle
  serve [] w = w
  serve (r ∷ rs) w = serve rs (handle r w)
