-- ===== src/Collectors/Docker/Counts.antt =====
-- What the counts mean.
use openclaw_observatory.Prelude.{
  ◌+◌, ◌≤◌, ◌≡◌, refl, String, true, false, Option, none, some, List, [], ◌∷◌, count_if, length,
  arith, eq_iff,
}
use openclaw_observatory.Prelude.Int.{pos}
use openclaw_observatory.Json.{Value, get, obj_or_empty}
use openclaw_observatory.Collectors.Docker.{
  Container, is_running, is_failed, summarize, collect, docker_header, has_status,
}

other_status :
    (s : Option String)
    → has_status s "running" ≡ true
    → (has_status s "exited" ≡ false) × (has_status s "dead" ≡ false)
other_status none h = (refl, refl)
other_status (some t) h = let e = (eq_iff t "running").0 h in rw e (refl, refl)

one_status : (c : Container) → is_running c ≡ true → is_failed c ≡ false
unfolding is_running is_failed
one_status c h = let (e, d) = other_status c.status h in ground (arith, e, d)

split_counts : (cs : List Container) → count_if is_running cs + count_if is_failed cs ≤ length cs
split_counts [] = omega arith
split_counts (c ∷ cs) = ground (arith, split_counts cs, one_status c)

-- No container is counted both as running and as failed: the two counts add up to at most the total.
summarize_consistent :
    (cs : List Container)
    → (summarize cs).containers_running + (summarize cs).containers_failed
      ≤ (summarize cs).containers_total
unfolding summarize
summarize_consistent cs = split_counts cs

-- The monitor's header shows zero containers, failures and restarts for every payload that the
-- collector makes of a running daemon, since it looks for the counts under `summary` and the collector
-- spreads them into the payload.
docker_header_blind :
    (cs : List Container)
    → let h = docker_header (collect (some cs)) in
      (h.daemon_running ≡ Value.bool true)
      × (h.containers_running ≡ Value.int (pos 0))
      × (h.containers_total ≡ Value.int (pos 0))
      × (h.containers_failed ≡ Value.int (pos 0))
      × (h.restart_count_total ≡ Value.int (pos 0))
unfolding docker_header collect get obj_or_empty
docker_header_blind cs = (refl, refl, refl, refl, refl)
