-- ===== src/Collectors/Docker.antt =====
-- `summarize` and `collect` of collectors/observatory_collectors/host_pi/docker_stats.py, and the
-- header that backend/app/services/monitor.py renders from the payload.
pub mod Counts
pub mod Parse
use openclaw_observatory.Prelude.{
  ℕ, zero, suc, ◌+◌, String, Bool, true, false, not, ◌&&◌, ◌||◌, ◌==◌, Option, none, some, List, [],
  ◌∷◌, count_if, length, if◌then◌else◌,
}
use openclaw_observatory.Prelude.Int.{ℤ, pos}
use openclaw_observatory.Json.{
  Value, Items, nil, cons, Fields, end, field, get, or_null, obj_or_empty,
}

-- the facts that `summarize` reads of a container, and the container as it is reported
pub record Container : Type 0 where
  pub status : Option String
  pub exit_code : Option ℤ
  pub restart_count : Option ℕ
  pub reported : Fields

abbrev pub has_status : Option String → String → Bool
has_status none s = false
has_status (some t) s = t == s

-- `(c.get("exit_code") or 0) != 0`
abbrev pub is_nonzero : Option ℤ → Bool
is_nonzero none = false
is_nonzero (some (pos zero)) = false
is_nonzero (some _) = true

unfoldable pub is_running : Container → Bool
is_running c = has_status c.status "running"

unfoldable pub is_failed : Container → Bool
is_failed c = (has_status c.status "exited" || has_status c.status "dead") && is_nonzero c.exit_code

abbrev pub or_zero : Option ℕ → ℕ
or_zero none = 0
or_zero (some n) = n

unfoldable pub restarts : List Container → ℕ
restarts [] = 0
restarts (c ∷ cs) = or_zero c.restart_count + restarts cs

pub record Summary : Type 0 where
  pub containers_total : ℕ
  pub containers_running : ℕ
  pub containers_failed : ℕ
  pub restart_count_total : ℕ

unfoldable pub summarize : List Container → Summary
unfolding is_running is_failed restarts
summarize cs = record {
  containers_total = length cs;
  containers_running = count_if is_running cs;
  containers_failed = count_if is_failed cs;
  restart_count_total = restarts cs;
}

abbrev pub reported_all : List Container → Items
reported_all [] = nil
reported_all (c ∷ cs) = cons (Value.obj c.reported) (reported_all cs)

-- `collect()`; `none` is a daemon that does not answer. The counts are spread into the payload.
unfoldable pub collect : Option (List Container) → Fields
unfolding summarize
collect none = field "daemon_running" (Value.bool false) end
collect (some cs) =
    let s = summarize cs in
    field "daemon_running" (Value.bool true) (
      field "containers_total" (Value.int (pos s.containers_total)) (
        field "containers_running" (Value.int (pos s.containers_running)) (
          field "containers_failed" (Value.int (pos s.containers_failed)) (
            field "restart_count_total" (Value.int (pos s.restart_count_total))
              (field "containers" (Value.arr (reported_all cs)) end)))))

-- `d.get(key, 0)`
abbrev pub get_or_zero : String → Fields → Value
get_or_zero key fs = elim (get key fs) [ none ↦ Value.int (pos 0) | some v ↦ v ]

-- The values that the header of `_render_docker_section` shows.
pub record Header : Type 0 where
  pub daemon_running : Value
  pub containers_running : Value
  pub containers_total : Value
  pub containers_failed : Value
  pub restart_count_total : Value

unfoldable pub docker_header : Fields → Header
docker_header docker =
    let summary = obj_or_empty (get "summary" docker) in
    record {
      daemon_running = or_null (get "daemon_running" docker);
      containers_running = get_or_zero "containers_running" summary;
      containers_total = get_or_zero "containers_total" summary;
      containers_failed = get_or_zero "containers_failed" summary;
      restart_count_total = get_or_zero "restart_count_total" summary;
    }
