-- ===== src/Monitor/Devices.antt =====
-- The tables of storage devices, interfaces and containers of backend/app/services/monitor.py. `str` is
-- Python's `str` of a value, and `fixed n d` the quotient of `n` by `d` with one decimal.
use Prim.Native.String.{◌++◌}
use openclaw_observatory.Prelude.{ℕ, String, Bool, ◌==◌, Option, none, some, [], ◌∷◌, if◌then◌else◌}
use openclaw_observatory.Prelude.Int.{ℤ}
use openclaw_observatory.Prelude.Text.Html.{escape, concat}
use openclaw_observatory.Prelude.Text.Case.{upper, lower}
use openclaw_observatory.Json.{
  Value, Fields, Items, nil, cons, get, or_null, obj_or_empty, is_empty, as_float, truthy,
}
use openclaw_observatory.Collectors.Docker.{Header, docker_header}
use openclaw_observatory.Monitor.Text.{
  dash, badge, bool_badge, fmt_bytes, fmt_percent, fmt_used, fmt_duration,
}

-- `d.get(key)`
abbrev at : Fields → String → Value
at d key = or_null (get key d)

abbrev items_of : Value → Items
items_of (Value.arr items) = items
items_of _ = nil

abbrev joined : Bool → String → String → String
joined b row rows = if b then row ++ rows else rows

module _ (str : Value → String) where
  -- `_dash`
  unfoldable pub dash_value : Value → String
  unfolding escape
  dash_value Value.null = dash
  dash_value (Value.str s) = if s == "" then dash else escape s
  dash_value v = escape (str v)

  -- `str(state or "unknown").lower()`
  abbrev link_text : Value → String
  link_text v = lower (if truthy v then str v else "unknown")

  abbrev link_class : String → String
  link_class state = if state == "up" then "ok" else if state == "down" then "crit" else "unknown"

  unfoldable pub link_state_badge : Value → String
  unfolding badge escape upper lower truthy
  link_state_badge state = badge (link_class (link_text state)) (escape (upper (link_text state)))

  unfoldable pub interface_row : Fields → String
  unfolding concat dash_value link_state_badge get
  interface_row i = concat (
      "<tr><td>"
      ∷ dash_value (at i "name")
      ∷ "</td><td>"
      ∷ dash_value (at i "ipv4")
      ∷ "</td><td>"
      ∷ link_state_badge (at i "link_state")
      ∷ "</td></tr>"
      ∷ [])

  -- an interface that is no object is left out
  unfoldable pub interface_rows : Items → String
  unfolding interface_row
  interface_rows nil = ""
  interface_rows (cons (Value.obj i) rest) = interface_row i ++ interface_rows rest
  interface_rows (cons _ rest) = interface_rows rest

  unfoldable pub route_line : Fields → String
  unfolding concat dash_value get
  route_line route =
      if is_empty route
      then "<p class=\"muted\">no default route</p>"
      else concat (
          "<p>Default route: "
          ∷ dash_value (at route "gateway")
          ∷ " dev "
          ∷ dash_value (at route "interface")
          ∷ "</p>"
          ∷ [])

  -- `inventory` is the payload of the host's inventory, empty where there is none
  unfoldable pub render_interfaces_section : Fields → String
  unfolding concat interface_rows route_line obj_or_empty get
  render_interfaces_section inventory =
      let network = obj_or_empty (get "network" inventory) in
      let rows = interface_rows (items_of (at network "interfaces")) in
      elim (items_of (at network "interfaces")) [
        | nil ↦
            "<section><h2>Interfaces</h2><p class=\"muted\">no interface inventory received yet</p></section>"
        | cons _ _ ↦ concat (
            "<section><h2>Interfaces</h2><table><tr><th>Interface</th><th>IPv4</th><th>Link</th></tr>"
            ∷ rows
            ∷ "</table>"
            ∷ route_line (obj_or_empty (get "default_route" network))
            ∷ "</section>"
            ∷ [])
      ]

module _ (str : Value → String) (fixed : ℤ → ℕ → String) where
  unfoldable pub storage_row : Fields → String
  unfolding concat dash_value fmt_bytes fmt_used get
  storage_row d =
      let cell : String → String = λ key. dash_value str (at d key) in
      concat (
        "<tr><td>"
        ∷ cell "name"
        ∷ "</td><td>"
        ∷ cell "type"
        ∷ "</td><td>"
        ∷ cell "transport"
        ∷ "</td><td>"
        ∷ fmt_bytes fixed (at d "capacity_bytes")
        ∷ "</td><td>"
        ∷ cell "brand"
        ∷ "</td><td>"
        ∷ cell "mount"
        ∷ "</td><td>"
        ∷ cell "filesystem"
        ∷ "</td><td>"
        ∷ fmt_used fixed (at d "used_bytes") (at d "used_percent")
        ∷ "</td><td>"
        ∷ fmt_bytes fixed (at d "free_bytes")
        ∷ "</td></tr>"
        ∷ [])

  unfoldable pub storage_rows : Items → String
  unfolding storage_row
  storage_rows nil = ""
  storage_rows (cons (Value.obj d) rest) = storage_row d ++ storage_rows rest
  storage_rows (cons _ rest) = storage_rows rest

  -- `disk.get("path", "/")`
  abbrev path_of : Option Value → String
  path_of none = "/"
  path_of (some v) = str v

  -- the line of `system_metrics`, while there is no inventory
  unfoldable pub disk_line : Fields → String
  unfolding concat escape fmt_bytes fmt_used get
  disk_line disk =
      if is_empty disk
      then "<section><h2>Storage</h2><p class=\"muted\">no storage inventory received yet</p></section>"
      else concat (
          "<section><h2>Storage</h2><p>Disk "
          ∷ escape (path_of (get "path" disk))
          ∷ ": "
          ∷ fmt_used fixed (at disk "used_bytes") (at disk "used_percent")
          ∷ " used, "
          ∷ fmt_bytes fixed (at disk "free_bytes")
          ∷ " free of "
          ∷ fmt_bytes fixed (at disk "total_bytes")
          ∷ "</p></section>"
          ∷ [])

  unfoldable pub render_storage_section : Fields → Fields → String
  unfolding concat storage_rows disk_line obj_or_empty get
  render_storage_section inventory metrics =
      let rows = storage_rows (items_of (at inventory "storage")) in
      elim (items_of (at inventory "storage")) [
        | nil ↦ disk_line (obj_or_empty (get "disk" metrics))
        | cons _ _ ↦ concat (
            "<section><h2>Storage</h2><table><tr><th>Device</th><th>Type</th><th>Transport</th><th>Size</th><th>Brand</th><th>Mount</th><th>FS</th><th>Used</th><th>Free</th></tr>"
            ∷ rows ∷ "</table></section>" ∷ [])
      ]

  unfoldable pub container_row : Fields → String
  unfolding concat dash_value fmt_bytes fmt_percent fmt_duration as_float get
  container_row c =
      let cell : String → String = λ key. dash_value str (at c key) in
      concat (
        "<tr><td>"
        ∷ cell "name"
        ∷ "</td><td>"
        ∷ cell "image"
        ∷ "</td><td>"
        ∷ cell "status"
        ∷ "</td><td>"
        ∷ cell "network_mode"
        ∷ "</td><td>"
        ∷ fmt_duration (as_float (at c "uptime_seconds"))
        ∷ "</td><td>"
        ∷ fmt_percent fixed (at c "cpu_percent")
        ∷ "</td><td>"
        ∷ fmt_percent fixed (at c "memory_percent")
        ∷ "</td><td>"
        ∷ fmt_bytes fixed (at c "network_rx_bytes")
        ∷ "</td><td>"
        ∷ fmt_bytes fixed (at c "network_tx_bytes")
        ∷ "</td><td>"
        ∷ cell "restart_count"
        ∷ "</td></tr>"
        ∷ [])

  unfoldable pub container_rows : Items → String
  unfolding container_row
  container_rows nil = ""
  container_rows (cons (Value.obj c) rest) = container_row c ++ container_rows rest
  container_rows (cons _ rest) = container_rows rest

  unfoldable pub docker_table : Items → String
  unfolding concat container_rows
  docker_table nil = ""
  docker_table (cons c rest) = concat (
      "<table><tr><th>Container</th><th>Image</th><th>Status</th><th>Network</th><th>Uptime</th><th>CPU</th><th>RAM</th><th>RX</th><th>TX</th><th>Restarts</th></tr>"
      ∷ container_rows (cons c rest)
      ∷ "</table>"
      ∷ [])

  unfoldable pub header_line : Header → String
  unfolding concat escape bool_badge
  header_line h = concat (
      "Daemon "
      ∷ bool_badge h.daemon_running "running" "down"
      ∷ " · "
      ∷ escape (str h.containers_running)
      ∷ " running / "
      ∷ escape (str h.containers_total)
      ∷ " total · "
      ∷ escape (str h.containers_failed)
      ∷ " failed · "
      ∷ escape (str h.restart_count_total)
      ∷ " restarts"
      ∷ [])

  unfoldable pub render_docker_section : Option Fields → String
  unfolding concat header_line docker_table docker_header get
  render_docker_section none =
      "<section><h2>Docker</h2><p class=\"muted\">no docker telemetry received yet</p></section>"
  render_docker_section (some docker) = concat (
      "<section><h2>Docker</h2><p>"
      ∷ header_line (docker_header docker)
      ∷ "</p>"
      ∷ docker_table (items_of (at docker "containers"))
      ∷ "</section>"
      ∷ [])
