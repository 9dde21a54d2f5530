-- ===== src/Spa/Fallback.antt =====
-- Which paths fall back to the start page.
use openclaw_observatory.Prelude.{◌≡◌, ℕ, nat_eq, String, true, arith, eq_iff}
use openclaw_observatory.Prelude.Text.{has_char}
use openclaw_observatory.Spa.{
  Served, http_error, first_segment, final_segment, is_navigation_path, get_response,
}

module _ (static : String → Served) where
  -- A path below `api` that is not served keeps its status.
  api_keeps_error :
      (path : String) (status : ℕ)
      → static path ≡ http_error status
      → first_segment path ≡ "api"
      → get_response static path ≡ http_error status
  unfolding get_response is_navigation_path
  api_keeps_error path status e a = ground (arith, e, (eq_iff (first_segment path) "api").1 a)

  -- So does a path whose last segment has an extension.
  missing_file_keeps_error :
      (path : String) (status : ℕ)
      → static path ≡ http_error status
      → has_char (nat_eq b'.') (final_segment path) ≡ true
      → get_response static path ≡ http_error status
  unfolding get_response is_navigation_path
  missing_file_keeps_error path status e a = ground (arith, e, a)

  -- A page of the client's router that no file has falls back to the start page.
  route_falls_back :
      (path : String)
      → static path ≡ http_error 404
      → is_navigation_path path ≡ true
      → get_response static path ≡ static "index.html"
  unfolding get_response
  route_falls_back path e n = ground (arith, e, n)
