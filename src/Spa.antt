-- ===== src/Spa.antt =====
-- backend/app/spa.py: the fallback of the static files to the frontend's start page. What Starlette's
-- StaticFiles does with a path is a parameter.
pub mod Fallback
use openclaw_observatory.Prelude.{
  ℕ, String, Bool, true, false, not, ◌&&◌, ◌||◌, ◌==◌, nat_eq, Option, none, some, List, [], ◌∷◌,
  if◌then◌else◌,
}
use openclaw_observatory.Prelude.Text.{partition_by, rpartition_by, has_char}

-- a response by the file that it serves, or the status of the `HTTPException`
pub data Served : Type 0 where
  file : String → Served
  http_error : ℕ → Served

abbrev is_slash : ℕ → Bool
is_slash = nat_eq b'/'

-- `path.split("/", 1)[0]`
unfoldable pub first_segment : String → String
unfolding partition_by
first_segment path = elim (partition_by is_slash path) [ none ↦ path | some (first, _) ↦ first ]

-- `path.rsplit("/", 1)[-1]`
unfoldable pub final_segment : String → String
unfolding rpartition_by
final_segment path = elim (rpartition_by is_slash path) [ none ↦ path | some (_, last) ↦ last ]

unfoldable pub is_navigation_path : String → Bool
unfolding first_segment final_segment has_char
is_navigation_path path =
    not (first_segment path == "api") && not (has_char (nat_eq b'.') (final_segment path))

module _ (static : String → Served) where
  unfoldable pub get_response : String → Served
  unfolding is_navigation_path
  get_response path =
      let start_page = static "index.html" in
      elim (static path) [
        | file name ↦ file name
        | http_error status ↦
            if not (nat_eq status 404) || not (is_navigation_path path)
            then http_error status
            else start_page
      ]

-- `mount_frontend`: whether the build is served
unfoldable pub mount_frontend : (String → Bool) → String → Option String
mount_frontend is_file dist_dir = if is_file "index.html" then some dist_dir else none
