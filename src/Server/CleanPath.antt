-- ===== src/Server/CleanPath.antt =====
-- What http.ServeMux, which internal/server/object_graph.go makes, does to the path of a request
-- before it looks for a handler: cleanPath of net/http, on a path that is its own escaped form.
use Prim.Native.Char.{code}
use Prim.Native.String.{◌++◌ as ◌<>◌}
use node_gateway.Base.{
  String, Bool, false, ◌||◌, List, [], ◌∷◌, reverse, ◌==◌, nat_eq, string_eq, if◌then◌else◌,
}
use node_gateway.Config.Yaml.{put_first}

-- The parts of a path between its slashes, of which there is at least one.
unfoldable pub segments : String → List String
unfolding put_first
segments String.[] = "" ∷ []
segments (String.◌∷◌ c s) =
    let rest = segments s in if code c == b'/' then "" ∷ rest else put_first c rest

abbrev drop_first : List String → List String
drop_first [] = []
drop_first (s ∷ ss) = ss

-- The segments that are left, the last first, after those that are `kept`: `.` stays where it is, and
-- `..` goes up, but not above the root.
unfoldable pub clean_segments : List String → List String → List String
clean_segments kept [] = kept
clean_segments kept (s ∷ ss) =
    clean_segments
      (if s == "" || s == "." then kept else if s == ".." then drop_first kept else s ∷ kept) ss

unfoldable pub join_segments : List String → String
join_segments [] = ""
join_segments (s ∷ ss) = "/" <> s <> join_segments ss

abbrev ends_in_slash : List String → Bool
ends_in_slash [] = false
ends_in_slash (s ∷ []) = s == ""
ends_in_slash (s ∷ t ∷ ss) = ends_in_slash (t ∷ ss)

-- A slash at the end stays.
unfoldable pub clean_path : String → String
unfolding segments clean_segments join_segments
clean_path path =
    let text = join_segments (reverse (clean_segments [] (segments path))) in
    if text == "" then "/" else if ends_in_slash (segments path) then text <> "/" else text
