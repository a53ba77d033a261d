-- ===== src/Explore/Paths.antt =====
-- cmd/mantler/explore.go, sanitizeRuntimePlanPath, with what Go's package filepath does on Unix.
pub mod Contained
use Prim.Native.String.{◌++◌}
use mantlerd.Base.Paths.{clean}
use mantlerd.Base.{
  Bool, true, false, ◌||◌, not, String, List, [], ◌∷◌, any, elem, has_prefix, split, join, str_eq,
  trim_space, if◌then◌else◌,
}

pub data PathError : Type 0 where
  destination_empty : PathError
  not_absolute outside_roots : String → PathError

pub data Sanitized : Type 0 where
  sanitized : String → Sanitized
  refused : PathError → Sanitized

abbrev pub allowed_roots : List String
allowed_roots = "/etc/mantler" ∷ "/var/lib/mantler" ∷ "/opt/mantler" ∷ []

abbrev pub is_under : String → String → Bool
is_under path root = str_eq path root || has_prefix path (root ++ "/")

unfoldable pub sanitize_runtime_plan_path : String → Sanitized
sanitize_runtime_plan_path destination =
    let cleaned = clean (trim_space destination) in
    if str_eq cleaned "." || str_eq cleaned ""
    then refused destination_empty
    else if not (has_prefix cleaned "/")
    then refused (not_absolute destination)
    else if any (is_under cleaned) allowed_roots
    then sanitized cleaned
    else refused (outside_roots destination)
