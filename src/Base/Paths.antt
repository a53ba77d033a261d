-- ===== src/Base/Paths.antt =====
-- What the program uses of Go's package filepath on Unix: Clean, and Join at two paths that are not empty.
pub mod Elements
pub mod Below
use Prim.Native.String.{◌++◌}
use mantlerd.Base.{
  Bool, true, false, ◌||◌, String, List, [], ◌∷◌, has_prefix, split, join, str_eq, if◌then◌else◌,
}

-- The elements of a path from the last to the first, with the next element added.
unfoldable pub add_element : Bool → List String → String → List String
add_element rooted [] element =
    if str_eq element "" || str_eq element "."
    then []
    else if str_eq element ".."
    then (if rooted then [] else ".." ∷ [])
    else element ∷ []
add_element rooted (last ∷ before) element =
    if str_eq element "" || str_eq element "."
    then last ∷ before
    else if str_eq element ".."
    then (if str_eq last ".." then ".." ∷ last ∷ before else before)
    else element ∷ last ∷ before

unfoldable pub resolve : Bool → List String → List String → List String
resolve rooted stack [] = stack
resolve rooted stack (element ∷ elements) =
    resolve rooted (add_element rooted stack element) elements

abbrev pub onto : List String → List String → List String
onto [] parts = parts
onto (last ∷ before) parts = onto before (last ∷ parts)

abbrev pub path_of : Bool → List String → String
path_of true parts = "/" ++ join "/" parts
path_of false [] = "."
path_of false (p ∷ parts) = join "/" (p ∷ parts)

-- filepath.Clean
unfoldable pub clean : String → String
clean path =
    let rooted = has_prefix path "/" in
    path_of rooted (onto (resolve rooted [] (split "/" path)) [])

unfoldable pub join_path : String → String → String
join_path a b = clean (a ++ ("/" ++ b))
