-- ===== src/Transfer/Store.antt =====
-- internal/transfer/store.go: locating the files of a model.
pub mod Repos
pub mod Choice
use Prim.Native.Char.{code}
use Prim.Native.String.{◌++◌ as concat}
use mantlerd.Base.{
  ℕ, Bool, true, false, ◌&&◌, not, String, List, [], ◌∷◌, Option, none, some, ltb, ◌==◌, str_eq,
  has_prefix, trim_prefix, if◌then◌else◌,
}
use mantlerd.Transfer.Server.{ModelFile}

-- A directory entry of the snapshots of a repository: its name, whether it is a directory, and its time
-- of modification where Info gives one.
pub record Snapshot : Type 0 where
  pub name : String
  pub is_dir : Bool
  pub modified : Option ℕ

-- The disk, as the store reads it: the answer of Ollama's API for a model, the files below the blob
-- directory with their sizes, SHA-256 digests, the snapshots of a repository's directory, the size of
-- the files below a directory, and the entries of the cache that are directories.
pub record Disk : Type 0 where
  pub api_show : String → Option ModelFile
  pub blobs : Option (List (String × ℕ))
  pub sha256 : String → Option String
  pub snapshots : String → Option (List Snapshot)
  pub total_size : String → ℕ
  pub cache_dirs : Option (List String)
  pub join : String → String → String

-- The loops that keep the entry with the largest value: a later one only if its value is larger.
unfoldable pub largest : List (String × ℕ) → String × ℕ → String × ℕ
largest [] best = best
largest ((path, size) ∷ rest) best = largest rest (if ltb best.1 size then (path, size) else best)

-- The values of the entries that count: directories whose time is known.
unfoldable pub dated : List Snapshot → List (String × ℕ)
dated [] = []
dated (e ∷ es) =
    let rest = dated es in
    if not e.is_dir then rest else elim e.modified [ none ↦ rest | some t ↦ (e.name, t) ∷ rest ]

-- strings.ReplaceAll(s, "/", "--")
unfoldable pub slash_to_dashes : String → String
slash_to_dashes String.[] = ""
slash_to_dashes (String.◌∷◌ c s) =
    let rest = slash_to_dashes s in
    if code c == b'/' then String.◌∷◌ "-" (String.◌∷◌ "-" rest) else String.◌∷◌ c rest

-- strings.ReplaceAll(s, "--", "/")
unfoldable pub dashes_to_slash : String → String
dashes_to_slash String.[] = ""
dashes_to_slash (String.◌∷◌ c String.[]) = String.◌∷◌ c ""
dashes_to_slash (String.◌∷◌ c (String.◌∷◌ d s)) = elim (code c == b'-' && code d == b'-') [
  | true ↦ String.◌∷◌ "/" (dashes_to_slash s)
  | false ↦ String.◌∷◌ c (dashes_to_slash (String.◌∷◌ d s))
]

-- The directory of a repository in the cache, and the repository of a directory.
unfoldable pub dir_name : String → String
dir_name repo_id = concat "models--" (slash_to_dashes repo_id)

unfoldable pub repo_id_of : String → String
repo_id_of name = dashes_to_slash (trim_prefix name "models--")

module _ (d : Disk) where
  unfoldable pub digest_of : String × ℕ → Option ModelFile
  digest_of (path, size) = elim (d.sha256 path) [
    | none ↦ none
    | some digest ↦ some (record { path = path; digest = digest; size = size })
  ]

  unfoldable pub find_ollama_via_filesystem : Option ModelFile
  find_ollama_via_filesystem = elim d.blobs [
    | none ↦ none
    | some files ↦
        let best = largest files ("", 0) in if str_eq best.0 "" then none else digest_of best
  ]

  unfoldable pub find_ollama_model : String → Option ModelFile
  find_ollama_model model_id = elim (d.api_show model_id) [
    | some f ↦ some f
    | none ↦ find_ollama_via_filesystem
  ]

  -- A snapshot's name stands for its path below the repository.
  unfoldable pub find_in : String → Option (List Snapshot) → Option ModelFile
  find_in repo_dir none = none
  find_in repo_dir (some entries) =
      let best = largest (dated entries) ("", 0) in
      if str_eq best.0 ""
      then none
      else let path = d.join repo_dir best.0 in
        some (record { path = path; digest = ""; size = d.total_size path })

  unfoldable pub find_hf_model : String → Option ModelFile
  find_hf_model repo_id = find_in (dir_name repo_id) (d.snapshots (dir_name repo_id))

  -- The loop of listHFModels: the repositories that are found, with their files.
  unfoldable pub list_hf_entries : List String → List (String × ModelFile)
  list_hf_entries [] = []
  list_hf_entries (name ∷ names) =
      let rest = list_hf_entries names in
      if not (has_prefix name "models--") then rest else elim (find_hf_model (repo_id_of name)) [
        | none ↦ rest
        | some f ↦ (repo_id_of name, f) ∷ rest
      ]

  unfoldable pub list_hf_models : List (String × ModelFile)
  list_hf_models = elim d.cache_dirs [ none ↦ [] | some names ↦ list_hf_entries names ]
