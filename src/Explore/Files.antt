-- ===== src/Explore/Files.antt =====
-- cmd/mantler/explore.go, applyRuntimePlanFiles. The files of the host are a function from paths; which
-- paths cannot be read, and which can be created and written, are parameters.
pub mod Restored
use mantlerd.Base.{
  Bool, true, false, ◌&&◌, not, String, List, [], ◌∷◌, Option, none, some, str_eq, trim_space,
  if◌then◌else◌,
}
use mantlerd.Explore.Paths.{PathError, Sanitized, sanitized, refused, sanitize_runtime_plan_path}

pub record RuntimePlanFile : Type 0 where
  pub source : String
  pub destination : String
  pub content : String

abbrev pub Files : Type 0
Files = String → Option String

abbrev pub write_file : String → String → Files → Files
write_file path content files q = if str_eq q path then some content else files q

abbrev pub remove_file : String → Files → Files
remove_file path files q = if str_eq q path then none else files q

pub data Read : Type 0 where
  missing read_failed : Read
  found : String → Read

pub data ApplyError : Type 0 where
  path_error : PathError → ApplyError
  source_failed original_failed write_failed : ApplyError

-- What one of restoreFns does: the destination, and what it held.
pub record Restore : Type 0 where
  pub path : String
  pub original : Option String

abbrev pub restore_file : Restore → Files → Files
restore_file r files = elim r.original [
  | none ↦ remove_file r.path files
  | some content ↦ write_file r.path content files
]

-- The function that is returned, by restoreFns with the last one first.
unfoldable pub restore_all : List Restore → Files → Files
restore_all [] files = files
restore_all (r ∷ restores) files = restore_all restores (restore_file r files)

-- What one round of the loop does: `continue`, return an error, or write.
pub data Round : Type 0 where
  skipped : Round
  failing : ApplyError → Round
  writing : Restore → String → Round

pub data Applied : Type 0 where
  applied : List Restore → Applied
  failed : ApplyError → Applied

abbrev found_or_missing : Option String → Read
found_or_missing none = missing
found_or_missing (some content) = found content

module _ (unreadable writable : String → Bool) where
  abbrev pub read_file : String → Files → Read
  read_file path files = if unreadable path then read_failed else found_or_missing (files path)

  abbrev pub content_of : RuntimePlanFile → Files → Read
  content_of file files =
      let source = trim_space file.source in
      if str_eq file.content "" && not (str_eq source "")
      then read_file source files
      else found file.content

  abbrev pub write_round : String → String → Option String → Round
  write_round path content original =
      if writable path
      then writing (record { path = path; original = original }) content
      else failing write_failed

  abbrev pub replace_round : String → String → Read → Round
  replace_round path content read_failed = failing original_failed
  replace_round path content missing = write_round path content none
  replace_round path content (found original) = write_round path content (some original)

  abbrev pub content_round : String → Files → Read → Round
  content_round path files missing = skipped
  content_round path files read_failed = failing source_failed
  content_round path files (found content) =
      if str_eq content "" then skipped else replace_round path content (read_file path files)

  abbrev pub sanitized_round : RuntimePlanFile → Files → Sanitized → Round
  sanitized_round file files (refused e) = failing (path_error e)
  sanitized_round file files (sanitized path) = content_round path files (content_of file files)

  unfoldable pub round : RuntimePlanFile → Files → Round
  round file files =
      let destination = trim_space file.destination in
      if str_eq destination ""
      then skipped
      else sanitized_round file files (sanitize_runtime_plan_path destination)

  unfoldable pub apply_files : List RuntimePlanFile → List Restore → Files → Applied × Files
  apply_files [] restores files = (applied restores, files)
  apply_files (file ∷ rest) restores files = elim (round file files) [
    | skipped ↦ apply_files rest restores files
    | failing e ↦ (failed e, files)
    | writing r content ↦ apply_files rest (r ∷ restores) (write_file r.path content files)
  ]

  unfoldable pub apply_runtime_plan_files : List RuntimePlanFile → Files → Applied × Files
  apply_runtime_plan_files plan files = apply_files plan [] files
