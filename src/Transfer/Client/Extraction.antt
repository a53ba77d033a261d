-- ===== src/Transfer/Client/Extraction.antt =====
-- Where receiveTar writes.
use Prim.Native.Char.{code}
use Prim.Native.String.{◌++◌ as concat}
use text.Mathlib.TextLemmas.{nil-append, cons-append}
use mathlib.Core.List.{append_assoc}
use mantlerd.Base.{
  ℕ, ◌+◌, ◌≡◌, refl, sym, ap, ◌∙◌, subst, Bool, true, String, List, ◌∷◌, ◌++◌, inl, inr, eq_iff,
  All, All-append, All-map, split, split-between, split_of_Lacks, Lacks, join, str_eq, has_prefix,
  ◌==◌, Bool-cases, if-holds,
}
use mantlerd.Base.Paths.{clean, join_path}
use mantlerd.Base.Paths.Elements.{IsName}
use mantlerd.Base.Paths.Below.{IsLevel, IsBelow, clean-IsBelow, join_path-IsBelow}
use mantlerd.Transfer.Store.{slash_to_dashes, dir_name}
use mantlerd.Transfer.Client.{
  TransferResult, Archive, finished, broken, cancelled, entry, Reply, Touch, make_directory,
  make_parent, create, create_temporary, rename_to, Done, Client, attempt, extract, snapshot_dir,
  receive_tar,
}

abbrev pub path_of_touch : Touch → String
path_of_touch (make_directory path) = path
path_of_touch (make_parent path) = path
path_of_touch (create path) = path
path_of_touch (create_temporary path) = path
path_of_touch (rename_to path) = path

slash_to_dashes-Lacks : (s : String) → Lacks "/" (slash_to_dashes s)
unfolding slash_to_dashes
slash_to_dashes-Lacks String.[] = tt
slash_to_dashes-Lacks (String.◌∷◌ c s) =
    if-holds (Lacks "/") (code c == code "/") (λ e. (refl, (refl, slash_to_dashes-Lacks s)))
      (λ e. (e, slash_to_dashes-Lacks s))

append-Lacks : (p s : String) → Lacks "/" p → Lacks "/" s → Lacks "/" (concat p s)
append-Lacks String.[] s h k = rw (nil-append s) k
append-Lacks (String.◌∷◌ c p) s h k = rw (cons-append c p s) (h.0, append-Lacks p s h.1 k)

up-apart : (s : String) → ¬ (concat "models--" s ≡ "..")
unfolding has_prefix
up-apart s e =
    let begins : has_prefix (concat "models--" s) "m" ≡ true =
      rw (cons-append "m" "odels--" s) refl in
    absurd (cc (begins, ap (λ t. has_prefix t "m") e))

dir_name-IsLevel : (model_id : String) → IsLevel (dir_name model_id)
unfolding dir_name
dir_name-IsLevel model_id = (
  append-Lacks "models--" (slash_to_dashes model_id)
      (refl, (refl, (refl, (refl, (refl, (refl, (refl, (refl, tt))))))))
      (slash_to_dashes-Lacks model_id),
  elim (Bool-cases (str_eq (concat "models--" (slash_to_dashes model_id)) "..")) [
    | inl e ↦ absurd (up-apart (slash_to_dashes model_id) ((eq_iff _ _).0 e))
    | inr e ↦ e
  ],
)

snapshot-levels :
    (model_id : String)
    → All IsLevel (split "/" (concat (dir_name model_id) "/snapshots/peer-transfer"))
unfolding split
snapshot-levels model_id =
    let level = dir_name-IsLevel model_id in
    subst (All IsLevel)
      (sym (
        split-between "/" (dir_name model_id) "snapshots/peer-transfer"
        ∙ ap (λ l. l ++ split "/" "snapshots/peer-transfer")
            (split_of_Lacks "/" (dir_name model_id) level.0)))
      (
        level,
        (
          ((refl, (refl, (refl, (refl, (refl, (refl, (refl, (refl, (refl, tt))))))))), refl),
          (
            (
              (
                refl,
                (
                  refl,
                  (
                    refl,
                    (
                      refl,
                      (refl, (refl, (refl, (refl, (refl, (refl, (refl, (refl, (refl, tt))))))))),
                    ),
                  ),
                ),
              ),
              refl,
            ),
            tt,
          ),
        ),
      )

-- What was done, if every path in it is below a directory.
abbrev pub DoneBelow : List String → Done TransferResult → Type 0
DoneBelow names (touched, result) = All (λ t. IsBelow names (path_of_touch t)) touched

attempt-DoneBelow :
    (names : List String) (permits : Touch → Bool) (t : Touch) (next : Done TransferResult)
    → IsBelow names (path_of_touch t)
    → DoneBelow names next
    → DoneBelow names (attempt permits t next)
attempt-DoneBelow names permits t next h k =
    if-holds (DoneBelow names) (permits t) (λ e. (h, k)) (λ e. (h, tt))

-- A path below a directory below another is below the other.
IsBelow-trans :
    (names rest : List String) (path : String)
    → All IsName rest
    → IsBelow (names ++ rest) path
    → IsBelow names path
IsBelow-trans names rest path h (more, k, e) = (
  rest ++ more,
  All-append IsName rest more h k,
  e ∙ ap (λ l. concat "/" (join "/" l)) (append_assoc names rest more),
)

module _ (permits : Touch → Bool) where
  extract-DoneBelow :
      (n : String) (names : List String) (dest machine : String)
      → All IsName (n ∷ names)
      → dest ≡ concat "/" (join "/" (n ∷ names))
      → (archive : Archive) (total : ℕ)
      → DoneBelow (n ∷ names) (extract permits dest machine archive total)
  unfolding extract
  extract-DoneBelow n names dest machine h q (finished digest) total = tt
  extract-DoneBelow n names dest machine h q broken total = tt
  extract-DoneBelow n names dest machine h q cancelled total = tt
  extract-DoneBelow n names dest machine h q (entry e archive) total =
      let Below = DoneBelow (n ∷ names) in
      let skipped = extract-DoneBelow n names dest machine h q archive total in
      let copied = extract-DoneBelow n names dest machine h q archive (total + e.size) in
      if-holds Below (has_prefix (clean e.name) "..") (λ up. skipped)
        λ level.
          let inside : IsBelow (n ∷ names) (join_path dest (clean e.name)) =
            subst (λ d. IsBelow (n ∷ names) (join_path d (clean e.name))) (sym q)
              (join_path-IsBelow n names h e.name level) in
          let target = join_path dest (clean e.name) in
          if-holds Below e.is_dir
            (λ dir. attempt-DoneBelow (n ∷ names) permits (make_directory target) _ inside skipped)
            (λ file. attempt-DoneBelow (n ∷ names) permits (make_parent target) _ inside (
              attempt-DoneBelow (n ∷ names) permits (create target) _ inside
                (if-holds Below e.copies (λ c. copied) (λ c. tt))))

  -- Whatever the model's ID and the names in the archive are, receiveTar only creates directories, files and
  -- their directories at paths below the cache, if the cache is a cleaned absolute path other than the root.
  pub receive_tar-DoneBelow :
      (c : Client) (n : String) (names : List String)
      → All IsName (n ∷ names)
      → c.hf_cache_dir ≡ concat "/" (join "/" (n ∷ names))
      → (model_id : String) (reply : Reply)
      → DoneBelow (n ∷ names) (receive_tar permits c model_id reply)
  unfolding receive_tar snapshot_dir
  receive_tar-DoneBelow c n names h q model_id reply =
      let sub = concat (dir_name model_id) "/snapshots/peer-transfer" in
      let inside : IsBelow (n ∷ names) (snapshot_dir permits c model_id) =
        subst (λ d. IsBelow (n ∷ names) (clean (concat d (concat "/" sub)))) (sym q)
          (clean-IsBelow n names h sub (snapshot-levels model_id)) in
      let (rest, r, e) = inside in
      let dest = snapshot_dir permits c model_id in
      attempt-DoneBelow (n ∷ names) permits (make_directory dest) _ inside (
        All-map (λ t. IsBelow (n ∷ (names ++ rest)) (path_of_touch t))
          (λ t. IsBelow (n ∷ names) (path_of_touch t))
          (extract permits dest reply.machine reply.archive 0).0
          (λ t b. IsBelow-trans (n ∷ names) rest (path_of_touch t) r b)
          (extract-DoneBelow n (names ++ rest) dest reply.machine
            (All-append IsName (n ∷ names) rest h r) e reply.archive 0))
