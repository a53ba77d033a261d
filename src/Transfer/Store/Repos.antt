-- ===== src/Transfer/Store/Repos.antt =====
-- The directories of the HuggingFace cache and the repositories that they stand for.
use Prim.Native.Char.{Char, code}
use Prim.Native.String.{◌++◌ as concat}
use text.Mathlib.TextLemmas.{nil-append, cons-append}
use text.Mathlib.TextEquality.{Char-path}
use mantlerd.Base.{
  ◌≡◌, refl, sym, subst, ap, ◌∙◌, inl, inr, true, false, ◌&&◌, String, has_prefix, trim_prefix,
  append-trim_prefix, Lacks, Bool-cases, ◌==◌, ==_iff, &&-eq-true,
}
use mantlerd.Transfer.Store.{slash_to_dashes, dashes_to_slash, dir_name, repo_id_of}

slash_to_dashes-nil : slash_to_dashes "" ≡ ""
unfolding slash_to_dashes
slash_to_dashes-nil = refl

slash_to_dashes-slash :
    (s : String)
    → slash_to_dashes (String.◌∷◌ "/" s) ≡ String.◌∷◌ "-" (String.◌∷◌ "-" (slash_to_dashes s))
unfolding slash_to_dashes
slash_to_dashes-slash s = refl

slash_to_dashes-other :
    (c : Char) (s : String)
    → (code c == b'/') ≡ false
    → slash_to_dashes (String.◌∷◌ c s) ≡ String.◌∷◌ c (slash_to_dashes s)
unfolding slash_to_dashes
slash_to_dashes-other c s h = rw h

dashes_to_slash-dashes :
    (c d : Char) (s : String)
    → (code c == b'-' && code d == b'-') ≡ true
    → dashes_to_slash (String.◌∷◌ c (String.◌∷◌ d s)) ≡ String.◌∷◌ "/" (dashes_to_slash s)
unfolding dashes_to_slash
dashes_to_slash-dashes c d s h = rw (h, dashes_to_slash) refl

dashes_to_slash-other :
    (c d : Char) (s : String)
    → (code c == b'-' && code d == b'-') ≡ false
    → dashes_to_slash (String.◌∷◌ c (String.◌∷◌ d s))
      ≡ String.◌∷◌ c (dashes_to_slash (String.◌∷◌ d s))
unfolding dashes_to_slash
dashes_to_slash-other c d s h = rw (h, dashes_to_slash) refl

dashes_to_slash-nil : dashes_to_slash "" ≡ ""
unfolding dashes_to_slash
dashes_to_slash-nil = refl

dashes_to_slash-one : (c : Char) → dashes_to_slash (String.◌∷◌ c String.[]) ≡ String.◌∷◌ c ""
unfolding dashes_to_slash
dashes_to_slash-one c = refl

slash-dashes : (s : String) → Lacks "/" s → slash_to_dashes (dashes_to_slash s) ≡ s
slash-dashes String.[] h = ap slash_to_dashes dashes_to_slash-nil ∙ slash_to_dashes-nil
slash-dashes (String.◌∷◌ c String.[]) h =
    ap slash_to_dashes (dashes_to_slash-one c)
    ∙ slash_to_dashes-other c "" h.0
    ∙ ap (String.◌∷◌ c) slash_to_dashes-nil
slash-dashes (String.◌∷◌ c (String.◌∷◌ d s)) h =
    elim (Bool-cases (code c == b'-' && code d == b'-')) [
      | inl dashes ↦
          let (p, q) = &&-eq-true (code c == b'-') (code d == b'-') dashes in
          let e = sym (Char-path c "-" ((==_iff _ _).0 p)) in
          let f = sym (Char-path d "-" ((==_iff _ _).0 q)) in
          ap slash_to_dashes (dashes_to_slash-dashes c d s dashes)
          ∙ slash_to_dashes-slash (dashes_to_slash s)
          ∙ λ i. String.◌∷◌ (e i) (String.◌∷◌ (f i) (slash-dashes s h.1.1 i))
      | inr other ↦
          ap slash_to_dashes (dashes_to_slash-other c d s other)
          ∙ slash_to_dashes-other c (dashes_to_slash (String.◌∷◌ d s)) h.0
          ∙ ap (String.◌∷◌ c) (slash-dashes (String.◌∷◌ d s) h.1)
    ]

Lacks-append : (sep : Char) (p s : String) → Lacks sep (concat p s) → Lacks sep s
Lacks-append sep String.[] s h = subst (Lacks sep) (nil-append s) h
Lacks-append sep (String.◌∷◌ c p) s h =
    Lacks-append sep p s (subst (Lacks sep) (cons-append c p s) h).1

-- The directory that FindHFModel computes for a repository listed by listHFModels is the very directory
-- from whose name the repository's ID was made.
pub dir_name-repo_id_of :
    (name : String)
    → has_prefix name "models--" ≡ true
    → Lacks "/" name
    → dir_name (repo_id_of name) ≡ name
unfolding dir_name repo_id_of
dir_name-repo_id_of name h no_slash =
    let whole = append-trim_prefix name "models--" h in
    let rest =
      Lacks-append "/" "models--" (trim_prefix name "models--")
        (subst (Lacks "/") (sym whole) no_slash) in
    ap (concat "models--") (slash-dashes (trim_prefix name "models--") rest) ∙ whole
