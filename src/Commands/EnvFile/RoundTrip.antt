-- ===== src/Commands/EnvFile/RoundTrip.antt =====
-- An environment file that is written is read back.
use Prim.Native.Char.{Char, code}
use Prim.Native.String.{◌++◌ as concat}
use text.Mathlib.TextLemmas.{nil-append, cons-append, append_assoc}
use mathlib.Core.List.Permᴰ
use native.Mathlib.Omega.{arith}
use mantlerd.Base.{
  ◌≡◌, refl, sym, ◌∙◌, ap, subst, inl, inr, true, false, ◌||◌, String, List, [], ◌∷◌, ◌++◌, map,
  none, some, Memᴰ-perm, elem-Memᴰ, Memᴰ-elem, not-Memᴰ-elem, Permᴰ, All-perm, sort-perm, All,
  Lacks, split, join, split-join, split-between, sort, text_le, str_eq, eq_iff, has_prefix,
  trim_space, is_empty, is_empty-append, EndsClean, append-EndsClean, quote-EndsClean,
  trim_space-append, ==_iff, Bool-cases, if-holds, if◌then◌else◌, elem,
}
use mantlerd.Base.Dict.{Dict, lookup, put, keys, lookup-put}
use mantlerd.Commands.EnvFile.{
  Quoting, is_longer, ends_with, cut, or_empty, value_of, add_parts, add_line, read_lines,
  read_env_file, line_of, env_text,
}

-- A key that no part of the format reads: trimmed, and neither a comment nor empty.
pub record IsKey (k : String) : Type 0 where
  pub trimmed : trim_space k ≡ k
  pub full : is_empty k ≡ false
  pub no_comment : has_prefix k "#" ≡ false
  pub no_sign : Lacks "=" k
  pub no_line : Lacks "\n" k

-- A value whose quotation stands between quotation marks in one line, and which Unquote gives back.
pub record IsQuoted (q : Quoting) (v : String) : Type 0 where
  pub inner : String
  pub between : q.quoted v ≡ concat "\"" (concat inner "\"")
  pub one_line : Lacks "\n" (q.quoted v)
  pub back : q.unquote (q.quoted v) ≡ some v

cut-append :
    (sep : Char) (k v : String) → Lacks sep k → cut sep (concat k (String.◌∷◌ sep v)) ≡ some (k, v)
unfolding cut
cut-append sep String.[] v h =
    rw (nil-append (String.◌∷◌ sep v)) (rw ((==_iff (code sep) (code sep)).1 refl) refl)
cut-append sep (String.◌∷◌ c k) v h =
    rw (cons-append c k (String.◌∷◌ sep v)) (rw (h.0, cut-append sep k v h.1) refl)

append-Lacks : (sep : Char) (s t : String) → Lacks sep s → Lacks sep t → Lacks sep (concat s t)
append-Lacks sep String.[] t h k = rw (nil-append t) k
append-Lacks sep (String.◌∷◌ c s) t h k = rw (cons-append c s t) (h.0, append-Lacks sep s t h.1 k)

ends_with-append : (d : Char) (s : String) → ends_with d (concat s (String.◌∷◌ d "")) ≡ true
unfolding ends_with
ends_with-append d String.[] = rw (nil-append (String.◌∷◌ d "")) ((==_iff (code d) (code d)).1 refl)
ends_with-append d (String.◌∷◌ c String.[]) =
    let last = String.◌∷◌ d "" in
    ap (ends_with d) (cons-append c "" last ∙ ap (String.◌∷◌ c) (nil-append last))
    ∙ (==_iff (code d) (code d)).1 refl
ends_with-append d (String.◌∷◌ c (String.◌∷◌ e s)) =
    let last = String.◌∷◌ d "" in
    let inner = cons-append e s last in
    ap (ends_with d) (cons-append c (String.◌∷◌ e s) last ∙ ap (String.◌∷◌ c) inner)
    ∙ sym (ap (ends_with d) inner)
    ∙ ends_with-append d (String.◌∷◌ e s)

-- The text between two quotation marks.
abbrev quotation : String → String
quotation s = concat "\"" (concat s "\"")

quotation-cons : (s : String) → quotation s ≡ String.◌∷◌ "\"" (concat s "\"")
quotation-cons s =
    cons-append "\"" "" (concat s "\"") ∙ ap (String.◌∷◌ "\"") (nil-append (concat s "\""))

longer_lem : (c : Char) (s : String) → is_empty s ≡ false → is_longer (String.◌∷◌ c s) ≡ true
longer_lem c String.[] h = ground (arith, h)
longer_lem c (String.◌∷◌ d s) h = refl

value_of-quotation :
    (q : Quoting) (s v : String) → q.unquote (quotation s) ≡ some v → value_of q (quotation s) ≡ v
unfolding value_of has_prefix
value_of-quotation q s v h =
    let tail = is_empty-append s "\"" refl in
    let longer : is_longer (quotation s) ≡ true =
      ap is_longer (quotation-cons s) ∙ longer_lem "\"" (concat s "\"") tail in
    let begins : has_prefix (quotation s) "\"" ≡ true =
      ap (λ t. has_prefix t "\"") (quotation-cons s) in
    let ends : ends_with "\"" (quotation s) ≡ true =
      ap (ends_with "\"") (sym (append_assoc "\"" s "\""))
      ∙ ends_with-append "\"" (concat "\"" s) in
    rw (longer, begins, ends, h) refl

trim-quotation : (s : String) → trim_space (quotation s) ≡ quotation s
unfolding trim_space
trim-quotation s =
    trim_space-append "\"" (concat s "\"") refl refl (append-EndsClean s "\"" quote-EndsClean)

nonempty : (s : String) → is_empty s ≡ false → str_eq s "" ≡ false
nonempty s h = elim (Bool-cases (str_eq s "")) [
  | inl e ↦ absurd (let k = ap is_empty ((eq_iff s "").0 e) in ground (arith, h, k))
  | inr e ↦ e
]

module _ (q : Quoting) (k v : String) (key : IsKey k) (value : IsQuoted q v) where
  line : String
  line = concat k (concat "=" (q.quoted v))

  line-trimmed : trim_space line ≡ line
  unfolding line
  line-trimmed = trim_space-append k (concat "=" (q.quoted v)) key.trimmed key.full (
      append-EndsClean "=" (q.quoted v) (
        subst EndsClean (sym value.between) (
          append-EndsClean "\"" (concat value.inner "\"")
            (append-EndsClean value.inner "\"" quote-EndsClean))))

  line-full : str_eq line "" ≡ false
  unfolding line
  line-full =
      nonempty line (
        is_empty-append k (concat "=" (q.quoted v)) (ap is_empty (cons-append "=" "" (q.quoted v))))

  line-not_comment : has_prefix line "#" ≡ false
  unfolding line has_prefix
  line-not_comment = begins k key.full key.no_comment
    where
      begins :
          (s : String)
          → is_empty s ≡ false
          → has_prefix s "#" ≡ false
          → has_prefix (concat s (concat "=" (q.quoted v))) "#" ≡ false
      begins String.[] h e = absurd (ground (arith, h))
      begins (String.◌∷◌ c s) h e = rw (cons-append c s (concat "=" (q.quoted v))) e

  line-cut : cut "=" line ≡ some (k, q.quoted v)
  unfolding line
  line-cut =
      ap (λ t. cut "=" (concat k t))
        (cons-append "=" "" (q.quoted v) ∙ ap (String.◌∷◌ "=") (nil-append (q.quoted v)))
      ∙ cut-append "=" k (q.quoted v) key.no_sign

  line-Lacks : Lacks "\n" line
  unfolding line
  line-Lacks =
      append-Lacks "\n" k (concat "=" (q.quoted v)) key.no_line
        (append-Lacks "\n" "=" (q.quoted v) (refl, tt) value.one_line)

  add_line-put : (values : Dict String) → add_line q line values ≡ put k v values
  unfolding add_line
  add_line-put values =
      let quoted : trim_space (q.quoted v) ≡ q.quoted v =
        subst (λ t. trim_space t ≡ t) (sym value.between) (trim-quotation value.inner) in
      let read : value_of q (q.quoted v) ≡ v =
        ap (value_of q) value.between
        ∙ value_of-quotation q value.inner v (ap q.unquote (sym value.between) ∙ value.back) in
      ap (λ t. if str_eq t "" || has_prefix t "#" then values else add_parts q (cut "=" t) values)
        line-trimmed
      ∙ rw (line-full, line-not_comment, line-cut)
          (rw (key.trimmed, quoted, nonempty k key.full, read) refl)

read_lines-append :
    (q : Quoting) (lines : List String) (values : Dict String)
    → read_lines q (lines ++ "" ∷ []) values ≡ read_lines q lines values
unfolding read_lines add_line trim_space
read_lines-append q [] values = refl
read_lines-append q (l ∷ lines) values = read_lines-append q lines (add_line q l values)

module _ (q : Quoting) (d : Dict String) where
  -- Every key of the list is one that can be written, with a value that can be quoted.
  abbrev pub IsWritable : String → Type 0
  IsWritable k = IsKey k × IsQuoted q (or_empty (lookup k d))

  lines-Lacks : (ks : List String) → All IsWritable ks → All (Lacks "\n") (map (line_of q d) ks)
  unfolding line_of line
  lines-Lacks [] h = tt
  lines-Lacks (k ∷ ks) h = (line-Lacks q k (or_empty (lookup k d)) h.0.0 h.0.1, lines-Lacks ks h.1)

  -- The lines of keys put the keys' values.
  read_lines-map :
      (ks : List String) (values : Dict String) (j : String)
      → All IsWritable ks
      → lookup j (read_lines q (map (line_of q d) ks) values)
        ≡ (if elem j ks then some (or_empty (lookup j d)) else lookup j values)
  unfolding read_lines line_of line elem
  read_lines-map [] values j h = refl
  read_lines-map (k ∷ ks) values j h =
      let v = or_empty (lookup k d) in
      ap (λ m. lookup j (read_lines q (map (line_of q d) ks) m))
        (add_line-put q k v h.0.0 h.0.1 values)
      ∙ read_lines-map ks (put k v values) j h.1
      ∙ ground (arith, lookup-put k j v values, eq_iff k j, eq_iff j k)

elem-perm : {xs ys : List String} (s : String) → Permᴰ xs ys → elem s xs ≡ elem s ys
elem-perm {xs} {ys} s p = elim (Bool-cases (elem s xs)) [
  | inl e ↦ e ∙ sym (Memᴰ-elem s ys (Memᴰ-perm p (elem-Memᴰ s xs e)))
  | inr e ↦ elim (Bool-cases (elem s ys)) [
    | inl f ↦ absurd (not-Memᴰ-elem s xs e (Memᴰ-perm (Permᴰ.symm p) (elem-Memᴰ s ys f)))
    | inr f ↦ e ∙ sym f
  ]
]

lookup-elem :
    (d : Dict String) (j : String)
    → (if elem j (keys d) then some (or_empty (lookup j d)) else none) ≡ lookup j d
unfolding lookup elem
lookup-elem [] j = refl
lookup-elem ((k, v) ∷ d) j = ground (arith, lookup-elem d j, eq_iff j k, eq_iff k j)

module _ (q : Quoting) (d : Dict String) where
  -- The lines of the text that is written.
  read_env_text :
      (ks : List String)
      → All (IsWritable q d) ks
      → read_lines q
          (split "\n" (
            if str_eq (join "\n" (map (line_of q d) ks)) ""
            then ""
            else concat (join "\n" (map (line_of q d) ks)) "\n"))
          []
        ≡ read_lines q (map (line_of q d) ks) []
  unfolding split join read_lines add_line trim_space
  read_env_text [] h = refl
  read_env_text (k ∷ ks) h =
      let lines = map (line_of q d) ks in
      let payload = join "\n" (line_of q d k ∷ lines) in
      let parts = split-join "\n" (line_of q d k) lines (lines-Lacks q d (k ∷ ks) h) in
      if-holds (λ t. read_lines q (split "\n" t) [] ≡ read_lines q (line_of q d k ∷ lines) [])
        (str_eq payload "")
        (λ e.
          ap (λ t. read_lines q (split "\n" t) []) (sym ((eq_iff payload "").0 e))
          ∙ ap (λ l. read_lines q l []) parts)
        (λ e.
          ap (λ l. read_lines q l []) (split-between "\n" payload "" ∙ ap (λ l. l ++ "" ∷ []) parts)
          ∙ read_lines-append q (line_of q d k ∷ lines) [])

  -- Where every key of a map is trimmed, in one line, with no sign of equality and no comment sign at its
  -- begin, and every value is quoted in one line as text that Unquote gives back, reading the file that
  -- was written gives every key the value that the map has for it, and no other key a value.
  pub read-env_text :
      All (IsWritable q d) (keys d)
      → (j : String) → lookup j (read_env_file q (some (env_text q d))) ≡ lookup j d
  unfolding read_env_file env_text lookup
  read-env_text h j =
      let ks = sort text_le (keys d) in
      let writable = All-perm (IsWritable q d) (Permᴰ.symm (sort-perm text_le (keys d))) h in
      ap (lookup j) (read_env_text ks writable)
      ∙ read_lines-map q d ks [] j writable
      ∙ ap (λ b. if b then some (or_empty (lookup j d)) else lookup j [])
          (elem-perm j (sort-perm text_le (keys d)))
      ∙ lookup-elem d j
