-- ===== src/Pipeline/Value/Examples.antt =====
-- An encoder of JSON values, and two values that differ in the order of members, at which the theorem on
-- canonical JSON applies.
use Prim.Native.String.{◌++◌}
use mantlerd.Base.{
  ◌||◌, ◌≡◌, refl, ap, String, Option, none, some, Bool, true, false, str_eq, eq_iff, subst,
  if◌then◌else◌, List, [], ◌∷◌, map, sort, text_le, Permᴰ, Bool-cases, inl, inr,
}
use mantlerd.Pipeline.Value.{
  Value, null, boolean, number, text, array, object, Items, no_item, item, or_null, arrange,
  Members, no_member, member, find, member_keys, Digest, canonical_json, hash_canonical_json,
  normalize_for_canonical,
}
use mantlerd.Pipeline.Value.Canonical.{
  Same, equal, objects, SameFound, absent, present, hash-eq, IsJson, encodings, map-eq,
}

abbrev in_order : Value
in_order = object (member "a" null (member "b" (text "x") no_member))

abbrev out_of_order : Value
out_of_order = object (member "b" (text "x") (member "a" null no_member))

tested :
    (b : Bool)
    → SameFound (if b then some (text "x") else none) (if b then some (text "x") else none)
tested true = present (text "x") (text "x") (equal (text "x"))
tested false = absent

in_order-Same : Same in_order out_of_order
unfolding find member_keys
in_order-Same =
    objects (member "a" null (member "b" (text "x") no_member))
      (member "b" (text "x") (member "a" null no_member)) (Permᴰ.swap refl refl) found
  where
    found :
        (k : String)
        → SameFound
            (find k (member "a" null (member "b" (text "x") no_member)))
            (find k (member "b" (text "x") (member "a" null no_member)))
    found k = elim (Bool-cases (str_eq "a" k)) [
      | inl e ↦
          subst
            (λ j.
              SameFound (find j (member "a" null (member "b" (text "x") no_member)))
                (find j (member "b" (text "x") (member "a" null no_member))))
            ((eq_iff "a" k).0 e) (present null null (equal null))
      | inr e ↦ rw e (tested (str_eq "b" k))
    ]

-- An encoder: null is written for what is not there, and every text is put in quotation marks.
abbrev quoted : String → String
quoted s = "\"" ++ s ++ "\""

-- What follows an element, with a comma unless it is the end.
abbrev joined : String → String
joined t = if str_eq t "}" || str_eq t "]" then t else "," ++ t

abbrev fields : List (String × Option String) → Option String
fields [] = some "}"
fields ((k, o) ∷ l) =
    let rest = fields l in
    elim o [
      | none ↦ none
      | some s ↦ elim rest [ none ↦ none | some t ↦ some (quoted k ++ ":" ++ s ++ joined t) ]
    ]

abbrev entries : List (Option String) → Option String
entries [] = some "]"
entries (o ∷ l) =
    let rest = entries l in
    elim o [ none ↦ none | some s ↦ elim rest [ none ↦ none | some t ↦ some (s ++ joined t) ] ]

abbrev bracketed : String → Option String → Option String
bracketed opening none = none
bracketed opening (some s) = some (opening ++ s)

abbrev looked_up : String → List (String × Option String) → Option String
looked_up k [] = some "null"
looked_up k ((j, o) ∷ l) = let rest = looked_up k l in if str_eq j k then o else rest

unfoldable mutual
  encode : Value → Option String
  encode (object ms) =
      let encoded = encode_members ms in
      bracketed "{" (fields (map (λ k. (k, looked_up k encoded)) (sort text_le (member_keys ms))))
  encode (array vs) = bracketed "[" (entries (encode_items vs))
  encode null = some "null"
  encode (boolean b) = some (if b then "true" else "false")
  encode (number n) = some n
  encode (text s) = some (quoted s)

  encode_items : Items → List (Option String)
  encode_items no_item = []
  encode_items (item v vs) = encode v ∷ encode_items vs

  encode_members : Members → List (String × Option String)
  encode_members no_member = []
  encode_members (member k v ms) = (k, encode v) ∷ encode_members ms

looked_up-encode :
    (k : String) (ms : Members) → looked_up k (encode_members ms) ≡ encode (or_null (find k ms))
unfolding encode encode_members find
looked_up-encode k no_member = refl
looked_up-encode k (member j v ms) = go (str_eq j k) (looked_up-encode k ms)
  where
    go :
        (b : Bool)
        → looked_up k (encode_members ms) ≡ encode (or_null (find k ms))
        → (if b then encode v else looked_up k (encode_members ms))
          ≡ encode (or_null (if b then some v else find k ms))
    go true e = refl
    go false e = e

encode_items-encodings : (vs : Items) → encode_items vs ≡ encodings encode vs
unfolding encode_items encodings
encode_items-encodings no_item = refl
encode_items-encodings (item v vs) = ap (λ l. encode v ∷ l) (encode_items-encodings vs)

abbrev digest : Digest
digest = record { marshal = encode; hash = λ s. s }

digest-IsJson : IsJson digest
unfolding encode
digest-IsJson = record {
  of_members = λ l. bracketed "{" (fields l);
  of_items = λ l. bracketed "[" (entries l);
  marshal-object = λ ms.
      ap (λ l. bracketed "{" (fields l))
        (map-eq (λ k. (k, looked_up k (encode_members ms))) (λ k. (k, encode (or_null (find k ms))))
          (sort text_le (member_keys ms)) (λ k. ap (λ o. (k, o)) (looked_up-encode k ms)));
  marshal-array = λ vs. ap (λ l. bracketed "[" (entries l)) (encode_items-encodings vs);
}

hash-eq_example :
    (canonical_json digest in_order ≡ encode in_order)
    × (canonical_json digest in_order ≡ canonical_json digest out_of_order)
    × (hash_canonical_json digest in_order ≡ hash_canonical_json digest out_of_order)
hash-eq_example = hash-eq digest digest-IsJson in_order out_of_order in_order-Same

-- The members are written in the order of their keys.
out_of_order-encoded : canonical_json digest out_of_order ≡ some "{\"a\":null,\"b\":\"x\"}"
unfolding canonical_json encode encode_items encode_members normalize_for_canonical find member_keys
    sort text_le arrange
out_of_order-encoded = refl
