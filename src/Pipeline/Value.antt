-- ===== src/Pipeline/Value.antt =====
-- internal/pipeline/contract.go, CanonicalJSON and HashCanonicalJSON, over what encoding/json decodes into
-- an `any`. The members of an object are a map, in one order of its iteration; a number is its text.
pub mod Canonical
mod Examples
use mantlerd.Base.{
  Bool, true, false, String, List, [], ◌∷◌, Option, none, some, sort, text_le, str_eq, trim_space,
  if◌then◌else◌,
}

mutual
  pub data Value : Type 0 where
    null : Value
    boolean : Bool → Value
    number text : String → Value
    array : Items → Value
    object : Members → Value

  pub data Items : Type 0 where
    no_item : Items
    item : Value → Items → Items

  pub data Members : Type 0 where
    no_member : Members
    member : String → Value → Members → Members

unfoldable pub find : String → Members → Option Value
find k no_member = none
find k (member j v ms) = let rest = find k ms in if str_eq j k then some v else rest

unfoldable pub member_keys : Members → List String
member_keys no_member = []
member_keys (member k v ms) = k ∷ member_keys ms

-- The value of a key, nil where there is none.
abbrev pub or_null : Option Value → Value
or_null none = null
or_null (some v) = v

-- The map that is filled with these keys. It is listed in the order in which they are put, which is one of the
-- orders in which Go may iterate it.
unfoldable pub arrange : List String → Members → Members
arrange [] ms = no_member
arrange (k ∷ ks) ms = member k (or_null (find k ms)) (arrange ks ms)

unfoldable mutual
  pub normalize_for_canonical : Value → Value
  normalize_for_canonical (object ms) =
      object (arrange (sort text_le (member_keys ms)) (normalize_members ms))
  normalize_for_canonical (array vs) = array (normalize_items vs)
  normalize_for_canonical null = null
  normalize_for_canonical (boolean b) = boolean b
  normalize_for_canonical (number n) = number n
  normalize_for_canonical (text s) = text s

  pub normalize_items : Items → Items
  normalize_items no_item = no_item
  normalize_items (item v vs) = item (normalize_for_canonical v) (normalize_items vs)

  pub normalize_members : Members → Members
  normalize_members no_member = no_member
  normalize_members (member k v ms) = member k (normalize_for_canonical v) (normalize_members ms)

-- json.Marshal, where it gives no error, and the hexadecimal digits of sha256.Sum256. What the text of a map does
-- not depend on, its order of iteration, is a law of json.Marshal (Pipeline/Value/Canonical).
pub record Digest : Type 0 where
  pub marshal : Value → Option String
  pub hash : String → String

unfoldable pub canonical_json : Digest → Value → Option String
canonical_json d v = d.marshal (normalize_for_canonical v)

unfoldable pub hash_canonical_json : Digest → Value → Option String
hash_canonical_json d v = elim (canonical_json d v) [ none ↦ none | some raw ↦ some (d.hash raw) ]
