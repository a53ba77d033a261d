-- ===== src/Pipeline/Value/Canonical.antt =====
-- CanonicalJSON and HashCanonicalJSON in internal/pipeline/contract.go, under the order of json.Marshal.
use mathlib.Core.List.Permᴰ
use mantlerd.Base.{
  ◌≡◌, refl, sym, ◌∙◌, ap, subst, ◌⊎◌, inl, inr, Bool, true, false, String, List, [], ◌∷◌, map,
  Option, none, some, Memᴰ, Permᴰ, sort, sort-perm, Memᴰ-perm, text_le, str_eq, eq_iff, Bool-cases,
  sort_texts-eq_of_perm, if◌then◌else◌,
}
use mantlerd.Pipeline.Value.{
  Value, null, boolean, number, text, array, object, Items, no_item, item, Members, no_member,
  member, find, member_keys, or_null, arrange, normalize_for_canonical, normalize_items,
  normalize_members, Digest, canonical_json, hash_canonical_json,
}

mutual
  -- Values that are equal but for the order of the members of objects.
  pub data Same : Value → Value → Type 0 where
    equal : (v : Value) → Same v v
    arrays : (vs ws : Items) → SameItems vs ws → Same (array vs) (array ws)
    objects :
        (ms ns : Members)
        → Permᴰ (member_keys ms) (member_keys ns)
        → ((k : String) → SameFound (find k ms) (find k ns))
        → Same (object ms) (object ns)

  pub data SameItems : Items → Items → Type 0 where
    no_items : SameItems no_item no_item
    items :
        (v w : Value) (vs ws : Items)
        → Same v w
        → SameItems vs ws
        → SameItems (item v vs) (item w ws)

  pub data SameFound : Option Value → Option Value → Type 0 where
    absent : SameFound none none
    present : (v w : Value) → Same v w → SameFound (some v) (some w)

-- The encodings of the items of a slice.
unfoldable pub encodings : (Value → Option String) → Items → List (Option String)
encodings marshal no_item = []
encodings marshal (item v vs) = marshal v ∷ encodings marshal vs

-- What package encoding/json documents: a map is encoded with its keys sorted, from the keys and the encodings of
-- their values, and a slice from the encodings of its items, in their order.
pub record IsJson (d : Digest) : Type 0 where
  pub of_members : List (String × Option String) → Option String
  pub of_items : List (Option String) → Option String
  pub marshal-object :
      (ms : Members)
      → d.marshal (object ms)
        ≡ of_members
            (map (λ k. (k, d.marshal (or_null (find k ms)))) (sort text_le (member_keys ms)))
  pub marshal-array : (vs : Items) → d.marshal (array vs) ≡ of_items (encodings d.marshal vs)

normalized : Option Value → Option Value
normalized none = none
normalized (some v) = some (normalize_for_canonical v)

find-normalize_members :
    (k : String) (ms : Members) → find k (normalize_members ms) ≡ normalized (find k ms)
unfolding find normalize_members normalized
find-normalize_members k no_member = refl
find-normalize_members k (member j v ms) = go (str_eq j k) (find-normalize_members k ms)
  where
    go :
        (b : Bool)
        → find k (normalize_members ms) ≡ normalized (find k ms)
        → (if b then some (normalize_for_canonical v) else find k (normalize_members ms))
          ≡ normalized (if b then some v else find k ms)
    go true e = refl
    go false e = e

keys-normalize_members : (ms : Members) → member_keys (normalize_members ms) ≡ member_keys ms
unfolding member_keys normalize_members
keys-normalize_members no_member = refl
keys-normalize_members (member k v ms) = ap (λ ks. k ∷ ks) (keys-normalize_members ms)

keys-arrange : (ks : List String) (ms : Members) → member_keys (arrange ks ms) ≡ ks
unfolding member_keys arrange
keys-arrange [] ms = refl
keys-arrange (k ∷ ks) ms = ap (λ l. k ∷ l) (keys-arrange ks ms)

-- A key that is not listed is not found.
listed_or_absent : (k : String) (ms : Members) → Memᴰ k (member_keys ms) ⊎ (find k ms ≡ none)
unfolding find member_keys
listed_or_absent k no_member = inr refl
listed_or_absent k (member j v ms) = elim (Bool-cases (str_eq j k)) [
  | inl e ↦ inl (Memᴰ.head (sym ((eq_iff j k).0 e)))
  | inr e ↦ elim (listed_or_absent k ms) [ inl m ↦ inl (Memᴰ.tail m) | inr n ↦ inr (rw e n) ]
]

-- Filling a map with the keys of another loses no value.
find-arrange :
    (k : String) (ks : List String) (ms : Members)
    → Memᴰ k ks ⊎ (find k ms ≡ none)
    → or_null (find k (arrange ks ms)) ≡ or_null (find k ms)
unfolding arrange find
find-arrange k [] ms (inl m) = elim m [ ]
find-arrange k [] ms (inr n) = rw n refl
find-arrange k (j ∷ ks) ms h = elim (Bool-cases (str_eq j k)) [
  | inl e ↦ rw e (ap (λ x. or_null (find x ms)) ((eq_iff j k).0 e))
  | inr e ↦ rw e (find-arrange k ks ms (rest e h))
]
  where
    rest :
        str_eq j k ≡ false → Memᴰ k (j ∷ ks) ⊎ (find k ms ≡ none) → Memᴰ k ks ⊎ (find k ms ≡ none)
    rest e (inr n) = inr n
    rest e (inl (Memᴰ.tail m)) = inl m
    rest e (inl (Memᴰ.head q)) = absurd (let same = (eq_iff j k).1 (sym q) in cc)

pub map-eq :
    {B : Type 0} (f g : String → B) (ks : List String)
    → ((k : String) → f k ≡ g k)
    → map f ks ≡ map g ks
map-eq f g ks h = ap (λ t. map t ks) (λ i k. h k i)

module _ (d : Digest) (law : IsJson d) where
  open law use {of_members, of_items, marshal-object, marshal-array}

  -- The encoding of the value of a key.
  abbrev encoded : Option Value → Option String
  encoded o = d.marshal (or_null o)

  -- Two maps with the same keys and encodings are encoded alike.
  object-eq :
      (ms ns : Members)
      → sort text_le (member_keys ms) ≡ sort text_le (member_keys ns)
      → ((k : String) → encoded (find k ms) ≡ encoded (find k ns))
      → d.marshal (object ms) ≡ d.marshal (object ns)
  object-eq ms ns e h =
      marshal-object ms
      ∙ ap of_members (
          ap (map (λ k. (k, encoded (find k ms)))) e
          ∙ map-eq (λ k. (k, encoded (find k ms))) (λ k. (k, encoded (find k ns)))
              (sort text_le (member_keys ns)) (λ k. ap (λ o. (k, o)) (h k)))
      ∙ sym (marshal-object ns)

  arranged-eq :
      (ms : Members)
      → ((k : String) → encoded (normalized (find k ms)) ≡ encoded (find k ms))
      → d.marshal (normalize_for_canonical (object ms)) ≡ d.marshal (object ms)
  unfolding normalize_for_canonical
  arranged-eq ms h =
      let ks = sort text_le (member_keys ms) in
      let ns = normalize_members ms in
      object-eq (arrange ks ns) ms
        (ap (sort text_le) (keys-arrange ks ns)
          ∙ sort_texts-eq_of_perm (sort-perm text_le (member_keys ms)))
        (λ k.
          ap d.marshal (find-arrange k ks ns (listed k ms))
          ∙ ap encoded (find-normalize_members k ms)
          ∙ h k)
    where
      listed :
          (k : String) (ms : Members)
          → Memᴰ k (sort text_le (member_keys ms)) ⊎ (find k (normalize_members ms) ≡ none)
      listed k ms =
          let keys = keys-normalize_members ms in
          elim (listed_or_absent k (normalize_members ms)) [
            | inl m ↦ inl (
                Memᴰ-perm (Permᴰ.symm (sort-perm text_le (member_keys ms)))
                  (subst (λ l. Memᴰ k l) keys m))
            | inr n ↦ inr n
          ]

  found_if :
      (b : Bool) (v : Value) (o : Option Value)
      → d.marshal (normalize_for_canonical v) ≡ d.marshal v
      → encoded (normalized o) ≡ encoded o
      → encoded (normalized (if b then some v else o)) ≡ encoded (if b then some v else o)
  unfolding normalized
  found_if true v o h k = h
  found_if false v o h k = k

  mutual
    unfolding normalize_for_canonical normalize_items normalize_members normalized encodings find

    -- The canonical form is encoded as the value itself.
    canonical-marshal : (v : Value) → d.marshal (normalize_for_canonical v) ≡ d.marshal v
    canonical-marshal (object ms) = arranged-eq ms (found-marshal ms)
    canonical-marshal (array vs) =
        marshal-array (normalize_items vs) ∙ ap of_items (items-marshal vs) ∙ sym (marshal-array vs)
    canonical-marshal null = refl
    canonical-marshal (boolean b) = refl
    canonical-marshal (number n) = refl
    canonical-marshal (text s) = refl

    items-marshal : (vs : Items) → encodings d.marshal (normalize_items vs) ≡ encodings d.marshal vs
    items-marshal no_item = refl
    items-marshal (item v vs) =
        ap (λ o. o ∷ encodings d.marshal (normalize_items vs)) (canonical-marshal v)
        ∙ ap (λ l. d.marshal v ∷ l) (items-marshal vs)

    found-marshal :
        (ms : Members) (k : String) → encoded (normalized (find k ms)) ≡ encoded (find k ms)
    found-marshal no_member k = refl
    found-marshal (member j v ms) k =
        found_if (str_eq j k) v (find k ms) (canonical-marshal v) (found-marshal ms k)

  mutual
    unfolding encodings

    -- Values that are equal but for the order of members are encoded alike.
    Same-marshal : (v w : Value) → Same v w → d.marshal v ≡ d.marshal w
    Same-marshal _ _ (equal v) = refl
    Same-marshal _ _ (arrays vs ws h) =
        marshal-array vs ∙ ap of_items (SameItems-marshal vs ws h) ∙ sym (marshal-array ws)
    Same-marshal _ _ (objects ms ns p h) =
        object-eq ms ns (sort_texts-eq_of_perm p)
          (λ k. SameFound-marshal (find k ms) (find k ns) (h k))

    SameItems-marshal :
        (vs ws : Items) → SameItems vs ws → encodings d.marshal vs ≡ encodings d.marshal ws
    SameItems-marshal _ _ no_items = refl
    SameItems-marshal _ _ (items v w vs ws h k) =
        ap (λ o. o ∷ encodings d.marshal vs) (Same-marshal v w h)
        ∙ ap (λ l. d.marshal w ∷ l) (SameItems-marshal vs ws k)

    SameFound-marshal : (o p : Option Value) → SameFound o p → encoded o ≡ encoded p
    SameFound-marshal _ _ absent = refl
    SameFound-marshal _ _ (present v w h) = Same-marshal v w h

  abbrev hashed : Option String → Option String
  hashed o = elim o [ none ↦ none | some raw ↦ some (d.hash raw) ]

  -- With a json.Marshal that encodes a map from its sorted keys and the encodings of their values, and a slice from
  -- those of its items, the canonical JSON of a value is what json.Marshal gives for the value itself, and
  -- this JSON and its hash are the same for two values that are equal but for the order in which the
  -- members of their objects are iterated.
  pub hash-eq :
      (v w : Value)
      → Same v w
      → (canonical_json d v ≡ d.marshal v)
        × (canonical_json d v ≡ canonical_json d w)
        × (hash_canonical_json d v ≡ hash_canonical_json d w)
  unfolding canonical_json hash_canonical_json
  hash-eq v w h =
      let e = canonical-marshal v ∙ Same-marshal v w h ∙ sym (canonical-marshal w) in
      (canonical-marshal v, e, ap hashed e)
