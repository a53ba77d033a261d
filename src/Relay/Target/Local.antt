-- ===== src/Relay/Target/Local.antt =====
-- Which URLs are computed and accepted.
use Prim.Native.String.{◌++◌ as concat}
use text.Mathlib.TextLemmas.{cons-append}
use mantlerd.Base.{
  ℕ, ◌≡◌, refl, inl, inr, Bool, true, false, String, List, [], ◌∷◌, Memᴰ, Option, none, some,
  str_eq, trim_space, to_lower, ◌||◌, Bool-cases, if◌then◌else◌, has_prefix, any, any-Memᴰ,
}
use mantlerd.Relay.Target.{
  Urls, Inventory, resolve, runtime_for, or_else, rooted, path_for, local_url,
  local_url_for_request, validate_proxy_path, allowed_proxy_path_prefixes,
}

abbrev pub runtime_ports : List ℕ
runtime_ports = 8000 ∷ 1234 ∷ 8080 ∷ 11434 ∷ []

-- The URL is that of a path on a runtime's port of this machine, and its path, as package net/url reads
-- it, has an allowed prefix.
pub record IsLocal (urls : Urls) (url : String) : Type 0 where
  pub port : ℕ
  pub path : String
  pub known : Memᴰ port runtime_ports
  pub rooted : has_prefix path "/" ≡ true
  pub here : url ≡ local_url urls port path

one_of :
    (b : Bool) {x y : ℕ}
    → Memᴰ x runtime_ports
    → Memᴰ y runtime_ports
    → Memᴰ (if b then x else y) runtime_ports
one_of true m k = m
one_of false m k = k

resolve-runtime_ports : (name : String) → Memᴰ (resolve name) runtime_ports
unfolding resolve
resolve-runtime_ports runtime_name =
    let name = to_lower (trim_space runtime_name) in
    one_of (str_eq name "vllm" || str_eq name "tensorrt") (Memᴰ.head refl) (
      one_of (str_eq name "llamacpp") (Memᴰ.tail (Memᴰ.head refl)) (
        one_of (str_eq name "quantcpp" || str_eq name "mlx")
          (Memᴰ.tail (Memᴰ.tail (Memᴰ.head refl)))
          (Memᴰ.tail (Memᴰ.tail (Memᴰ.tail (Memᴰ.head refl))))))

concat-has_prefix : (path : String) → has_prefix (concat "/" path) "/" ≡ true
unfolding has_prefix
concat-has_prefix path = rw (cons-append "/" "" path) refl

rooted-has_prefix : (path : String) → has_prefix (rooted path) "/" ≡ true
unfolding rooted
rooted-has_prefix path = elim (Bool-cases (has_prefix path "/")) [
  | inl e ↦ rw e e
  | inr e ↦ rw e (concat-has_prefix path)
]

pub resolved-IsLocal :
    (urls : Urls) (inventory : Inventory) (runtime path : String)
    → IsLocal urls (local_url_for_request urls inventory runtime path)
unfolding local_url_for_request path_for
resolved-IsLocal urls inventory runtime path = record {
  port = resolve (runtime_for inventory runtime);
  path = path_for path;
  known = resolve-runtime_ports (runtime_for inventory runtime);
  rooted = rooted-has_prefix (or_else (trim_space path) "/v1/chat/completions");
  here = refl;
}

pub validated :
    (urls : Urls) (url : String)
    → validate_proxy_path urls url ≡ true
    → (path : String) × (prefix : String) × (urls.path_of url ≡ some path)
      × Memᴰ prefix allowed_proxy_path_prefixes
      × (has_prefix path prefix ≡ true)
unfolding validate_proxy_path
validated urls url h = go (urls.path_of url) refl h
  where
    go :
        (o : Option String)
        → urls.path_of url ≡ o
        → (elim o [ none ↦ false | some path ↦ any (has_prefix path) allowed_proxy_path_prefixes ])
          ≡ true
        → (path : String) × (prefix : String) × (urls.path_of url ≡ some path)
          × Memᴰ prefix allowed_proxy_path_prefixes
          × (has_prefix path prefix ≡ true)
    go none e k = absurd (cc k)
    go (some path) e k =
        let (prefix, m, p) = any-Memᴰ (has_prefix path) allowed_proxy_path_prefixes k in
        (path, prefix, e, m, p)
