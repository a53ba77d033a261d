-- ===== src/Runtime/Prepare/Routing.antt =====
-- Which driver has prepared a model.
use mantlerd.Base.{
  ◌≡◌, refl, ap, inl, inr, true, false, String, Option, none, some, str_eq, trim_space, contains,
  Bool-cases,
}
use mantlerd.Runtime.Driver.{Driver, Error, Flags, ◌>>◌, wrapping, Result, ok, err, on_driver}
use mantlerd.Runtime.Manager.{Manager, driver_for, ensure_runtime, preferred_driver_for_model}
use mantlerd.Runtime.Prepare.{Preparation, prepare_preferred, prepare_tagged, route_model}

module _ {W : Type 0} (prepare : Preparation W) (m : Manager W) (flags : Option Flags) where
  -- The last thing that happened on the host is that a driver prepared the model without an error.
  -- It is the driver of vLLM, or, of an ID with no slash, that of Ollama or the preferred one.
  pub data Prepared (model : String) (w' : W) : Type 0 where
    on_vllm :
        (d : Driver W) (v : W)
        → driver_for m "vllm" ≡ ok d
        → prepare d model flags v ≡ (w', none)
        → Prepared model w'
    on_ollama :
        (d : Driver W) (v : W)
        → contains model "/" ≡ false
        → contains model ":" ≡ true
        → driver_for m "ollama" ≡ ok d
        → prepare d model flags v ≡ (w', none)
        → Prepared model w'
    on_preferred :
        (d : Driver W) (v : W)
        → contains model "/" ≡ false
        → preferred_driver_for_model m model v ≡ ok d
        → prepare d model flags v ≡ (w', none)
        → Prepared model w'

  preferred-Prepared :
      (model : String) (w w' : W)
      → contains model "/" ≡ false
      → prepare_preferred prepare m model flags w ≡ (w', none)
      → Prepared model w'
  unfolding prepare_preferred
  preferred-Prepared model w w' no_slash h = go (preferred_driver_for_model m model w) refl h
    where
      go :
          (r : Result (Driver W))
          → preferred_driver_for_model m model w ≡ r
          → on_driver r (λ d. prepare d model flags) w ≡ (w', none)
          → Prepared model w'
      go (ok d) e k = on_preferred d w no_slash e k
      go (err x) e k = absurd (cc (ap (λ t. t.1) k))

  tagged-Prepared :
      (model : String) (w w' : W)
      → contains model "/" ≡ false
      → contains model ":" ≡ true
      → prepare_tagged prepare m model flags w ≡ (w', none)
      → Prepared model w'
  unfolding prepare_tagged
  tagged-Prepared model w w' no_slash colon h = go (ensure_runtime m "ollama" w) h
    where
      found :
          (v : W) (r : Result (Driver W))
          → driver_for m "ollama" ≡ r
          → elim r [
            | ok d ↦ prepare d model flags v
            | err x ↦ prepare_preferred prepare m model flags v
          ]
            ≡ (w', none)
          → Prepared model w'
      found v (ok d) e k = on_ollama d v no_slash colon e k
      found v (err x) e k = preferred-Prepared model v w' no_slash k

      go :
          (r : W × Option Error)
          → elim r.1 [
            | some x ↦ prepare_preferred prepare m model flags r.0
            | none ↦ elim (driver_for m "ollama") [
              | ok d ↦ prepare d model flags r.0
              | err x ↦ prepare_preferred prepare m model flags r.0
            ]
          ]
            ≡ (w', none)
          → Prepared model w'
      go (v, none) k = found v (driver_for m "ollama") refl k
      go (v, some x) k = preferred-Prepared model v w' no_slash k

  vllm-Prepared :
      (model : String) (w w' : W)
      → (wrapping "vllm" (ensure_runtime m "vllm")
            >> on_driver (driver_for m "vllm") (λ d. prepare d model flags))
          w
        ≡ (w', none)
      → Prepared model w'
  vllm-Prepared model w w' h = go (ensure_runtime m "vllm" w) h
    where
      found :
          (v : W) (r : Result (Driver W))
          → driver_for m "vllm" ≡ r
          → on_driver r (λ d. prepare d model flags) v ≡ (w', none)
          → Prepared model w'
      found v (ok d) e k = on_vllm d v e k
      found v (err x) e k = absurd (cc (ap (λ t. t.1) k))

      go :
          (r : W × Option Error)
          → (wrapping "vllm" (λ _. r)
                >> on_driver (driver_for m "vllm") (λ d. prepare d model flags))
              w
            ≡ (w', none)
          → Prepared model w'
      go (v, none) k = found v (driver_for m "vllm") refl k
      go (v, some x) k = absurd (cc (ap (λ t. t.1) k))

  -- If preparing a model by its ID alone returns no error, then the ID is not blank, and the last call
  -- on the host was that of a driver which prepared the trimmed ID: the driver of vLLM, or, only for an
  -- ID with no slash, the driver of Ollama (with a colon in the ID) or the preferred driver.
  pub route_model-Prepared :
      (model_id : String) (w w' : W)
      → route_model prepare m model_id flags w ≡ (w', none)
      → (str_eq (trim_space model_id) "" ≡ false) × Prepared (trim_space model_id) w'
  unfolding route_model
  route_model-Prepared model_id w w' h = elim (Bool-cases (str_eq (trim_space model_id) "")) [
    | inl blank ↦ absurd (cc (ap (λ t. t.1) (rw blank at h)))
    | inr named ↦ (named, routed named)
  ]
    where
      routed : str_eq (trim_space model_id) "" ≡ false → Prepared (trim_space model_id) w'
      routed named = elim (Bool-cases (contains (trim_space model_id) "/")) [
        | inl slash ↦ vllm-Prepared (trim_space model_id) w w' (rw (named, slash) at h)
        | inr no_slash ↦ elim (Bool-cases (contains (trim_space model_id) ":")) [
          | inl colon ↦
              tagged-Prepared (trim_space model_id) w w' no_slash colon
                (rw (named, no_slash, colon) at h)
          | inr no_colon ↦
              preferred-Prepared (trim_space model_id) w w' no_slash
                (rw (named, no_slash, no_colon) at h)
        ]
      ]
