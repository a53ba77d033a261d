-- ===== src/Runtime/Manager/Registry.antt =====
-- The registry as the routing sees it.
use mantlerd.Base.{
  ◌≡◌, refl, sym, subst, ◌↔◌, true, ◌&&◌, String, List, [], ◌∷◌, Memᴰ, Permᴰ, some, arith, text_le,
  sort-perm, Memᴰ-perm, keep-Memᴰ, Memᴰ-keep, map-Memᴰ, Memᴰ-map, map-perm, keep-perm,
  sort_texts-eq_of_perm,
}
use mathlib.Core.List.Permᴰ
use mantlerd.Base.Dict.{lookup}
use mantlerd.Runtime.Driver.{Driver, ok}
use mantlerd.Runtime.Manager.{
  Manager, normalize, driver_for, installed_runtimes, ready_runtimes, is_runtime_installed,
  first_runtime, preferred_driver_for_model,
}

module _ {W : Type 0} where
  -- Every driver is found under the key at which it stands.
  abbrev pub IsRegistry : Manager W → Type 0
  IsRegistry m =
      (name : String) (d : Driver W)
      → Memᴰ (name, d) m.drivers
      → lookup (normalize name) m.drivers ≡ some d

  -- A runtime is listed exactly if the registry has a driver of that name that reports that it is installed.
  pub installed_iff :
      (m : Manager W) (w : W) (name : String)
      → Memᴰ name (installed_runtimes m w)
        ↔ ((d : Driver W) × Memᴰ (name, d) m.drivers × (d.is_installed w ≡ true))
  unfolding installed_runtimes
  installed_iff m w name = (listed, installed)
    where
      listed :
          Memᴰ name (installed_runtimes m w)
          → (d : Driver W) × Memᴰ (name, d) m.drivers × (d.is_installed w ≡ true)
      listed k =
          let ((n, d), in_kept, e) = map-Memᴰ (λ e. e.0) _ (Memᴰ-perm (sort-perm text_le _) k) in
          let (in_drivers, h) = keep-Memᴰ (λ e. e.1.is_installed w) m.drivers in_kept in
          (d, subst (λ s. Memᴰ (s, d) m.drivers) (sym e) in_drivers, h)

      installed :
          ((d : Driver W) × Memᴰ (name, d) m.drivers × (d.is_installed w ≡ true))
          → Memᴰ name (installed_runtimes m w)
      installed (d, k, h) =
          Memᴰ-perm (Permᴰ.symm (sort-perm text_le _))
            (Memᴰ-map (λ e. e.0) (Memᴰ-keep (λ e. e.1.is_installed w) m.drivers k h))

  -- Neither the set of installed runtimes nor its order depends on how Go iterates over the registry.
  pub installed-eq_of_perm :
      (m n : Manager W) (w : W)
      → Permᴰ m.drivers n.drivers
      → installed_runtimes m w ≡ installed_runtimes n w
  unfolding installed_runtimes
  installed-eq_of_perm m n w p =
      sort_texts-eq_of_perm (map-perm (λ e. e.0) (keep-perm (λ e. e.1.is_installed w) p))

  pub ready-installed :
      (m : Manager W) (w : W) (name : String)
      → Memᴰ name (ready_runtimes m w)
      → Memᴰ name (installed_runtimes m w)
  unfolding ready_runtimes
  ready-installed m w name k =
      let ((n, d), in_kept, e) = map-Memᴰ (λ e. e.0) _ (Memᴰ-perm (sort-perm text_le _) k) in
      let (in_drivers, h) =
        keep-Memᴰ (λ e. e.1.is_installed w && e.1.is_ready w) m.drivers in_kept in
      (installed_iff m w name).1
        (d, subst (λ s. Memᴰ (s, d) m.drivers) (sym e) in_drivers, ground arith)

  driver_for-first :
      (m : Manager W) (w : W)
      → IsRegistry m
      → (names : List String) {d : Driver W}
      → ((name : String) → Memᴰ name names → Memᴰ name (installed_runtimes m w))
      → first_runtime m names ≡ ok d
      → d.is_installed w ≡ true
  unfolding driver_for
  driver_for-first m w r [] sub h = cc
  driver_for-first m w r (name ∷ names) sub h =
      let (d', k, installed) = (installed_iff m w name).0 (sub name (Memᴰ.head refl)) in
      let found = r name d' k in ground arith

  -- The driver that the manager prefers for a model is one that reports that it is installed.
  pub preferred-installed :
      (m : Manager W) (model_id : String) (w : W) {d : Driver W}
      → IsRegistry m
      → preferred_driver_for_model m model_id w ≡ ok d
      → d.is_installed w ≡ true
  unfolding preferred_driver_for_model is_runtime_installed
  preferred-installed m model_id w {d} r h = ground (
    arith,
    driver_for-first m w r (installed_runtimes m w) {d = d}
        (λ (name : String) (k : Memᴰ name (installed_runtimes m w)). k),
  )
