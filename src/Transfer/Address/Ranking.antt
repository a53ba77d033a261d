-- ===== src/Transfer/Address/Ranking.antt =====
-- Which addresses are offered, and in which order.
use mantlerd.Base.{
  ℕ, ◌≡◌, refl, sym, subst, ap, ◌∙◌, ◌↔◌, inl, inr, true, false, List, [], ◌∷◌, Memᴰ, Option, none,
  some, map, arith, sort, IsSorted, sort-IsSorted, sort-perm, Memᴰ-perm, IsOrder, append-Memᴰ,
  Memᴰ-append_left, Memᴰ-append_right, Bool-cases,
}
use mathlib.Core.List.Permᴰ
use mantlerd.Transfer.Address.{
  Ip4, Interface, Candidate, is_private_ip, private_of, of_interface, candidates, not_slower,
  ranked_transfer_addresses,
}

-- The candidate is a private address of an interface that is up and no loopback, at its speed.
pub record IsReachable (c : Candidate) (iface : Interface) : Type 0 where
  pub addrs : List (Option Ip4)
  pub is_up : iface.is_up ≡ true
  pub no_loopback : iface.is_loopback ≡ false
  pub known : iface.addrs ≡ some addrs
  pub listed : Memᴰ (some c.ip) addrs
  pub is_private : is_private_ip c.ip ≡ true
  pub at_speed : c.speed ≡ iface.speed

private_of_sound :
    (speed : ℕ) (addrs : List (Option Ip4)) (c : Candidate)
    → Memᴰ c (private_of speed addrs)
    → Memᴰ (some c.ip) addrs × (is_private_ip c.ip ≡ true) × (c.speed ≡ speed)
unfolding private_of
private_of_sound speed [] c m = elim m [ ]
private_of_sound speed (none ∷ addrs) c m =
    let (k, p, s) = private_of_sound speed addrs c m in (Memᴰ.tail k, p, s)
private_of_sound speed (some ip ∷ addrs) c m = elim (Bool-cases (is_private_ip ip)) [
  | inl p ↦ first p (private_of_sound speed addrs c) (rw p at m)
  | inr n ↦ let (k, p, s) = private_of_sound speed addrs c (rw n at m) in (Memᴰ.tail k, p, s)
]
  where
    first :
        is_private_ip ip ≡ true
        → (Memᴰ c (private_of speed addrs)
            → Memᴰ (some c.ip) addrs × (is_private_ip c.ip ≡ true) × (c.speed ≡ speed))
        → Memᴰ c (record { ip = ip; speed = speed } ∷ private_of speed addrs)
        → Memᴰ (some c.ip) (some ip ∷ addrs) × (is_private_ip c.ip ≡ true) × (c.speed ≡ speed)
    first p later (Memᴰ.head e) = (
      Memᴰ.head (ap (λ (x : Candidate). some x.ip) e),
      ap (λ (x : Candidate). is_private_ip x.ip) e ∙ p,
      ap (λ (x : Candidate). x.speed) e,
    )
    first p later (Memᴰ.tail k) = let (l, q, s) = later k in (Memᴰ.tail l, q, s)

private_of_complete :
    (speed : ℕ) (addrs : List (Option Ip4)) (ip : Ip4)
    → Memᴰ (some ip) addrs
    → is_private_ip ip ≡ true
    → Memᴰ (record { ip = ip; speed = speed }) (private_of speed addrs)
unfolding private_of
private_of_complete speed [] ip m p = elim m [ ]
private_of_complete speed (none ∷ addrs) ip (Memᴰ.head e) p = absurd (cc e)
private_of_complete speed (none ∷ addrs) ip (Memᴰ.tail m) p = private_of_complete speed addrs ip m p
private_of_complete speed (some x ∷ addrs) ip (Memᴰ.head e) p =
    let same : ip ≡ x = cc e in
    rw (ap is_private_ip (sym same) ∙ p) (Memᴰ.head (λ i. record { ip = same i; speed = speed }))
private_of_complete speed (some x ∷ addrs) ip (Memᴰ.tail m) p =
    elim (Bool-cases (is_private_ip x)) [
      | inl q ↦ rw q (Memᴰ.tail (private_of_complete speed addrs ip m p))
      | inr q ↦ rw q (private_of_complete speed addrs ip m p)
    ]

of_interface_sound :
    (iface : Interface) (c : Candidate) → Memᴰ c (of_interface iface) → IsReachable c iface
unfolding of_interface
of_interface_sound iface c m = elim (Bool-cases iface.is_up) [
  | inr down ↦ absurd (nothing (rw down at m))
  | inl up ↦ elim (Bool-cases iface.is_loopback) [
    | inl loop ↦ absurd (nothing (rw (up, loop) at m))
    | inr no_loop ↦ known up no_loop iface.addrs refl (rw (up, no_loop) at m)
  ]
]
  where
    nothing : Memᴰ c [] → ⊥
    nothing k = elim k [ ]

    known :
        iface.is_up ≡ true
        → iface.is_loopback ≡ false
        → (o : Option (List (Option Ip4))) → iface.addrs ≡ o
        → Memᴰ c (elim o [ none ↦ [] | some addrs ↦ private_of iface.speed addrs ])
        → IsReachable c iface
    known up no_loop none e k = absurd (nothing k)
    known up no_loop (some addrs) e k =
        let (listed, p, s) = private_of_sound iface.speed addrs c k in
        record {
          addrs = addrs;
          is_up = up;
          no_loopback = no_loop;
          known = e;
          listed = listed;
          is_private = p;
          at_speed = s;
        }

of_interface_complete :
    (iface : Interface) (c : Candidate) → IsReachable c iface → Memᴰ c (of_interface iface)
unfolding of_interface
of_interface_complete iface c r =
    rw (r.is_up, r.no_loopback, r.known)
      (subst (λ x. Memᴰ x (private_of iface.speed r.addrs))
        (ap (λ s. record { ip = c.ip; speed = s }) (sym r.at_speed))
        (private_of_complete iface.speed r.addrs c.ip r.listed r.is_private))

-- Some interface of the list makes the candidate reachable.
abbrev pub IsOffered : List Interface → Candidate → Type 0
IsOffered ifaces c = (iface : Interface) × Memᴰ iface ifaces × IsReachable c iface

candidates_sound :
    (ifaces : List Interface) (c : Candidate) → Memᴰ c (candidates ifaces) → IsOffered ifaces c
unfolding candidates
candidates_sound [] c m = elim m [ ]
candidates_sound (iface ∷ ifaces) c m =
    elim (append-Memᴰ (of_interface iface) (candidates ifaces) m) [
      | inl k ↦ (iface, Memᴰ.head refl, of_interface_sound iface c k)
      | inr k ↦ let (other, l, r) = candidates_sound ifaces c k in (other, Memᴰ.tail l, r)
    ]

candidates_complete :
    (ifaces : List Interface) (c : Candidate) → IsOffered ifaces c → Memᴰ c (candidates ifaces)
unfolding candidates
candidates_complete [] c (iface, m, r) = elim m [ ]
candidates_complete (x ∷ ifaces) c (iface, Memᴰ.head e, r) =
    Memᴰ-append_left (candidates ifaces) (of_interface_complete x c (subst (IsReachable c) e r))
candidates_complete (x ∷ ifaces) c (iface, Memᴰ.tail m, r) =
    Memᴰ-append_right (of_interface x) (candidates_complete ifaces c (iface, m, r))

not_slower-IsOrder : IsOrder not_slower
not_slower-IsOrder = record { total = λ a b. ground arith; trans = λ a b c h k. ground arith }

-- The offered addresses are the addresses of a list of candidates in which no candidate stands behind a
-- slower one, and which has exactly the private IPv4 addresses of the interfaces that are up and no
-- loopback, each at the speed of its interface.
pub ranked-IsOffered :
    (ifaces : List Interface)
    → (cs : List Candidate) × (ranked_transfer_addresses (some ifaces) ≡ map (λ c. c.ip) cs)
      × IsSorted not_slower cs
      × ((c : Candidate) → Memᴰ c cs ↔ IsOffered ifaces c)
unfolding ranked_transfer_addresses
ranked-IsOffered ifaces = (
  sort not_slower (candidates ifaces),
  refl,
  sort-IsSorted not_slower not_slower-IsOrder (candidates ifaces),
  λ c. (
    λ m. candidates_sound ifaces c (Memᴰ-perm (sort-perm not_slower (candidates ifaces)) m),
    λ o.
        Memᴰ-perm (Permᴰ.symm (sort-perm not_slower (candidates ifaces)))
          (candidates_complete ifaces c o),
  ),
)
