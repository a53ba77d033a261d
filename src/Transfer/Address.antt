-- ===== src/Transfer/Address.antt =====
-- internal/transfer/server.go, RankedTransferAddresses: the addresses at which peers reach this machine.
pub mod Ranking
use mantlerd.Base.{
  ℕ, ◌≡◌, refl, sym, subst, ap, ◌∙◌, ◌↔◌, ◌⊎◌, inl, inr, Bool, true, false, not, ◌&&◌, ◌||◌, List,
  [], ◌∷◌, ◌++◌, Memᴰ, Permᴰ, Option, none, some, map, arith, leb, ◌==◌, if◌then◌else◌, sort,
  IsSorted, sort-IsSorted, sort-perm, Memᴰ-perm, IsOrder, Memᴰ-append_left, Memᴰ-append_right,
  Bool-cases,
}

pub record Ip4 : Type 0 where
  pub b0 : ℕ
  pub b1 : ℕ
  pub b2 : ℕ
  pub b3 : ℕ

-- What package net and ifaceSpeedMbps tell of an interface. An address that is no IPv4 network is `none`.
pub record Interface : Type 0 where
  pub is_up : Bool
  pub is_loopback : Bool
  pub speed : ℕ
  pub addrs : Option (List (Option Ip4))

pub record Candidate : Type 0 where
  pub ip : Ip4
  pub speed : ℕ

unfoldable pub is_private_ip : Ip4 → Bool
is_private_ip ip =
    ip.b0 == 10
    || (ip.b0 == 172 && leb 16 ip.b1 && leb ip.b1 31)
    || (ip.b0 == 192 && ip.b1 == 168)
    || (ip.b0 == 169 && ip.b1 == 254)

-- The loop over the addresses of one interface.
unfoldable pub private_of : ℕ → List (Option Ip4) → List Candidate
private_of speed [] = []
private_of speed (none ∷ addrs) = private_of speed addrs
private_of speed (some ip ∷ addrs) =
    let rest = private_of speed addrs in
    if not (is_private_ip ip) then rest else record { ip = ip; speed = speed } ∷ rest

unfoldable pub of_interface : Interface → List Candidate
of_interface iface =
    if not iface.is_up || iface.is_loopback
    then []
    else elim iface.addrs [ none ↦ [] | some addrs ↦ private_of iface.speed addrs ]

unfoldable pub candidates : List Interface → List Candidate
candidates [] = []
candidates (iface ∷ ifaces) = of_interface iface ++ candidates ifaces

abbrev pub not_slower : Candidate → Candidate → Bool
not_slower a b = leb b.speed a.speed

-- `none` where net.Interfaces fails.
unfoldable pub ranked_transfer_addresses : Option (List Interface) → List Ip4
ranked_transfer_addresses none = []
ranked_transfer_addresses (some ifaces) = map (λ c. c.ip) (sort not_slower (candidates ifaces))
