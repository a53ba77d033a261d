-- ===== src/Transfer/Client/Verified.antt =====
-- What PullFromPeers returns.
use mantlerd.Base.{
  ℕ, ◌≡◌, refl, ap, Bool, true, false, String, List, [], ◌∷◌, Memᴰ, Option, none, some, str_eq,
  if-holds, if◌then◌else◌,
}
use mantlerd.Transfer.Token.{Codec}
use mantlerd.Transfer.Client.{
  PeerHint, TransferResult, Reply, Touch, Client, Done, is_expected, after, pull_from_peer,
  pull_each, pull_from_peers,
}

module _ (permits : Touch → Bool) {W : Type 0} (k : Codec) (now : W → ℕ)
    (get : String → ℕ → String → String → String → W → W × Option Reply) (c : Client)
    (model_id runtime : String) where
  -- One of the peers, which is another machine, served the result, and the result has the digest that the
  -- server told for the peer, if it told one.
  abbrev pub IsVerified : List PeerHint → W × Done TransferResult → Type 0
  IsVerified peers (w, (touched, none)) = Unit
  IsVerified peers (w, (touched, some r)) =
      (peer : PeerHint) × (v : W) × Memᴰ peer peers
      × (str_eq peer.machine_id c.machine_id ≡ false)
      × ((pull_from_peer permits k now get c peer model_id runtime v).1.1 ≡ some r)
      × (is_expected peer r ≡ true)

  later-IsVerified :
      (peer : PeerHint) (peers : List PeerHint) (touched : List Touch) (o : W × Done TransferResult)
      → IsVerified peers o
      → IsVerified (peer ∷ peers) (after permits k now get touched o)
  later-IsVerified peer peers touched (w, (more, none)) h = tt
  later-IsVerified peer peers touched (w, (more, some r)) (p, v, m, d, s, e) =
      (p, v, Memᴰ.tail m, d, s, e)

  skipped-IsVerified :
      (peer : PeerHint) (peers : List PeerHint) (o : W × Done TransferResult)
      → IsVerified peers o
      → IsVerified (peer ∷ peers) o
  skipped-IsVerified peer peers (w, (more, none)) h = tt
  skipped-IsVerified peer peers (w, (more, some r)) (p, v, m, d, s, e) =
      (p, v, Memᴰ.tail m, d, s, e)

  pull_each-IsVerified :
      (peers : List PeerHint) (w : W)
      → IsVerified peers (pull_each permits k now get c model_id runtime peers w)
  unfolding pull_each
  pull_each-IsVerified [] w = tt
  pull_each-IsVerified (peer ∷ peers) w =
      let rest = λ (v : W). pull_each-IsVerified peers v in
      if-holds (IsVerified (peer ∷ peers)) (str_eq peer.machine_id c.machine_id)
        (λ self.
          skipped-IsVerified peer peers (pull_each permits k now get c model_id runtime peers w)
            (rest w))
        (λ another.
          go another rest (pull_from_peer permits k now get c peer model_id runtime w) refl)
    where
      chosen : W × Done TransferResult → W × Done TransferResult
      chosen (w', (touched, result)) =
          let next =
            after permits k now get touched
              (pull_each permits k now get c model_id runtime peers w') in
          elim result [
            | none ↦ next
            | some r ↦ if is_expected peer r then (w', (touched, some r)) else next
          ]

      go :
          (str_eq peer.machine_id c.machine_id ≡ false)
          → ((v : W) → IsVerified peers (pull_each permits k now get c model_id runtime peers v))
          → (o : W × Done TransferResult)
          → pull_from_peer permits k now get c peer model_id runtime w ≡ o
          → IsVerified (peer ∷ peers) (chosen o)
      go another rest (w', (touched, none)) q =
          later-IsVerified peer peers touched
            (pull_each permits k now get c model_id runtime peers w') (rest w')
      go another rest (w', (touched, some r)) q =
          if-holds (IsVerified (peer ∷ peers)) (is_expected peer r)
            (λ expected. (peer, w, Memᴰ.head refl, another, ap (λ o. o.1.1) q, expected))
            (λ other.
              later-IsVerified peer peers touched
                (pull_each permits k now get c model_id runtime peers w') (rest w'))

  -- PullFromPeers returns a result only if one of the given peers, which is another machine, served it, and
  -- it has the digest that the server told for this peer, if it told one.
  pub pull-IsVerified :
      (peers : List PeerHint) (w : W)
      → IsVerified peers (pull_from_peers permits k now get c model_id runtime peers w)
  unfolding pull_from_peers
  pull-IsVerified peers w =
      if-holds (IsVerified peers) (str_eq c.secret "") (λ e. tt) (λ e. pull_each-IsVerified peers w)
