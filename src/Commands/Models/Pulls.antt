-- ===== src/Commands/Models/Pulls.antt =====
-- What a pull that returns no error has brought.
use mathlib.Core.Option
use mantlerd.Base.{
  ℕ, ◌≡◌, refl, sym, subst, ◌≢◌, ◌⊎◌, inl, inr, Bool, true, false, String, List, [], ◌∷◌, Memᴰ,
  Option, none, some, str_eq,
}
use mantlerd.Pipeline.Value.{Members}
use mantlerd.Explore.Files.{Files}
use mantlerd.Runtime.Driver.{Error}
use mantlerd.Runtime.Manager.{Manager}
use mantlerd.Runtime.Prepare.{prepare_model_with_runtime_progress}
use mantlerd.Transfer.Token.{Codec}
use mantlerd.Transfer.Client.{
  PeerHint, TransferResult, Reply, Touch, Client, Done, is_expected, pull_from_peer,
  pull_from_peers,
}
use mantlerd.Transfer.Client.Verified.{IsVerified, pull-IsVerified}
use mantlerd.Commands.Params.{Parsed, parsed, wrong, string_param, model_feature_flags_param}
use mantlerd.Commands.Profile.{ProfileError}
use mantlerd.Commands.Models.{
  bad_environment, Services, Handled, ended, with_text, with_change, runtime_param,
  apply_profile_param, ask_peers, pull_error, fetch_model, pull_model,
}

module _ (permits : Touch → Bool) {W : Type 0} (k : Codec) (now : W → ℕ)
    (get : String → ℕ → String → String → String → W → W × Option Reply) (c : Client) where
  -- The client of the transfer, as the executor calls it.
  abbrev pub client_puller : String → String → List PeerHint → W → W × Option TransferResult
  client_puller model_id runtime peers w =
      let (w', (touched, result)) = pull_from_peers permits k now get c model_id runtime peers w in
      (w', result)

  module _ (s : Services W) (client : s.puller ≡ some client_puller) (m : Manager W)
      (params : Members) where
    -- One of the peers of the command, another machine, served the model, with the digest told for it.
    pub record FromPeer (model_id : String) : Type 0 where
      pub peer : PeerHint
      pub result : TransferResult
      pub world : W
      pub among : Memᴰ peer (s.peers_of params)
      pub another : str_eq peer.machine_id c.machine_id ≡ false
      pub served :
          (pull_from_peer permits k now get c peer model_id (runtime_param s m params) world).1.1
          ≡ some result
      pub expected : is_expected peer result ≡ true

    -- The manager prepared the model, and the command ends where this has left the host.
    pub record FromRuntime (model_id : String) (r : Handled W) : Type 0 where
      pub world : W
      pub prepared :
          prepare_model_with_runtime_progress true m model_id
            (runtime_param s m params)
            (model_feature_flags_param params)
            world
          ≡ (r.world, none)

    abbrev pub IsProvided : Handled W → Type 0
    IsProvided r =
        (model_id : String) × (string_param params "modelId" ≡ parsed model_id)
        × (FromPeer model_id ⊎ FromRuntime model_id r)

    fetch-IsProvided :
        (model_id : String)
        → string_param params "modelId" ≡ parsed model_id
        → (r : W × Option TransferResult) → (r.1 ≢ none → FromPeer model_id)
        → (fetch_model s m params model_id r).error ≡ none
        → IsProvided (fetch_model s m params model_id r)
    fetch-IsProvided model_id named (w, some x) h e = (model_id, named, inl (h λ n. cc))
    fetch-IsProvided model_id named (w, none) h e =
        prepared
          (prepare_model_with_runtime_progress true m model_id (runtime_param s m params)
            (model_feature_flags_param params) w)
          refl e
      where
        prepared :
            (r : W × Option Error)
            → prepare_model_with_runtime_progress true m model_id
                (runtime_param s m params)
                (model_feature_flags_param params)
                w
              ≡ r
            → Option.map (pull_error s m params) r.1 ≡ none
            → IsProvided (ended m r.0 (Option.map (pull_error s m params) r.1))
        prepared (v, none) q e = (model_id, named, inr (record { world = w; prepared = q }))
        prepared (v, some x) q e = cc

    served-FromPeer :
        (model_id : String) (o : W × Done TransferResult)
        → IsVerified permits k now get c model_id (runtime_param s m params) (s.peers_of params) o
        → o.1.1 ≢ none
        → FromPeer model_id
    served-FromPeer model_id (w, (touched, none)) h n = absurd (n refl)
    served-FromPeer model_id (w, (touched, some r)) (p, v, among, another, served, expected) n =
        record {
          peer = p;
          result = r;
          world = v;
          among = among;
          another = another;
          served = served;
          expected = expected;
        }

    asked-FromPeer :
        (model_id : String) (w : W)
        → (ask_peers s m params s.puller model_id (s.peers_of params) w).1 ≢ none
        → FromPeer model_id
    asked-FromPeer model_id w =
        subst
          (λ p.
            (ask_peers s m params p model_id (s.peers_of params) w).1 ≢ none → FromPeer model_id)
          (sym client) (listed (s.peers_of params) refl)
      where
        pulled : List PeerHint → W × Done TransferResult
        pulled ps = pull_from_peers permits k now get c model_id (runtime_param s m params) ps w

        listed :
            (ps : List PeerHint)
            → s.peers_of params ≡ ps
            → (ask_peers s m params (some client_puller) model_id ps w).1 ≢ none
            → FromPeer model_id
        listed [] q n = absurd (n refl)
        listed (p ∷ ps) q n =
            served-FromPeer model_id (pulled (p ∷ ps))
              (subst
                (λ l.
                  IsVerified permits k now get c model_id (runtime_param s m params)
                    (s.peers_of params) (pulled l))
                q
                (pull-IsVerified permits k now get c model_id (runtime_param s m params)
                  (s.peers_of params) w))
              n

    -- With the transfer client as the puller, a pull that returns no error names a model, and one of the
    -- command's peers, another machine, served it with the digest told for the peer, if one was told, or
    -- the manager prepared the model without an error.
    pub pull_model-IsProvided :
        (w : W) → (pull_model s m params w).error ≡ none → IsProvided (pull_model s m params w)
    unfolding pull_model
    pull_model-IsProvided w h = read (string_param params "modelId") refl h
      where
        fetched : String → W → Handled W
        fetched x v =
            fetch_model s m params x (ask_peers s m params s.puller x (s.peers_of params) v)

        with_files : String → Files × Option ProfileError → Handled W
        with_files x r = elim r.1 [
          | none ↦ fetched x (s.with_files r.0 w)
          | some e ↦ ended m (s.with_files r.0 w) (some (bad_environment e))
        ]

        changed :
            (x : String)
            → string_param params "modelId" ≡ parsed x
            → (r : Files × Option ProfileError) → (with_files x r).error ≡ none
            → IsProvided (with_files x r)
        changed x named (files, none) h =
            let v = s.with_files files w in
            fetch-IsProvided x named (ask_peers s m params s.puller x (s.peers_of params) v)
              (asked-FromPeer x v) h
        changed x named (files, some e) h = cc

        changing : String → Handled W
        changing x = with_change s m params (apply_profile_param s m params) w (fetched x)

        read :
            (p : Parsed String)
            → string_param params "modelId" ≡ p
            → (with_text m w p changing).error ≡ none
            → IsProvided (with_text m w p changing)
        read (wrong e) q h = cc
        read (parsed x) q h = changed x q (apply_profile_param s m params (s.files_of w)) h
