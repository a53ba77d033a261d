-- ===== src/Commands/ModelTests.antt =====
-- A command for a model, on a host with two runtimes and one peer.
use mantlerd.Base.{
  ℕ, ◌≡◌, refl, true, false, String, List, [], ◌∷◌, Option, none, some, length, trim_space,
  trim_prefix, to_lower,
}
use mantlerd.Explore.Files.{Files}
use mantlerd.Pipeline.Value.{text, Members, no_member, member, find}
use mantlerd.Runtime.Driver.{Driver, Step}
use mantlerd.Runtime.Manager.{Manager}
use mantlerd.Transfer.Token.{Codec, create_token, signed}
use mantlerd.Transfer.Client.{
  PeerHint, finished, Reply, Client, pull_from_peers, pull_each, pull_from_peer, try_addresses,
  try_address, receive, receive_blob,
}
use mantlerd.Commands.Params.{pos, string_param}
use mantlerd.Commands.Profile.{no_profile, apply_runtime_profile_overrides}
use mantlerd.Commands.Models.{Services, pull_model, start_model}
use mantlerd.Commands.Models.Reports.{IsAccounted, start_model-IsAccounted}
use mantlerd.Commands.Models.Pulls.{client_puller, IsProvided, pull_model-IsProvided}

-- The files of the host, and the calls of its drivers, newest first.
abbrev Host : Type 0
Host = Files × List String

abbrev logs : String → Step Host
logs call (files, calls) = ((files, call ∷ calls), none)

abbrev working : Driver Host
working = record {
  is_installed = λ w. true;
  is_ready = λ w. true;
  version = λ w. "1.0";
  list_models = λ w. [];
  install = logs "install";
  uninstall = logs "uninstall";
  restart_runtime = logs "restart";
  prepare_model = λ model flags. logs "prepare";
  start_model = λ model flags. logs "start";
  stop_model = λ model. logs "stop";
  remove_model = λ model. logs "remove";
  prepare_cancellable = none;
  prepare_with_progress = none;
}

abbrev agent : Manager Host
agent = record {
  drivers = ("ollama", working) ∷ ("vllm", working) ∷ [];
  reports = true;
  active_plan_id = "";
  active_mantle_fingerprint = "";
}

abbrev client : Client
client = record {
  machine_id = "m1";
  hf_cache_dir = "/var/hf";
  ollama_models_dir = "/var/ollama";
  secret = "s";
}

abbrev reply : Reply
reply = record {
  status = 200;
  machine = "m2";
  format = "blob";
  archive = finished "d0";
  blob = record { received = 5; is_complete = true; sha256 = "d1" };
}

abbrev codec : Codec
codec = record {
  marshal = λ c. some c.model_id;
  unmarshal = λ p. none;
  encode = λ s. s;
  decode = λ s. some s;
  mac = λ secret message. message;
}

abbrev peer : PeerHint
peer = record {
  machine_id = "m2";
  addresses = "10.0.0.2" ∷ [];
  transfer_port = 0;
  digest = "sha256:d1";
}

abbrev network : String → ℕ → String → String → String → Host → Host × Option Reply
network addr port token model runtime w = (w, some reply)

abbrev services : Services Host
services = record {
  surroundings = record {
    now_ms = λ w. length w.1;
    now_text = λ w. "2026-01-01T00:00:00Z";
    error_text = λ e. "failed";
  };
  surface = record {
    quoting = record { quoted = λ s. s; unquote = λ s. some s };
    writable = λ path. true;
    scheme = λ source. none;
    get = λ source. none;
    state_text = λ p name. "{}";
  };
  floats = record { is_above_zero = λ s. true; to_int = λ s. pos 2 };
  itoa = λ n. "2";
  files_of = λ w. w.0;
  with_files = λ files w. (files, w.1);
  profile_of = λ params. no_profile;
  peers_of = λ params. peer ∷ [];
  puller = some (client_puller (λ t. true) codec (λ w. 0) network client);
  is_cancelled = λ e. false;
  reports = true;
}

abbrev params : Members
params =
    member "modelId" (text "qwen3:8b")
      (member "runtime" (text "ollama") (member "compatibilityPlanId" (text " plan-7 ") no_member))

abbrev host : Host
host = ((λ path. none), [])

start_model-IsAccounted_example :
    IsAccounted services agent params host (start_model services agent params host)
start_model-IsAccounted_example = start_model-IsAccounted services agent params refl host

pull_model-IsProvided_example :
    IsProvided
      (λ t. true)
      codec
      (λ w. 0)
      network
      client
      services
      refl
      agent
      params
      (pull_model services agent params host)
unfolding pull_model string_param find apply_runtime_profile_overrides pull_from_peers pull_each
    pull_from_peer try_addresses try_address create_token signed receive receive_blob to_lower
    trim_space trim_prefix
pull_model-IsProvided_example =
    pull_model-IsProvided (λ t. true) codec (λ w. 0) network client services refl agent params host
      refl

-- The model comes from the peer: no driver is called.
pulled_quietly : (pull_model services agent params host).world.1 ≡ []
unfolding pull_model string_param find apply_runtime_profile_overrides pull_from_peers pull_each
    pull_from_peer try_addresses try_address create_token signed receive receive_blob to_lower
    trim_space trim_prefix
pulled_quietly = refl
