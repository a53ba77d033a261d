-- ===== src/Transfer/Client/Examples.antt =====
-- An archive that tries to leave its directory, and a network that serves it.
use mantlerd.Base.{refl, true, false, List, [], ◌∷◌, none, some, join}
use mantlerd.Transfer.Token.{Codec}
use mantlerd.Transfer.Client.{PeerHint, Archive, finished, entry, Reply, Client, receive_tar}
use mantlerd.Transfer.Client.Extraction.{DoneBelow, receive_tar-DoneBelow}

abbrev client : Client
client = record {
  machine_id = "m1";
  hf_cache_dir = "/var/hf";
  ollama_models_dir = "/var/ollama";
  secret = "s";
}

abbrev archive : Archive
archive =
    entry (record { name = "../../etc/passwd"; is_dir = false; size = 3; copies = true })
      (entry (record { name = "/etc/x"; is_dir = false; size = 4; copies = true }) (finished "d1"))

abbrev reply : Reply
reply = record {
  status = 200;
  machine = "m2";
  format = "tar";
  archive = archive;
  blob = record { received = 0; is_complete = false; sha256 = "" };
}

receive_tar-DoneBelow_example :
    DoneBelow ("var" ∷ "hf" ∷ []) (receive_tar (λ t. true) client "../../x" reply)
unfolding join
receive_tar-DoneBelow_example =
    receive_tar-DoneBelow (λ t. true) client "var" ("hf" ∷ [])
      (((refl, (refl, (refl, tt))), (refl, refl)), (((refl, (refl, tt)), (refl, refl)), tt)) refl
      "../../x" reply

abbrev codec : Codec
codec = record {
  marshal = λ c. some c.model_id;
  unmarshal = λ p. none;
  encode = λ s. s;
  decode = λ s. some s;
  mac = λ secret message. message;
}

abbrev peers : List PeerHint
peers =
    record { machine_id = "m1"; addresses = "10.0.0.1" ∷ []; transfer_port = 0; digest = "" }
    ∷ record {
      machine_id = "m2";
      addresses = "10.0.0.2" ∷ [];
      transfer_port = 0;
      digest = "sha256:d1";
    }
    ∷ []
