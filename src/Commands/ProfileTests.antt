-- ===== src/Commands/ProfileTests.antt =====
-- A profile for vllm with a file and two variables, of which one is not named like those of vllm.
use Prim.Native.String.{◌++◌ as concat}
use mantlerd.Base.{
  if◌then◌else◌, str_eq, ◌≡◌, refl, true, String, [], ◌∷◌, none, some, Memᴰ, All, has_prefix,
  trim_space, to_upper,
}
use mantlerd.Base.Dict.{Dict, lookup, keys}
use mantlerd.Explore.Files.{Files}
use mantlerd.Pipeline.Value.{number, Members, no_member, member}
use mantlerd.Commands.Params.{pos, Floats}
use mantlerd.Commands.EnvFile.{Quoting, read_env_file, env_text, without_first, without_last}
use mantlerd.Commands.EnvFile.RoundTrip.{IsWritable, read-env_text}
use mantlerd.Commands.Profile.{
  RuntimeProfile, ProfileError, Surface, profile_given, apply_runtime_profile_overrides,
  with_profile, filter_env, put_filtered, apply_env, vllm_env_path,
}
use mantlerd.Commands.Profile.Written.{Keeps, apply-Keeps}
use mantlerd.Commands.Profile.Mismatch.{foreign-IsRefused}

-- Quotation marks alone, for texts that need no other quoting.
abbrev marks : Quoting
marks = record {
  quoted = λ s. concat "\"" (concat s "\"");
  unquote = λ s. some (without_last (without_first s));
}

abbrev values : Dict String
values = ("VLLM_MODE", "container") ∷ ("HF_TOKEN", "abc") ∷ []

values-IsWritable : All (IsWritable marks values) (keys values)
unfolding trim_space has_prefix lookup without_last
values-IsWritable =
    ((
      (
        record {
          trimmed = refl;
          full = refl;
          no_comment = refl;
          no_sign = (refl, (refl, (refl, (refl, (refl, (refl, (refl, (refl, (refl, tt)))))))));
          no_line = (refl, (refl, (refl, (refl, (refl, (refl, (refl, (refl, (refl, tt)))))))));
        },
        record {
          inner = "container";
          between = refl;
          one_line = (
            refl,
            (refl, (refl, (refl, (refl, (refl, (refl, (refl, (refl, (refl, (refl, tt)))))))))),
          );
          back = refl;
        },
      ),
      (
        (
          record {
            trimmed = refl;
            full = refl;
            no_comment = refl;
            no_sign = (refl, (refl, (refl, (refl, (refl, (refl, (refl, (refl, tt))))))));
            no_line = (refl, (refl, (refl, (refl, (refl, (refl, (refl, (refl, tt))))))));
          },
          record {
            inner = "abc";
            between = refl;
            one_line = (refl, (refl, (refl, (refl, (refl, tt)))));
            back = refl;
          },
        ),
        tt,
      ),
    ))

read-env_text_example :
    lookup "HF_TOKEN" (read_env_file marks (some (env_text marks values)))
    ≡ lookup "HF_TOKEN" values
read-env_text_example = read-env_text marks values values-IsWritable "HF_TOKEN"

abbrev profile : RuntimeProfile
profile = record {
  id = "p";
  label = "";
  runtime = "vllm";
  container_image = "";
  environment = ("HF_TOKEN", "xyz") ∷ [];
  extra_args = [];
  required_files = record { source = "https://x"; destination = "/app/t.jinja" } ∷ [];
}

abbrev surface : Surface
surface = record {
  quoting = marks;
  writable = λ path. true;
  scheme = λ source. some "https";
  get = λ source. none;
  state_text = λ p name. "{}";
}

abbrev disk : Files
disk path = none

apply-Keeps_example :
    Keeps disk (apply_runtime_profile_overrides surface (profile_given profile) "vllm" disk).0
apply-Keeps_example = apply-Keeps surface (profile_given profile) "vllm" disk

foreign-IsRefused_example :
    (e : ProfileError) × ((apply_env surface vllm_env_path "vllm" profile disk).1 ≡ some e)
unfolding trim_space has_prefix to_upper lookup read_env_file with_profile filter_env put_filtered
foreign-IsRefused_example =
    foreign-IsRefused surface vllm_env_path profile disk "HF_TOKEN" "xyz" (Memᴰ.head refl) refl refl
      refl tt

abbrev numbers : Floats
numbers = record { is_above_zero = λ s. true; to_int = λ s. if str_eq s "0" then pos 0 else pos 4 }

-- A command that asks for no layers and for four threads.
abbrev asked : Members
asked = member "nGpuLayers" (number "0") (member "threads" (number "4") no_member)
