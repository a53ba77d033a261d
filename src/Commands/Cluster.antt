-- ===== src/Commands/Cluster.antt =====
-- internal/commands/executor.go, applyDistributedStartModelParams: the environment of a runtime whose model
-- is spread over several machines. strconv.Itoa is a parameter.
use mantlerd.Base.{
  Bool, false, String, Option, none, some, join, to_lower, str_eq, trim_space, ltb, if◌then◌else◌,
}
use Prim.Native.String.{◌++◌}
use mantlerd.Base.Dict.{Dict, lookup, put}
use mantlerd.Explore.Files.{Files}
use mantlerd.Pipeline.Value.{Members}
use mantlerd.Commands.EnvFile.{or_empty, read_env_file, env_text}
use mantlerd.Commands.Params.{
  ℤ, pos, negsuc, is_positive, Floats, optional_string_param, optional_int_param, append_flag_arg,
  ClusterRunContext, parse_cluster_run_context,
}
use mantlerd.Commands.Profile.{
  ProfileError, vllm_env_path, tensorrt_env_path, is_empty_list, Surface, written,
}

abbrev pub put_filled : String → String → Dict String → Dict String
put_filled key value values = if str_eq value "" then values else put key value values

abbrev pub put_interface : ClusterRunContext → Dict String → Dict String
put_interface cluster values =
    if str_eq cluster.topology "qsfp_switch"
    then put "OMPI_MCA_btl_tcp_if_include" cluster.socket_interface (
        put "NCCL_SOCKET_IFNAME" cluster.socket_interface
          (put "UCX_NET_DEVICES" cluster.socket_interface values))
    else values

module _ (itoa : ℤ → String) (fl : Floats) where
  -- What both runtimes are told, under names that begin with the runtime's.
  unfoldable pub put_cluster : String → ClusterRunContext → Dict String → Dict String
  put_cluster prefix cluster values =
      let counted = put (prefix ++ "_CLUSTER_NODE_COUNT") (itoa cluster.node_count) values in
      let placed = put_filled (prefix ++ "_CLUSTER_TOPOLOGY") cluster.topology counted in
      let named =
        if is_empty_list cluster.machine_ids
        then placed
        else put (prefix ++ "_CLUSTER_MACHINE_IDS") (join "," cluster.machine_ids) placed in
      put_interface cluster named

  abbrev pub add_size : String → Option ℤ → String → String
  add_size name none args = args
  add_size name (some n) args = if is_positive n then append_flag_arg args name (itoa n) else args

  unfoldable pub put_parallel : Members → Dict String → Dict String
  put_parallel params values =
      let args = trim_space (or_empty (lookup "VLLM_EXTRA_ARGS" values)) in
      let split =
        add_size "--tensor-parallel-size" (optional_int_param fl params "tensorParallelSize")
          args in
      put_filled "VLLM_EXTRA_ARGS"
        (add_size "--pipeline-parallel-size" (optional_int_param fl params "pipelineParallelSize")
          split)
        values

  -- readEnvFile, the changes and writeEnvFile.
  abbrev pub rewrite :
      Surface → String → (Dict String → Dict String) → Files → Files × Option ProfileError
  rewrite s path change files =
      written s path (env_text s.quoting (change (read_env_file s.quoting (files path)))) files

  -- `cluster.nodeCount > 1`
  abbrev pub is_many : ℤ → Bool
  is_many (pos n) = ltb 1 n
  is_many (negsuc n) = false

  unfoldable pub distributed_runtime : Members → String → String
  distributed_runtime params runtime_name =
      let normalized = to_lower (trim_space runtime_name) in
      if str_eq normalized "" then to_lower (optional_string_param params "runtime") else normalized

  unfoldable pub apply_distributed_params :
      Surface → Members → String → Files → Files × Option ProfileError
  apply_distributed_params s params runtime_name files =
      let cluster = parse_cluster_run_context fl params in
      let runtime = distributed_runtime params runtime_name in
      if is_many cluster.node_count
      then (if str_eq runtime "vllm"
          then rewrite s vllm_env_path
              (λ values. put_parallel params (put_cluster "VLLM" cluster values)) files
          else if str_eq runtime "tensorrt"
          then rewrite s tensorrt_env_path (put_cluster "TENSORRT" cluster) files
          else (files, none))
      else (files, none)
