-- ===== src/Apis/Containers/Args.antt =====
-- apis/containers/v1alpha1/duck_types.go: the arguments of wasmtime that grant host capabilities.
use Prim.Native.String
use wa8s.Prelude.{String, List, [], ◌∷◌, ◌++◌, Option, none, some, if◌then◌else◌}
use wa8s.Apis.Containers.{
  HostEnvVar, HostEnv, HostConfigVar, HostConfig, HostNetwork, HostCapabilities,
}

abbrev pub env_var_arg : String → Option String → String
env_var_arg name none = String.◌++◌ "--env=" name
env_var_arg name (some v) = String.◌++◌ "--env=" (String.◌++◌ name (String.◌++◌ "=" v))

-- The loop over the variables of the environment.
unfoldable pub env_args : List HostEnvVar → List String
env_args [] = []
env_args (v ∷ vars) = env_var_arg v.name v.value ∷ env_args vars

unfoldable pub host_env_args : HostEnv → List String
unfolding env_args
host_env_args c = (if c.inherit then "-Sinherit-env=y" ∷ [] else []) ++ env_args c.vars

abbrev pub config_var_arg : HostConfigVar → String
config_var_arg v = String.◌++◌ "-Sconfig-var=" (String.◌++◌ v.name (String.◌++◌ "=" v.value))

unfoldable pub config_args : List HostConfigVar → List String
config_args [] = []
config_args (v ∷ vars) = config_var_arg v ∷ config_args vars

unfoldable pub host_config_args : HostConfig → List String
unfolding config_args
host_config_args c = "-Sconfig=y" ∷ config_args c.vars

unfoldable pub host_network_args : HostNetwork → List String
host_network_args c =
    (if c.inherit then "-Sinherit-network=y" ∷ [] else [])
    ++ (if c.ip_name_lookup then "-Sallow-ip-name-lookup=y" ∷ [] else [])

abbrev pub args_of {ℓ} : {A : Type ℓ} → (A → List String) → Option A → List String
args_of f none = []
args_of f (some a) = f a

-- `HostCapabilities.WasmtimeArgs`
unfoldable pub wasmtime_args : HostCapabilities → List String
unfolding host_env_args host_config_args host_network_args
wasmtime_args c =
    args_of host_env_args c.env
    ++ args_of host_config_args c.config
    ++ args_of host_network_args c.network

-- `HostCapabilities.WrpcWasmtimeArgs`: no capability is supported.
unfoldable pub wrpc_wasmtime_args : HostCapabilities → List String
wrpc_wasmtime_args c = []
