-- ===== src/Flags.antt =====
-- The command line flags: `Flags` and the list in `newApp` of cmd/dra-example-kubeletplugin/main.go,
-- `KubeClientConfig.Flags` of pkg/flags/kubeclient.go, and `LoggingConfig.Flags` and `pflagToCLI` of
-- pkg/flags/logging.go. Parsing is done by the CLI library.
pub mod Environment
use dra_example_driver.Common.{
  ℕ, Bool, true, false, Option, none, some, List, [], ◌∷◌, ◌++◌, Text, codes, map, nat_eqb,
  if◌then◌else◌,
}
use dra_example_driver.Common.Int.{ℤ, pos, negsuc}
use dra_example_driver.Cdi.ClaimSpec.{to_upper}
use dra_example_driver.Paths.{FilePath, path_of, join_path}

-- The QPS is a `float64`, whose type is a parameter.
pub record KubeClientConfig (Float : Type 0) : Type 0 where
  pub kube_config : Text
  pub kube_api_qps : Float
  pub kube_api_burst : ℤ

-- The values of the flags, besides those of the Kubernetes client and of logging.
pub record Flags : Type 0 where
  pub node_name : Text
  pub cdi_root : Text
  pub num_devices : ℤ
  pub kubelet_registrar_directory_path : Text
  pub kubelet_plugins_directory_path : Text
  pub healthcheck_port : ℤ
  pub profile : Text
  pub driver_name : Text
  pub pod_uid : Text

-- `Config.DriverPluginPath`. The flag is an absolute path.
unfoldable pub driver_plugin_path : Flags → FilePath
driver_plugin_path flags =
    join_path (path_of flags.kubelet_plugins_directory_path) (flags.driver_name ∷ [])

pub data DefaultValue : Type 0 where
  text : Text → DefaultValue
  number : ℤ → DefaultValue
  -- the value that a flag of another library holds already
  held : DefaultValue

-- `cli.Flag`, without its usage. The zero value is written out where `Value` is not set.
pub record CliFlag : Type 0 where
  pub name : Text
  pub category : Text
  pub required : Bool
  pub value : DefaultValue
  pub env_vars : List Text

abbrev pub optional : Text → Text → DefaultValue → Text → CliFlag
optional category name value env_var = record {
  name = name;
  category = category;
  required = false;
  value = value;
  env_vars = env_var ∷ [];
}

abbrev pub profile_name : Text
profile_name = codes "network"

-- `KubeletRegistryDir` and `KubeletPluginsDir` of the kubelet plugin library are given.
unfoldable pub plugin_flags : Text → Text → List CliFlag
plugin_flags registry_dir plugins_dir =
    record (optional [] (codes "node-name") (text []) (codes "NODE_NAME")) { required = true }
    ∷ optional [] (codes "cdi-root") (text (codes "/etc/cdi")) (codes "CDI_ROOT")
    ∷ optional [] (codes "num-devices") (number (pos 10)) (codes "NUM_DEVICES")
    ∷ optional [] (codes "kubelet-registrar-directory-path") (text registry_dir)
        (codes "KUBELET_REGISTRAR_DIRECTORY_PATH")
    ∷ optional [] (codes "kubelet-plugins-directory-path") (text plugins_dir)
        (codes "KUBELET_PLUGINS_DIRECTORY_PATH")
    ∷ optional [] (codes "healthcheck-port") (number (negsuc 0)) (codes "HEALTHCHECK_PORT")
    ∷ optional [] (codes "device-profile") (text profile_name) (codes "DEVICE_PROFILE")
    ∷ optional [] (codes "driver-name") (text []) (codes "DRIVER_NAME")
    ∷ optional [] (codes "pod-uid") (text []) (codes "POD_UID")
    ∷ []

abbrev pub kube_category : Text
kube_category = codes "Kubernetes client:"

unfoldable pub kube_client_flags : List CliFlag
kube_client_flags =
    optional kube_category (codes "kubeconfig") (text []) (codes "KUBECONFIG")
    ∷ optional kube_category (codes "kube-api-qps") (number (pos 5)) (codes "KUBE_API_QPS")
    ∷ optional kube_category (codes "kube-api-burst") (number (pos 10)) (codes "KUBE_API_BURST")
    ∷ []

-- `strings.ReplaceAll(s, "-", "_")`
unfoldable pub replace_dashes : Text → Text
replace_dashes [] = []
replace_dashes (c ∷ s) = (if nat_eqb c b'-' then b'_' else c) ∷ replace_dashes s

unfoldable pub env_name : Text → Text
unfolding replace_dashes to_upper
env_name name = to_upper (replace_dashes name)

-- A flag of the logging library is given by its name.
unfoldable pub pflag_to_cli : Text → Text → CliFlag
unfolding env_name
pflag_to_cli category name = optional category name held (env_name name)

-- The loop of `VisitAll` over the flag set of the logging library, in its order, with the flag for
-- feature gates in it.
unfoldable pub logging_flags : List Text → List CliFlag
unfolding pflag_to_cli
logging_flags names = map (pflag_to_cli (codes "Logging:")) names

-- `cliFlags` of `newApp`
unfoldable pub cli_flags : Text → Text → List Text → List CliFlag
unfolding plugin_flags kube_client_flags logging_flags
cli_flags registry_dir plugins_dir names =
    (plugin_flags registry_dir plugins_dir ++ kube_client_flags) ++ logging_flags names
