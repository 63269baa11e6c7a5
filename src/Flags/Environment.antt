-- ===== src/Flags/Environment.antt =====
-- Every flag can be set by an environment variable.
use dra_example_driver.Common.{◌≡◌, refl, List, [], ◌∷◌, ◌++◌, Text, All, All-append}
use dra_example_driver.Cdi.ClaimSpec.{to_upper}
use dra_example_driver.Flags.{
  CliFlag, plugin_flags, kube_client_flags, replace_dashes, env_name, pflag_to_cli, logging_flags,
  cli_flags,
}

abbrev pub IsNamed : CliFlag → Type 0
IsNamed f = f.env_vars ≡ env_name f.name ∷ []

plugin_flags-IsNamed :
    (registry_dir plugins_dir : Text) → All IsNamed (plugin_flags registry_dir plugins_dir)
unfolding plugin_flags env_name replace_dashes to_upper
plugin_flags-IsNamed registry_dir plugins_dir =
    (refl, (refl, (refl, (refl, (refl, (refl, (refl, (refl, (refl, tt)))))))))

kube_client_flags-IsNamed : All IsNamed kube_client_flags
unfolding kube_client_flags env_name replace_dashes to_upper
kube_client_flags-IsNamed = (refl, (refl, (refl, tt)))

logging_flags-IsNamed : (names : List Text) → All IsNamed (logging_flags names)
unfolding logging_flags pflag_to_cli
logging_flags-IsNamed [] = tt
logging_flags-IsNamed (n ∷ names) = (refl, logging_flags-IsNamed names)

-- Every flag of the plugin, also each that the logging library brings, has one environment variable:
-- its name in capitals, with underscores for dashes.
pub cli_flags-IsNamed :
    (registry_dir plugins_dir : Text) (names : List Text)
    → All IsNamed (cli_flags registry_dir plugins_dir names)
unfolding cli_flags
cli_flags-IsNamed registry_dir plugins_dir names =
    All-append IsNamed (plugin_flags registry_dir plugins_dir ++ kube_client_flags) _
      (All-append IsNamed (plugin_flags registry_dir plugins_dir) kube_client_flags
        (plugin_flags-IsNamed registry_dir plugins_dir) kube_client_flags-IsNamed)
      (logging_flags-IsNamed names)
