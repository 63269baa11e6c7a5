-- ===== src/KubeClient.antt =====
-- `NewClientSetConfig` and `NewClientSets` of pkg/flags/kubeclient.go.
use dra_example_driver.Common.{[], ◌==◌, nat_eq, list_eq, if◌then◌else◌}
use dra_example_driver.Failure.{Outcome, ok, describe, map_error, ◌>>=◌}
use dra_example_driver.Flags.{KubeClientConfig}
use dra_example_driver.Services.{Services}

module _ (V : Services) where
  unfoldable pub new_client_set_config : KubeClientConfig V.Float → Outcome V.RestConfig
  new_client_set_config k = do
    config ←
        if k.kube_config == []
        then map_error (describe "create in-cluster client configuration") V.in_cluster_config
        else map_error (describe "create out-of-cluster client configuration")
            (V.config_from_file k.kube_config)
    ok (V.set_burst k.kube_api_burst (V.set_qps k.kube_api_qps config))

  -- `ClientSets` has one field.
  unfoldable pub new_client_sets : KubeClientConfig V.Float → Outcome V.Client
  unfolding new_client_set_config
  new_client_sets k = do
    config ← map_error (describe "create client configuration") (new_client_set_config k)
    map_error (describe "create core client") (V.new_client config)
