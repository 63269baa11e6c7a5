-- ===== src/Services.antt =====
-- The libraries that start servers and clients: `kubeletplugin.Start` and `PublishResources`,
-- `net.Listen`, `grpc.NewClient`, and the Kubernetes client. How each call ends is given; what it does
-- outside of this process is not in the model.
use dra_example_driver.Common.{Text}
use dra_example_driver.Common.Int.{ℤ}
use dra_example_driver.Failure.{Outcome}
use dra_example_driver.Devices.{DriverResources}

-- `url.URL` without the fields that are not set. Its text, in which bytes may be escaped, is not in the
-- model.
pub record SocketUrl : Type 0 where
  pub scheme : Text
  pub path : Text

-- The options that `NewDriver` gives to `kubeletplugin.Start`, besides the client.
pub record PluginOptions : Type 0 where
  pub node_name : Text
  pub driver_name : Text
  pub registrar_directory_path : Text
  pub plugin_data_directory_path : Text
  pub rolling_update : Text

pub record Services : Type 1 where
  pub Client : Type 0
  pub Helper : Type 0
  pub start_helper : Client → PluginOptions → Outcome Helper
  pub publish_resources : Helper → DriverResources → Outcome (Unit {0})
  pub Listener : Type 0
  pub listen : Text → Outcome Listener
  pub Connection : Type 0
  pub new_connection : SocketUrl → Outcome Connection
  -- client-go, whose QPS is a `float32`
  pub Float : Type 0
  pub RestConfig : Type 0
  pub in_cluster_config : Outcome RestConfig
  pub config_from_file : Text → Outcome RestConfig
  pub set_qps : Float → RestConfig → RestConfig
  pub set_burst : ℤ → RestConfig → RestConfig
  pub new_client : RestConfig → Outcome Client
