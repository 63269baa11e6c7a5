-- ===== src/Health/Start.antt =====
-- `startHealthcheck` of cmd/dra-example-kubeletplugin/health.go. The goroutine that serves, and
-- `Stop`, which waits for it, do nothing to the world of the model.
use dra_example_driver.Common.{
  Option, none, some, [], ◌∷◌, ◌++◌, Text, codes, ◌==◌, nat_eq, list_eq, if◌then◌else◌,
}
use dra_example_driver.Common.Int.{ℤ, pos, negsuc}
use dra_example_driver.Failure.{Outcome, ok, wrap, map_error, ◌>>=◌}
use dra_example_driver.Flags.{Flags, driver_plugin_path}
use dra_example_driver.Paths.{path_of, join_path, show_path}
use dra_example_driver.Services.{Services, SocketUrl}
use dra_example_driver.Startup.Decimal.{show_decimal}

-- `path.Join` of a directory and one name, as text.
abbrev pub socket : Text → Text → SocketUrl
socket directory name = record {
  scheme = codes "unix";
  path = show_path (join_path (path_of directory) (name ∷ []));
}

unfoldable pub registration_socket : Flags → SocketUrl
registration_socket flags =
    if flags.pod_uid == []
    then socket flags.kubelet_registrar_directory_path (flags.driver_name ++ codes "-reg.sock")
    else socket flags.kubelet_registrar_directory_path
        (flags.driver_name ++ (codes "-" ++ (flags.pod_uid ++ codes "-reg.sock")))

unfoldable pub dra_socket : Flags → SocketUrl
dra_socket flags =
    if flags.pod_uid == []
    then socket (show_path (driver_plugin_path flags)) (codes "dra.sock")
    else socket (show_path (driver_plugin_path flags))
        (codes "dra-" ++ (flags.pod_uid ++ codes ".sock"))

-- `healthcheck`
pub record Healthcheck (V : Services) : Type 0 where
  pub listener : V.Listener
  pub registration : V.Connection
  pub dra : V.Connection

module _ (V : Services) where
  -- The calls at a port that is not negative.
  abbrev pub start_at : Flags → Text → Outcome (Option (Healthcheck V))
  start_at flags port = do
    listener ←
        map_error (wrap "failed to listen for healthcheck service") (V.listen (codes ":" ++ port))
    registration ←
        map_error (wrap "connect to registration socket")
          (V.new_connection (registration_socket flags))
    dra ← map_error (wrap "connect to DRA socket") (V.new_connection (dra_socket flags))
    ok (some (record { listener = listener; registration = registration; dra = dra }))

  abbrev pub start_at_port : Flags → ℤ → Outcome (Option (Healthcheck V))
  start_at_port flags (negsuc n) = ok none
  start_at_port flags (pos port) = start_at flags (show_decimal port)

  unfoldable pub start_healthcheck : Flags → Outcome (Option (Healthcheck V))
  unfolding registration_socket dra_socket
  start_healthcheck flags = start_at_port flags flags.healthcheck_port
