-- ===== src/Tests/Setup.antt =====
-- A driver with the network profile, its claims, and a world whose third-party code is simple: the
-- serializer keeps the checkpoint as it is, the CDI cache is an association list, and the API server
-- knows no claim.
use dra_example_driver.Common.{
  not, Option, none, some, [], ◌∷◌, ◌++◌, Text, codes, ◌==◌, nat_eq, list_eq, keep,
}
use dra_example_driver.Common.Dict.{Dict, insert}
use dra_example_driver.Failure.{ok, err, failure}
use dra_example_driver.Api.{DeviceResult, ResourceClaim, ContainerEdits, Spec}
use dra_example_driver.Checkpoint.V1
use dra_example_driver.Compute.{MapOrder}
use dra_example_driver.Devices.{DeviceState}
use dra_example_driver.Profile.Network.{network_profile}
use dra_example_driver.World.{Host, World}

abbrev append_edits : ContainerEdits → Option ContainerEdits → ContainerEdits
append_edits e none = e
append_edits e (some f) = record { env = e.env ++ f.env; mounts = e.mounts ++ f.mounts }

abbrev pub toy_host : Host
toy_host = record {
  Payload = Text;
  decode_config = λ raw. ok raw;
  Blob = V1.Checkpoint;
  encode_checkpoint = λ c. ok c;
  decode_checkpoint = λ c. ok c;
  qualified_name = λ vendor class name. vendor ++ (codes "/" ++ (class ++ (codes "=" ++ name)));
  transient_spec_name = λ vendor class id. vendor ++ (codes "-" ++ (class ++ (codes "_" ++ id)));
  name_transient_spec = λ spec id. ok (spec.kind ++ (codes "_" ++ id));
  minimum_required_version = λ spec. ok (codes "0.3.0");
  append_edits = append_edits;
  Cache = Dict Text Spec;
  open_cache = λ root. ok [];
  write_spec = λ spec name k. ok (insert name spec k);
  remove_spec = λ name k. ok (keep (λ e. not (e.0 == name)) k);
  Status = Text;
  Cluster = Unit {0};
  get_claim = λ namespace name c. err (failure "not found");
  update_status = λ claim c. ok c;
  retry_on_conflict = λ m. m;
  set_file_label = λ p label. none;
}

abbrev pub driver_name : Text
driver_name = codes "network.example.com"

abbrev pub state : DeviceState Text Text
state = record {
  driver_name = driver_name;
  cdi = record { driver_name = driver_name; cdi_class = codes "network" };
  driver_resources = [];
  allocatable =
      (codes "network-0", record { name = codes "network-0"; index = 0; device_type = codes "dir" })
      ∷ (
        codes "network-1",
        record { name = codes "network-1"; index = 1; device_type = codes "dir" },
      )
      ∷ [];
  config_handler = network_profile;
  status_builder = none;
}

abbrev pub order : MapOrder Text
order = record { applied = λ gs. gs; collected = λ gs. gs }

abbrev pub result : Text → Text → DeviceResult
result request device = record {
  request = request;
  driver = driver_name;
  pool = codes "node";
  device = device;
  admin_access = none;
}

-- A result of a driver that has nothing to do with this one.
abbrev pub foreign : DeviceResult
foreign = record {
  request = codes "gpu";
  driver = codes "gpu.example.com";
  pool = codes "node";
  device = codes "gpu-0";
  admin_access = none;
}

abbrev pub claim : ResourceClaim
claim = record {
  uid = codes "u1";
  namespace = codes "default";
  name = codes "virt-launcher-vm-a-drz4j-dummy-gpu-fngjv";
  allocation =
      some
        (record { results = result (codes "net") (codes "network-0") ∷ foreign ∷ []; config = [] });
}

-- No checkpoint yet, and all system calls go through.
abbrev pub fresh_world : World toy_host
fresh_world = record {
  tree = [];
  checkpoint_file = none;
  temp_files = [];
  cache = [];
  cluster = tt;
  faults = [];
}
