-- ===== src/World/Defs.antt =====
-- `Host` holds the code that is not in the repository. `World` holds what the driver changes:
-- the directories below /var/run/kubevirt/cdi, the checkpoint file and the temporary files beside
-- it, the CDI cache and the API server. These do not overlap. Each system call takes the next entry
-- of `faults`, which is `none` if the operating system lets the call through; past the end of the
-- list it lets every call through. A fault is never `fs.ErrNotExist`.
use dra_example_driver.Common.{ℕ, Option, none, some, List, [], ◌∷◌, Text, String}
use dra_example_driver.Common.Dict.{Dict}
use dra_example_driver.Failure.{Error, failure, Outcome, ok, err}
use dra_example_driver.Failure.Action.{Action}
use dra_example_driver.Api.{ResourceClaim, ContainerEdits, Spec}
use dra_example_driver.Checkpoint.V1
use dra_example_driver.Paths.{FilePath}

-- A claim as the API server holds it, with `Status.Devices`.
pub record ApiClaim (S : Type 0) : Type 0 where
  pub claim : ResourceClaim
  pub device_statuses : List S

pub record Host : Type 1 where
  -- `runtime.Decode` on the parameters of a config, without the allocation of the object
  pub Payload : Type 0
  pub decode_config : Text → Outcome Payload
  -- the JSON serializer of the checkpoint, on the v1 type
  pub Blob : Type 0
  pub encode_checkpoint : V1.Checkpoint → Outcome Blob
  pub decode_checkpoint : Blob → Outcome V1.Checkpoint
  -- the CDI library: its parser, its cache, `ContainerEdits.Append` and the names of specs
  pub qualified_name : Text → Text → Text → Text
  pub transient_spec_name : Text → Text → Text → Text
  pub name_transient_spec : Spec → Text → Outcome Text
  pub minimum_required_version : Spec → Outcome Text
  pub append_edits : ContainerEdits → Option ContainerEdits → ContainerEdits
  pub Cache : Type 0
  pub open_cache : Text → Outcome Cache
  pub write_spec : Spec → Text → Cache → Outcome Cache
  pub remove_spec : Text → Cache → Outcome Cache
  -- the API server, and the retry helper of client-go
  pub Status : Type 0
  pub Cluster : Type 0
  pub get_claim : Text → Text → Cluster → Outcome (ApiClaim Status)
  pub update_status : ApiClaim Status → Cluster → Outcome Cluster
  pub retry_on_conflict : Action Cluster (Unit {0}) → Action Cluster (Unit {0})
  -- go-selinux; the label of a file is not in the model
  pub set_file_label : FilePath → Text → Option Error

pub record Attributes : Type 0 where
  pub uid : ℕ
  pub gid : ℕ
  pub mode : ℕ

pub data Node : Type 0 where
  directory : Attributes → Node
  file : Attributes → Text → Node

abbrev pub Tree : Type 0
Tree = Dict FilePath Node

-- `checkpoint_file` is `none` if the file does not exist. A temporary file holds `none` until the
-- checkpoint has been encoded to it.
pub record World (H : Host) : Type 0 where
  pub tree : Tree
  pub checkpoint_file : Option H.Blob
  pub temp_files : List (Option H.Blob)
  pub cache : H.Cache
  pub cluster : H.Cluster
  pub faults : List (Option String)

module _ {H : Host} where
  abbrev pub attempt_with : List (Option String) → World H → Outcome (Unit {0}) × World H
  attempt_with [] w = (ok tt, w)
  attempt_with (none ∷ faults) w = (ok tt, record w { faults = faults })
  attempt_with (some message ∷ faults) w = (err (failure message), record w { faults = faults })

  -- Whether the next system call goes through.
  unfoldable pub attempt : Action (World H) (Unit {0})
  attempt w = attempt_with w.faults w
