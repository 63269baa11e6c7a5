-- ===== src/Plugin/Readable.antt =====
-- The checkpoint file over a whole run of the plugin.
use dra_example_driver.Common.{◌≡◌, inl, inr, All, All-every, List, [], ◌∷◌, Text, nat_eq, list_eq}
use dra_example_driver.Failure.{Outcome, ok}
use dra_example_driver.Api.{ResourceClaim}
use dra_example_driver.Checkpoint.{
  Checkpoint, new_checkpoint, add_claim_to_checkpoint, remove_claim_from_checkpoint,
}
use dra_example_driver.CheckpointFile.Read.{stored}
use dra_example_driver.CheckpointFile.RoundTrip.{IsCodec}
use dra_example_driver.Compute.{MapOrder}
use dra_example_driver.Devices.{DeviceState}
use dra_example_driver.Driver.Keeps.{keeps_lem}
use dra_example_driver.Flags.{Flags, KubeClientConfig}
use dra_example_driver.History.Checkpoints.{prepared_checkpoint, unprepared_checkpoint}
use dra_example_driver.Plugin.{Request, prepare_request, unprepare_request, run_app}
use dra_example_driver.Services.{Services}
use dra_example_driver.Plugin.Keeps.{Kept, run_app_keeps}
use dra_example_driver.State.{prepare, unprepare}
use dra_example_driver.World.{Host, World}
use dra_example_driver.World.Keeps.{Keeps}

-- The checkpoint file can be decoded.
abbrev pub IsReadable : {H : Host} → World H → Type 0
IsReadable {H} w = (c : Checkpoint) × (stored H w.checkpoint_file ≡ ok c)

module _ (H : Host) (codec : IsCodec H) where
  module _ (s : DeviceState H.Payload H.Status) where
    prepare-Keeps :
        (order : MapOrder H.Payload) (claim : ResourceClaim)
        → Keeps IsReadable (prepare H s order claim)
    prepare-Keeps order claim = keeps_lem (prepare H s order claim) λ w w' r e p.
        elim (prepared_checkpoint H codec s order claim w w' r p.0 e p.1) [
          | inl same ↦ (p.0, same)
          | inr more ↦ (add_claim_to_checkpoint claim p.0, more)
        ]

    unprepare-Keeps : (claim_uid : Text) → Keeps IsReadable (unprepare H s claim_uid)
    unprepare-Keeps claim_uid = keeps_lem (unprepare H s claim_uid) λ w w' r e p.
        elim (unprepared_checkpoint H codec s claim_uid w w' r p.0 e p.1) [
          | inl same ↦ (p.0, same)
          | inr (inl less) ↦ (remove_claim_from_checkpoint claim_uid p.0, less)
          | inr (inr empty) ↦ (new_checkpoint, empty)
        ]

  module _ (V : Services) where
    kept :
        (requests : List (Request H.Payload)) (s : DeviceState H.Payload H.Status)
        → All
            (Kept {H = H} {P = IsReadable}
              (record { tree = λ w t fs h. h })
              (record { cache = λ w k h. h })
              V
              s)
            requests
    kept [] s = tt
    kept (prepare_request claims ∷ requests) s =
        (All-every (λ (order, claim). prepare-Keeps s order claim) claims, kept requests s)
    kept (unprepare_request uids ∷ requests) s = (tt, kept requests s)

    -- If the checkpoint file can be decoded, or is not there, when the plugin is started, and the
    -- serializer decodes what it encoded, then it can be decoded when the plugin has ended, whatever
    -- the arguments and the flags, the requests that were served, and the calls that failed or
    -- panicked on the way: the plugin can start again from it.
    pub run_app_readable :
        (arguments : List Text) (applied : Outcome (Unit {0})) (flags : Flags)
        (kube : KubeClientConfig V.Float) (node_name : Text) (requests : List (Request H.Payload))
        (w w' : World H) (r : Outcome (Unit {0})) (c : Checkpoint)
        → stored H w.checkpoint_file ≡ ok c
        → run_app H V arguments applied flags kube node_name requests w ≡ (r, w')
        → (c' : Checkpoint) × (stored H w'.checkpoint_file ≡ ok c')
    run_app_readable arguments applied flags kube node_name requests w w' r c at e =
        run_app_keeps {H = H} {P = IsReadable} (record { tree = λ w t fs h. h })
          (record { cache = λ w k h. h }) V requests (kept requests) unprepare-Keeps arguments
          applied flags kube node_name w w' r e (c, at)
