-- ===== src/State/Shared.antt =====
-- Claims whose names have one stable part share the directories of their requests: also two claims
-- of one name in two namespaces.
use dra_example_driver.Common.{
  ◌≡◌, refl, ◌∙◌, ap, true, inl, inr, none, some, List, [], ◌∷◌, Text, any, Exists, arith, nat_eq,
  list_eq,
}
use dra_example_driver.Common.Dict.{lookup}
use dra_example_driver.Checkpoint.{PreparedClaim, Checkpoint, find_claim, request_of}
use dra_example_driver.Checkpoint.Claims.{==-refl}
use dra_example_driver.CheckpointFile.Read.{stored}
use dra_example_driver.Failure.{ok}
use dra_example_driver.ClaimDir.{claim_dir}
use dra_example_driver.Devices.{DeviceState}
use dra_example_driver.Naming.{extract_stable_claim_name}
use dra_example_driver.Paths.{FilePath}
use dra_example_driver.World.{Host, World}
use dra_example_driver.World.Files.{is_below}
use dra_example_driver.State.Defs.{unprepare}
use dra_example_driver.State.Removed.{is_recorded, unprepare_directories}

is_below_refl : (p : FilePath) → is_below p p ≡ true
unfolding is_below
is_below_refl [] = refl
is_below_refl (c ∷ p) = rw (==-refl c) (is_below_refl p)

claim_dir-stable :
    (name other request : Text)
    → extract_stable_claim_name name ≡ extract_stable_claim_name other
    → claim_dir name request ≡ claim_dir other request
unfolding claim_dir
claim_dir-stable name other request same = rw same refl

recorded-any :
    (c : PreparedClaim) (request : Text) (q : FilePath) (devices : List Text)
    → claim_dir c.name request ≡ q
    → Exists (λ device. request_of c device ≡ request) devices
    → any (λ device. is_below (claim_dir c.name (request_of c device)) q) devices ≡ true
recorded-any c request q [] at h = elim h [ ]
recorded-any c request q (device ∷ devices) at (inl here) =
    let below : is_below (claim_dir c.name (request_of c device)) q ≡ true =
      ap (λ r. is_below (claim_dir c.name r) q) here
      ∙ ap (λ p. is_below p q) at
      ∙ is_below_refl q in
    rw below refl
recorded-any c request q (device ∷ devices) at (inr later) =
    ground (arith, recorded-any c request q devices at later)

module _ (H : Host) (s : DeviceState H.Payload H.Status) where
  -- If a claim is in the checkpoint with a device for a request, and its name and the name of
  -- another claim have one stable part, then `Unprepare` of the first, with a checkpoint that can be
  -- decoded and no system call failing, removes the directory of the other claim for that request.
  pub unprepare_shared :
      (claim_uid other request : Text) (w : World H) (c : Checkpoint) (pc : PreparedClaim)
      → w.faults ≡ []
      → stored H w.checkpoint_file ≡ ok c
      → find_claim claim_uid c.prepared_claims ≡ some pc
      → Exists (λ device. request_of pc device ≡ request) pc.devices
      → extract_stable_claim_name pc.name ≡ extract_stable_claim_name other
      → lookup (claim_dir other request) (unprepare H s claim_uid w).1.tree ≡ none
  unprepare_shared claim_uid other request w c pc calm at found has same =
      let q = claim_dir other request in
      let recorded : is_recorded (find_claim claim_uid c.prepared_claims) q ≡ true =
        ap (λ f. is_recorded f q) found
        ∙ recorded-any pc request q pc.devices (claim_dir-stable pc.name other request same) has in
      unprepare_directories H s claim_uid w c q calm at ∙ rw recorded refl
