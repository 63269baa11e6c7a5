-- ===== src/Plugin/Refused.antt =====
-- What the application refuses before it touches the host.
use dra_example_driver.Common.{
  ◌≡◌, ◌≢◌, refl, ◌⊎◌, inl, inr, false, Bool-cases, List, [], ◌∷◌, Text, ◌==◌, contains, nat_eq,
  list_eq, if◌then◌else◌,
}
use dra_example_driver.Failure.{Outcome, ok, err, panicked, wrap, map_error, about}
use dra_example_driver.Failure.Action.{Action, lift, raise, ◌>>=◌}
use dra_example_driver.Flags.{Flags, KubeClientConfig}
use dra_example_driver.KubeClient.{new_client_sets}
use dra_example_driver.Plugin.{
  Request, action, run_app, run_plugin, with_driver_name, valid_profile_names,
}
use dra_example_driver.Services.{Services}
use dra_example_driver.World.{Host, World}

-- The call fails or panics, and leaves the world as it is.
abbrev pub Refuses : {H : Host} → Action (World H) (Unit {0}) → World H → Type 0
Refuses m w = (r : Outcome (Unit {0})) × (m w ≡ (r, w)) × (r ≢ ok tt)

with_driver_name-profile : (flags : Flags) → (with_driver_name flags).profile ≡ flags.profile
with_driver_name-profile flags = elim (Bool-cases (flags.driver_name == [])) [
  | inl unset ↦ rw unset refl
  | inr set ↦ rw set refl
]

module _ (H : Host) (V : Services) (flags : Flags) (kube : KubeClientConfig V.Float)
    (node_name : Text) (requests : List (Request H.Payload)) (w : World H) where
  -- What `Action` does once it has a client.
  abbrev chosen : V.Client → Action (World H) (Unit {0})
  chosen client =
      if contains valid_profile_names (with_driver_name flags).profile
      then run_plugin H V (with_driver_name flags) client node_name requests
      else raise (about "invalid device profile" (with_driver_name flags).profile)

  module _ (unknown : contains valid_profile_names flags.profile ≡ false) where
    chosen_refused :
        (o : Outcome V.Client) → Refuses (lift (map_error (wrap "create client") o) >>= chosen) w
    chosen_refused (ok client) = (
      err (about "invalid device profile" (with_driver_name flags).profile),
      rw (with_driver_name-profile flags, unknown) refl,
      λ e. cc,
    )
    chosen_refused (err e) = (err (wrap "create client" e), refl, λ e. cc)
    chosen_refused panicked = (panicked, refl, λ e. cc)

    action_refused : Refuses (action H V flags kube node_name requests) w
    unfolding action
    action_refused = chosen_refused (new_client_sets V kube)

  -- If arguments are left after the flags, or the profile is not one that the plugin knows, then the
  -- application ends with an error or a panic, and has done nothing to the host.
  pub run_app_refused :
      (arguments : List Text) (applied : Outcome (Unit {0}))
      → (arguments ≢ []) ⊎ (contains valid_profile_names flags.profile ≡ false)
      → (r : Outcome (Unit {0})) × (run_app H V arguments applied flags kube node_name requests w
          ≡ (r, w))
        × (r ≢ ok tt)
  unfolding run_app
  run_app_refused [] applied (inl left) = absurd (left refl)
  run_app_refused [] (ok tt) (inr unknown) = action_refused unknown
  run_app_refused [] (err e) (inr unknown) = (err e, refl, λ e. cc)
  run_app_refused [] panicked (inr unknown) = (panicked, refl, λ e. cc)
  run_app_refused (argument ∷ arguments) applied _ =
      (err (about "arguments not supported" argument), refl, λ e. cc)
