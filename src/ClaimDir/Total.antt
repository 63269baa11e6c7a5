-- ===== src/ClaimDir/Total.antt =====
-- `createClaimDirectory` returns if nothing is in its way and no system call fails.
use dra_example_driver.Common.{
  All-weaken, ◌≡◌, refl, sym, ◌∙◌, ap, Option, none, some, [], ◌∷◌, ◌++◌, Text, nat_eq, list_eq,
}
use mathlib.Core.Path.{subst}
use dra_example_driver.Common.Dict.{lookup}
use dra_example_driver.Failure.{wrap}
use dra_example_driver.Failure.Action.{Action, pure, gets, lift, modify, on_error, ◌>>=◌, ◌>>◌}
use dra_example_driver.Failure.Triples.{
  given-Triple, gets-Triple, modify-Triple, bind-Triple, on_error-Triple, weaken-Triple,
}
use dra_example_driver.Paths.{FilePath, parent, parent-concat, join_path}
use dra_example_driver.World.{Host, World, Node, directory, file, Attributes, attempt}
use dra_example_driver.World.Files.{
  set_node, change_attributes, opened, owned_by_root, mkdir_all, chown, chmod, write_file,
}
use dra_example_driver.World.Keeps.{attempt_calm}
use dra_example_driver.ClaimDir.{
  base_dir, claim_root, claim_dir, set_label, set_owner, create_claim_directory,
}
use dra_example_driver.ClaimDir.Metadata.{metadata_json}
use dra_example_driver.ClaimDir.Created.{lookup-insert_self}
use dra_example_driver.ClaimDir.Ready.{metadata_name, metadata_path}
use dra_example_driver.ClaimDir.Smooth.{
  Returns, Smooth, made_dirs, make_dirs-Returns, change-Returns,
}
use dra_example_driver.ClaimDir.Way.{IsDirectory, Clear-file, directory-set_node}

module _ (H : Host) (stable r : Text) (k : H.Cache) where
  abbrev root : FilePath
  root = base_dir ++ stable ∷ []

  abbrev dir : FilePath
  dir = root ++ r ∷ []

  abbrev meta : FilePath
  meta = root ++ r ∷ metadata_name ∷ []

  -- All directories down to `dir` are there.
  abbrev Made : World H → Type 0
  Made = Smooth H root k (made_dirs H root k [] dir [])

  abbrev is_dir : (w : World H) → Made w → IsDirectory H root w dir
  is_dir w h = h.3.0

  abbrev is_root : (w : World H) → Made w → IsDirectory H root w root
  is_root w h = h.3.1.0

  mkdir_all-Returns : Returns (Smooth H root k []) (mkdir_all dir 0o755) (λ u. Made)
  unfolding mkdir_all
  mkdir_all-Returns = make_dirs-Returns H root k 0o755 [] dir [] r refl

  set_owner-Returns :
      (p : FilePath)
      → ((w : World H) → Made w → IsDirectory H root w p)
      → Returns Made (set_owner H p) (λ u. Made)
  unfolding chown chmod
  set_owner-Returns p there =
      bind-Triple {Q = λ u. Made} _ _
        (on_error-Triple _ _ (changed (λ a. record a { uid = 107; gid = 107 })))
        λ _.
          bind-Triple {Q = λ u. Made} _ _
            (on_error-Triple _ _ (changed (λ a. record a { mode = 0o775 })))
            λ _. record { run = λ w h. h }
    where
      changed : (f : Attributes → Attributes) → Returns Made (change_attributes f p) (λ u. Made)
      changed f =
          weaken-Triple _ (λ w h. (h, tt)) (λ u w h. h.0) (λ w h. h)
            (change-Returns H root k (made_dirs H root k [] dir []) f p (λ w. Unit {0})
              (λ w h g. let (a, at) = there w h in (directory a, at, tt)))

  Made-file :
      (a : Attributes) (content : Text) (w : World H)
      → Made w
      → Made (set_node meta (file a content) w)
  Made-file a content w (calm, same, clear, dirs) = (
    calm,
    same,
    Clear-file H root r a content w clear,
    All-weaken (λ q. directory-set_node H root meta q (file a content) w (clear.metadata r))
        (made_dirs H root k [] dir []) dirs,
  )

  abbrev Recorded : World H → Type 0
  Recorded w = Made w × ((n : Node) × (lookup meta w.tree ≡ some n))

  write_opened :
      (content : Text) (a : Attributes)
      → Returns Made
          (modify (set_node meta (file a []))
            >> (attempt >> modify (set_node meta (file a content))))
          (λ u. Recorded)
  write_opened content a =
      bind-Triple {Q = λ u. Made} (modify (set_node meta (file a []))) _
        (modify-Triple (set_node meta (file a [])) (Made-file a []))
        λ _.
          bind-Triple {Q = λ u. Made} attempt _ (record { run = λ w h. rw (attempt_calm w h.0) h })
            λ _. modify-Triple (set_node meta (file a content)) (λ w h. (
              Made-file a content w h,
              (file a content, lookup-insert_self meta (file a content) w.tree),
            ))

  write_found :
      (content : Text) (above found : Option Node) (b : Attributes)
      → above ≡ some (directory b)
      → Returns
          (λ w. Made w × (lookup meta w.tree ≡ found))
          (lift (opened 0o644 above found) >>= λ a.
            modify (set_node meta (file a []))
            >> (attempt >> modify (set_node meta (file a content))))
          (λ u. Recorded)
  write_found content above none b e =
      rw e (record { run = λ w h. (write_opened content (owned_by_root 0o644)).run w h.0 })
  write_found content above (some (file a old)) b e =
      rw e (record { run = λ w h. (write_opened content a).run w h.0 })
  write_found content above (some (directory a)) b e = record {
    run = λ w h. absurd (h.0.2.metadata r a h.1);
  }

  write_file-Returns :
      (content : Text) → Returns Made (write_file meta content 0o644) (λ u. Recorded)
  unfolding write_file
  write_file-Returns content =
      bind-Triple {Q = λ u. Made} attempt _ (record { run = λ w h. rw (attempt_calm w h.0) h })
        λ _.
          bind-Triple {Q = λ above w. Made w × ((b : Attributes) × (above ≡ some (directory b)))}
            (gets (λ w. lookup (parent meta) w.tree)) _
            (gets-Triple _ (λ w h.
              let (b, at) = is_dir w h in
              (h, (b, ap (λ p. lookup p w.tree) (parent-concat dir metadata_name) ∙ at))))
            λ above. given-Triple _ λ (b, e).
              bind-Triple {Q = λ found w. Made w × (lookup meta w.tree ≡ found)}
                (gets (λ w. lookup meta w.tree)) _ (gets-Triple _ (λ w h. (h, refl)))
                λ found. write_found content above found b e

  chown-Returns : Returns Recorded (chown meta 107 107) (λ u. Recorded)
  unfolding chown
  chown-Returns =
      change-Returns H root k (made_dirs H root k [] dir [])
        (λ a. record a { uid = 107; gid = 107 }) meta
        (λ w. (n : Node) × (lookup meta w.tree ≡ some n))
        (λ w h (n, at). (n, at, (_, lookup-insert_self meta _ w.tree)))

  -- The calls of `createClaimDirectory`, at any paths.
  abbrev calls : Text → FilePath → FilePath → FilePath → Action (World H) FilePath
  calls device above at metadata = do
    mkdir_all at 0o755
    set_owner H above
    set_owner H at
    on_error (wrap "failed to write device metadata")
        (write_file metadata (metadata_json device) 0o644)
    on_error (wrap "failed to chown metadata file") (chown metadata 107 107)
    set_label H metadata
    pure at

  calls-Returns :
      (device : Text)
      → Returns (Smooth H root k []) (calls device root dir meta) (λ d. Smooth H root k [])
  calls-Returns device = bind-Triple {Q = λ u. Made} _ _ mkdir_all-Returns λ _.
      bind-Triple {Q = λ u. Made} _ _ (set_owner-Returns root is_root) λ _.
        bind-Triple {Q = λ u. Made} _ _ (set_owner-Returns dir is_dir) λ _.
          bind-Triple {Q = λ u. Recorded} _ _
            (on_error-Triple _ _ (write_file-Returns (metadata_json device)))
            λ _.
              bind-Triple {Q = λ u. Recorded} _ _ (on_error-Triple _ _ chown-Returns)
                λ _. record { run = λ w h. (h.0.0, h.0.1, h.0.2, tt) }

  pub create_claim_directory-Returns :
      (claim_name device : Text)
      → claim_root claim_name ≡ root
      → claim_dir claim_name r ≡ dir
      → Returns
          (Smooth H root k [])
          (create_claim_directory H claim_name r device)
          (λ d. Smooth H root k [])
  unfolding create_claim_directory
  create_claim_directory-Returns claim_name device above at =
      subst
        (λ p.
          Returns (Smooth H root k [])
            (calls device p (claim_dir claim_name r)
              (join_path (claim_dir claim_name r) (metadata_name ∷ [])))
            (λ d. Smooth H root k []))
        (sym above)
        (subst
          (λ p.
            Returns (Smooth H root k []) (calls device root p (join_path p (metadata_name ∷ [])))
              (λ d. Smooth H root k []))
          (sym at)
          (subst
            (λ p. Returns (Smooth H root k []) (calls device root dir p) (λ d. Smooth H root k []))
            (sym (metadata_path dir)) (calls-Returns device)))
