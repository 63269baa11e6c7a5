-- ===== src/Config/Precedence.antt =====
-- Which config a request gets: the last one that applies to it.
use mathlib.Core.List.{reverse, reverse-append, reverse-cons, reverse-reverse}
use mathlib.Core.Option.{some-injective}
use dra_example_driver.Common.{
  ◌≡◌, refl, sym, ◌∙◌, ap, true, false, some, List, [], ◌∷◌, ◌++◌, append_assoc, Text, All,
  Bool-cases, inl, inr, All-reverse, nat_eq, list_eq,
}
use dra_example_driver.Config.{OpaqueDeviceConfig, applies, first_applying, select, default_config}

module _ {P : Type 0} (request : Text) where
  abbrev pub Ignores : OpaqueDeviceConfig P → Type 0
  Ignores c = applies request c.requests ≡ false

  first_applying-append :
      (ignored rest : List (OpaqueDeviceConfig P))
      → All Ignores ignored
      → first_applying request (ignored ++ rest) ≡ first_applying request rest
  unfolding first_applying
  first_applying-append [] rest _ = refl
  first_applying-append (c ∷ cs) rest (h, hs) = rw h (first_applying-append cs rest hs)

  reverse-middle :
      (xs : List (OpaqueDeviceConfig P)) (x : OpaqueDeviceConfig P)
      (ys : List (OpaqueDeviceConfig P))
      → reverse (xs ++ x ∷ ys) ≡ reverse ys ++ x ∷ reverse xs
  reverse-middle xs x ys =
      reverse-append xs (x ∷ ys) ∙ rw (reverse-cons x ys) (append_assoc (reverse ys) (x ∷ []) _)

  first_applying_sound :
      (cs : List (OpaqueDeviceConfig P)) (c : OpaqueDeviceConfig P)
      → first_applying request cs ≡ some c
      → (skipped : List (OpaqueDeviceConfig P)) × (rest : List (OpaqueDeviceConfig P)) × (cs
          ≡ skipped ++ c ∷ rest)
        × (applies request c.requests ≡ true)
        × All Ignores skipped
  unfolding first_applying
  first_applying_sound [] c h = cc
  first_applying_sound (d ∷ ds) c h = elim (Bool-cases (applies request d.requests)) [
    | inl here ↦
        let same : d ≡ c = some-injective d c (rw here at h) in
        ([], ds, ap (λ e. e ∷ ds) same, rw (← same) here, tt)
    | inr other ↦
        let (skipped, rest, e, hit, ignored) = first_applying_sound ds c (rw other at h) in
        (d ∷ skipped, rest, ap (λ es. d ∷ es) e, hit, (other, ignored))
  ]

  first_applying_default :
      (cs : List (OpaqueDeviceConfig P))
      → (c : OpaqueDeviceConfig P) × (first_applying request (cs ++ default_config ∷ []) ≡ some c)
  unfolding first_applying
  first_applying_default [] = (default_config, refl)
  first_applying_default (d ∷ ds) = elim (Bool-cases (applies request d.requests)) [
    | inl here ↦ (d, rw here)
    | inr other ↦ let (c, e) = first_applying_default ds in (c, rw other e)
  ]

  -- A config that applies to a request, and that none behind it applies to, is the one selected.
  pub select_last :
      (before : List (OpaqueDeviceConfig P)) (c : OpaqueDeviceConfig P)
      (after : List (OpaqueDeviceConfig P))
      → applies request c.requests ≡ true
      → All Ignores after
      → select request (before ++ c ∷ after) ≡ some c
  unfolding select
  select_last before c after here later = rw (reverse-middle before c after) (
      first_applying-append (reverse after) (c ∷ reverse before) (All-reverse Ignores after later)
      ∙ unfold first_applying in rw here)

  -- The config that a request gets applies to it, and no config behind it does; and there is one
  -- for every request if the default config stands in front.
  pub select_sound :
      (cs : List (OpaqueDeviceConfig P))
      → (c : OpaqueDeviceConfig P) × (before : List (OpaqueDeviceConfig P)) × (after : List
          (OpaqueDeviceConfig P))
        × (select request (default_config ∷ cs) ≡ some c)
        × (default_config ∷ cs ≡ before ++ c ∷ after)
        × (applies request c.requests ≡ true)
        × All Ignores after
  unfolding select
  select_sound cs =
      let all = default_config ∷ cs in
      let (c, found) = first_applying_default (reverse cs) in
      let chosen : first_applying request (reverse all) ≡ some c =
        rw (reverse-cons default_config cs) found in
      let (skipped, rest, e, hit, ignored) = first_applying_sound (reverse all) c chosen in
      let order : all ≡ reverse rest ++ c ∷ reverse skipped =
        sym (reverse-reverse all) ∙ ap reverse e ∙ reverse-middle skipped c rest in
      (c, reverse rest, reverse skipped, chosen, order, hit, All-reverse Ignores skipped ignored)
