-- ===== src/Checkpoint/Claims.antt =====
-- The claims of a checkpoint as a set of UIDs, under adding and removing.
use dra_example_driver.Common.{
  ◌≡◌, refl, ◌∙◌, Bool, true, false, not, List, [], ◌∷◌, ◌++◌, Text, ◌==◌, nat_eq, list_eq, keep,
  any, keep-append, append-nil, if◌then◌else◌, arith, Eq,
}
use mathlib.Core.Logic.{ite}
use dra_example_driver.Api.{ResourceClaim}
use dra_example_driver.Checkpoint.Defs.{
  PreparedClaim, Checkpoint, prepared_claim, add_claim_to_checkpoint, remove_claim_from_checkpoint,
  has_claim, has_uid,
}

pub ==-refl {ℓ} : {A : Type ℓ} ⦃e : Eq A⦄ (a : A) → (a == a) ≡ true
==-refl a = ground arith

pub ==-eq {ℓ} : {A : Type ℓ} ⦃e : Eq A⦄ (a b : A) → (a == b) ≡ true → a ≡ b
==-eq ⦃e⦄ a b h = go (e.dec a b) h
  where
    go : (d : Dec (a ≡ b)) → ite d true false ≡ true → a ≡ b
    go (yes p) _ = p
    go (no n) h = cc

any-append :
    (uid : Text) (xs ys : List PreparedClaim)
    → any (has_uid uid) (xs ++ ys) ≡ (if any (has_uid uid) xs then true else any (has_uid uid) ys)
any-append uid [] ys = refl
any-append uid (x ∷ xs) ys = ground (arith, any-append uid xs ys)

any-keep :
    (uid removed : Text) (cs : List PreparedClaim)
    → any (has_uid uid) (keep (λ p. not (has_uid removed p)) cs)
      ≡ (if uid == removed then false else any (has_uid uid) cs)
any-keep uid removed [] = ground arith
any-keep uid removed (c ∷ cs) = ground (arith, any-keep uid removed cs)

-- After adding, exactly the claim added and the claims before are there.
pub has_claim-add :
    (uid : Text) (claim : ResourceClaim) (c : Checkpoint)
    → has_claim uid (add_claim_to_checkpoint claim c)
      ≡ (if claim.uid == uid then true else has_claim uid c)
unfolding has_claim add_claim_to_checkpoint prepared_claim
has_claim-add uid claim c =
    ground (arith, any-append uid c.prepared_claims (prepared_claim claim ∷ []))

-- After removing, exactly the other claims are there.
pub has_claim-remove :
    (uid removed : Text) (c : Checkpoint)
    → has_claim uid (remove_claim_from_checkpoint removed c)
      ≡ (if uid == removed then false else has_claim uid c)
unfolding has_claim remove_claim_from_checkpoint
has_claim-remove uid removed c = any-keep uid removed c.prepared_claims

keep_absent :
    (uid : Text) (cs : List PreparedClaim)
    → any (has_uid uid) cs ≡ false
    → keep (λ p. not (has_uid uid p)) cs ≡ cs
keep_absent uid [] _ = refl
keep_absent uid (c ∷ cs) h = ground (arith, keep_absent uid cs)

-- Removing a claim that was not there before it was added gives the checkpoint back.
pub remove-add :
    (claim : ResourceClaim) (c : Checkpoint)
    → has_claim claim.uid c ≡ false
    → remove_claim_from_checkpoint claim.uid (add_claim_to_checkpoint claim c) ≡ c
unfolding has_claim remove_claim_from_checkpoint add_claim_to_checkpoint prepared_claim
remove-add claim c h =
    let other : PreparedClaim → Bool = λ p. not (has_uid claim.uid p) in
    let gone : keep other (prepared_claim claim ∷ []) ≡ [] = ground (arith, ==-refl claim.uid) in
    let same : keep other (c.prepared_claims ++ prepared_claim claim ∷ []) ≡ c.prepared_claims =
      keep-append other c.prepared_claims (prepared_claim claim ∷ [])
      ∙ rw gone (append-nil _ ∙ keep_absent claim.uid c.prepared_claims h) in
    λ i. record { prepared_claims = same i }
