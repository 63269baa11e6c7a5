-- ===== src/History/Registry.antt =====
-- The specification of the checkpoint over calls of `Prepare` and `Unprepare`: the set of the claims
-- that are prepared, without their order, their devices and the file they are in.
use dra_example_driver.Common.{
  ◌≡◌, sym, ◌∙◌, ap, ◌⊎◌, inl, inr, Bool, true, false, List, [], ◌∷◌, Text, ◌==◌, nat_eq, list_eq,
  if◌then◌else◌, arith,
}

abbrev pub Registry : Type 0
Registry = Text → Bool

-- What a call was, and whether it returned without an error. `elsewhere` is a change that no call made.
pub data Event : Type 0 where
  prepare_returned : Text → Event
  prepare_broke : Text → Event
  unprepare_returned : Text → Event
  unprepare_broke : Text → Event
  elsewhere : Event

abbrev pub enrol : Text → Registry → Registry
enrol uid claims u = if uid == u then true else claims u

abbrev pub strike : Text → Registry → Registry
strike uid claims u = if u == uid then false else claims u

abbrev pub nobody : Registry
nobody u = false

-- What an event may do. A call that returns has done its work. One that breaks may have done it, and
-- an `Unprepare` that breaks may have forgotten all claims.
abbrev pub Allows : Event → Registry → Registry → Type 0
Allows (prepare_returned uid) before after = after ≡ enrol uid before
Allows (prepare_broke uid) before after = (after ≡ before) ⊎ (after ≡ enrol uid before)
Allows (unprepare_returned uid) before after = after ≡ strike uid before
Allows (unprepare_broke uid) before after =
    (after ≡ before) ⊎ (after ≡ strike uid before) ⊎ (after ≡ nobody)
Allows elsewhere before after = after ≡ before

-- The events from the latest to the first, and the registry that they lead to.
pub data Trace : List Event → Registry → Type 0 where
  begin : Trace [] nobody
  next :
      {es : List Event} {before after : Registry} (e : Event)
      → Trace es before
      → Allows e before after
      → Trace (e ∷ es) after

-- The claim has been prepared, and nothing has happened since that may have removed it.
unfoldable pub surely : Text → List Event → Bool
surely uid [] = false
surely uid (prepare_returned u ∷ es) = if u == uid then true else surely uid es
surely uid (prepare_broke u ∷ es) = surely uid es
surely uid (unprepare_returned u ∷ es) = if uid == u then false else surely uid es
surely uid (unprepare_broke u ∷ es) = false
surely uid (elsewhere ∷ es) = surely uid es

-- A call of `Prepare` for the claim came last, before any `Unprepare` for it that returned.
unfoldable pub maybe : Text → List Event → Bool
maybe uid [] = false
maybe uid (prepare_returned u ∷ es) = if u == uid then true else maybe uid es
maybe uid (prepare_broke u ∷ es) = if u == uid then true else maybe uid es
maybe uid (unprepare_returned u ∷ es) = if uid == u then false else maybe uid es
maybe uid (unprepare_broke u ∷ es) = maybe uid es
maybe uid (elsewhere ∷ es) = maybe uid es

at : (uid : Text) {r r' : Registry} → r ≡ r' → r uid ≡ r' uid
at uid e = ap (λ r. r uid) e

pub Trace-surely :
    (uid : Text) {es : List Event} {r : Registry} → Trace es r → surely uid es ≡ true → r uid ≡ true
unfolding surely
Trace-surely uid begin h = cc
Trace-surely uid (next (prepare_returned u) t e) h = ground (arith, at uid e, Trace-surely uid t)
Trace-surely uid (next (prepare_broke u) t (inl e)) h = at uid e ∙ Trace-surely uid t h
Trace-surely uid (next (prepare_broke u) t (inr e)) h =
    at uid e ∙ ground (arith, Trace-surely uid t h)
Trace-surely uid (next (unprepare_returned u) t e) h = ground (arith, at uid e, Trace-surely uid t)
Trace-surely uid (next (unprepare_broke u) t e) h = cc
Trace-surely uid (next elsewhere t e) h = at uid e ∙ Trace-surely uid t h

pub Trace-maybe :
    (uid : Text) {es : List Event} {r : Registry} → Trace es r → r uid ≡ true → maybe uid es ≡ true
unfolding maybe
Trace-maybe uid begin h = cc
Trace-maybe uid (next (prepare_returned u) t e) h = ground (arith, at uid e, Trace-maybe uid t)
Trace-maybe uid (next (prepare_broke u) t (inl e)) h =
    ground (arith, Trace-maybe uid t (sym (at uid e) ∙ h))
Trace-maybe uid (next (prepare_broke u) t (inr e)) h = ground (arith, at uid e, Trace-maybe uid t)
Trace-maybe uid (next (unprepare_returned u) t e) h = ground (arith, at uid e, Trace-maybe uid t)
Trace-maybe uid (next (unprepare_broke u) t (inl e)) h = Trace-maybe uid t (sym (at uid e) ∙ h)
Trace-maybe uid (next (unprepare_broke u) t (inr (inl e))) h =
    Trace-maybe uid t (ground (arith, at uid e))
Trace-maybe uid (next (unprepare_broke u) t (inr (inr e))) h = absurd (ground (arith, at uid e))
Trace-maybe uid (next elsewhere t e) h = Trace-maybe uid t (sym (at uid e) ∙ h)
