-- ===== src/Interpolation/VisualCorrection/Errors.antt =====
-- The error that a correction holds, and what is drawn with it.
use brilliance_network.Prelude.{
  ◌≡◌, refl, ◌⊎◌, inl, inr, ◌∙◌, ap, Bool, true, if◌then◌else◌, false, Option, none, some, List, [],
  ◌∷◌, arith, Bool-cases,
}
use brilliance_network.Float.{Float}
use brilliance_network.Interpolation.VisualCorrection.{
  Diffable, IsDifference, VisualCorrection, new, clear, record_correction, apply, update,
  decay_factor,
}

-- What a client does with a correction.
pub data Call (T S : Type 0) : Type 0 where
  records : T → T → Call T S
  updates : S → Call T S
  clears : Call T S

module _ {T Delta S : Type 0} (d : Diffable T Delta S) ⦃f : Float S⦄ where
  pub step : VisualCorrection Delta S → Call T S → VisualCorrection Delta S
  step c (records visual server) = record_correction d c visual server
  step c (updates dt) = update d c dt
  step c clears = clear c

  pub run : VisualCorrection Delta S → List (Call T S) → VisualCorrection Delta S
  unfolding step
  run c [] = c
  run c (call ∷ calls) = run (step c call) calls

  -- An error that is held is worth drawing, and the parameters are those of the start.
  pub record IsValid (rate limit : S) (c : VisualCorrection Delta S) : Type 0 where
    pub same_rate : c.decay_rate ≡ rate
    pub same_limit : c.threshold ≡ limit
    pub visible : (e : Delta) → c.error ≡ some e → d.delta_is_negligible e limit ≡ false

  step-IsValid :
      (rate limit : S) (c : VisualCorrection Delta S) (call : Call T S)
      → IsValid rate limit c
      → IsValid rate limit (step c call)
  unfolding step record_correction update clear
  step-IsValid rate limit c (records visual server) v = record {
    same_rate = ground (arith, v.same_rate);
    same_limit = ground (arith, v.same_limit);
    visible = λ e h. ground (arith, v.visible e, v.same_limit);
  }
  step-IsValid rate limit c (updates dt) v = record {
    same_rate = ground (arith, v.same_rate);
    same_limit = ground (arith, v.same_limit);
    visible = λ e h. ground (arith, v.visible e, v.same_limit);
  }
  step-IsValid rate limit c clears v = record {
    same_rate = v.same_rate;
    same_limit = v.same_limit;
    visible = λ e h. cc;
  }

  run-IsValid :
      (rate limit : S) (c : VisualCorrection Delta S) (calls : List (Call T S))
      → IsValid rate limit c
      → IsValid rate limit (run c calls)
  unfolding run
  run-IsValid rate limit c [] v = v
  run-IsValid rate limit c (call ∷ calls) v =
      run-IsValid rate limit (step c call) calls (step-IsValid rate limit c call v)

  -- Whatever is recorded, updated and cleared, an error that a correction holds is not negligible
  -- at its threshold, and its rate and threshold stay as they were made.
  pub run-new_correction-IsValid :
      (rate limit : S) (calls : List (Call T S)) → IsValid rate limit (run (new rate limit) calls)
  run-new_correction-IsValid rate limit calls =
      run-IsValid rate limit (new rate limit) calls
        (unfold new in record { same_rate = refl; same_limit = refl; visible = λ e h. cc })

  -- Where adding the difference of two positions to the second gives the first, a recorded correction
  -- does not move what is drawn: at the true position it draws the visual one. But if their difference is negligible, it draws what was drawn there before, with the error that
  -- was held.
  pub apply-record_correction :
      IsDifference d
      → (c : VisualCorrection Delta S) (visual server : T)
      → apply d (record_correction d c visual server) server ≡ (
          if d.delta_is_negligible (d.diff visual server) c.threshold
          then apply d c server
          else visual)
  unfolding apply record_correction
  apply-record_correction laws c visual server = ground (arith, laws.apply_delta-diff visual server)

  unfoldable pub update_all : VisualCorrection Delta S → List S → VisualCorrection Delta S
  update_all c [] = c
  update_all c (dt ∷ dts) = update_all (update d c dt) dts

  -- An error scaled by the factor of each of some frames in turn.
  pub decayed : (rate : S) → Delta → List S → Delta
  decayed rate e [] = e
  decayed rate e (dt ∷ dts) = decayed rate (d.scale_delta e (decay_factor rate dt)) dts

  -- After some frame the scaled error is negligible.
  pub FadesOut : (rate limit : S) → Delta → List S → Type 0
  FadesOut rate limit e [] = ⊥
  FadesOut rate limit e (dt ∷ dts) =
      let next = d.scale_delta e (decay_factor rate dt) in
      (d.delta_is_negligible next limit ≡ true) ⊎ FadesOut rate limit next dts

  update_settled : (c : VisualCorrection Delta S) (dt : S) → c.error ≡ none → update d c dt ≡ c
  unfolding update
  update_settled c dt e = rw e

  update_small :
      (c : VisualCorrection Delta S) (e : Delta) (dt : S)
      → c.error ≡ some e
      → d.delta_is_negligible (d.scale_delta e (decay_factor c.decay_rate dt)) c.threshold ≡ true
      → update d c dt ≡ record c { error = none }
  unfolding update
  update_small c e dt h small = ground arith

  update_large :
      (c : VisualCorrection Delta S) (e : Delta) (dt : S)
      → c.error ≡ some e
      → d.delta_is_negligible (d.scale_delta e (decay_factor c.decay_rate dt)) c.threshold ≡ false
      → update d c dt ≡ record c { error = some (d.scale_delta e (decay_factor c.decay_rate dt)) }
  unfolding update
  update_large c e dt h large = ground arith

  update_all_settled :
      (c : VisualCorrection Delta S) (dts : List S)
      → c.error ≡ none
      → (update_all c dts).error ≡ none
  unfolding update_all
  update_all_settled c [] e = e
  update_all_settled c (dt ∷ dts) e =
      update_all_settled (update d c dt) dts (ground (arith, update_settled c dt e))

  -- Over some frames an error that is held is scaled by each factor in turn, until it is negligible after one of
  -- them: then it is gone for good.
  pub update_all_error :
      (c : VisualCorrection Delta S) (e : Delta) (dts : List S)
      → c.error ≡ some e
      → (FadesOut c.decay_rate c.threshold e dts × ((update_all c dts).error ≡ none))
        ⊎ (¬ FadesOut c.decay_rate c.threshold e dts
            × ((update_all c dts).error ≡ some (decayed c.decay_rate e dts)))
  unfolding update_all decayed FadesOut
  update_all_error c e [] h = inr (λ b. b, h)
  update_all_error c e (dt ∷ dts) h =
      let next = d.scale_delta e (decay_factor c.decay_rate dt) in
      elim (Bool-cases (d.delta_is_negligible next c.threshold)) [
        | inl small ↦
            let gone = update_all_settled (record c { error = none }) dts refl in
            inl (inl small, ap error_after (update_small c e dt h small) ∙ gone)
        | inr large ↦
            let same = ap error_after (update_large c e dt h large) in
            elim (update_all_error (record c { error = some next }) next dts refl) [
              | inl (fades, gone) ↦ inl (inr fades, same ∙ gone)
              | inr (lasts, left) ↦ inr (still_visible large lasts, same ∙ left)
            ]
      ]
    where
      error_after : VisualCorrection Delta S → Option Delta
      error_after k = (update_all k dts).error

      still_visible : {A : Type 0} {b : Bool} → b ≡ false → ¬ A → ¬ ((b ≡ true) ⊎ A)
      still_visible large lasts (inl small) = cc
      still_visible large lasts (inr fades) = lasts fades
