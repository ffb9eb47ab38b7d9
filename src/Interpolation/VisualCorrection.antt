-- ===== src/Interpolation/VisualCorrection.antt =====
-- src/interpolation/visual_correction.rs over the traits of src/interpolation/traits.rs.
pub mod Errors
use brilliance_network.Prelude.{◌≡◌, Bool, true, false, Option, none, some, if◌then◌else◌}
use brilliance_network.Float.{Float}

-- `trait Interpolatable`, at the factors `S`.
pub record Interpolatable (T S : Type 0) : Type 0 where
  pub lerp : T → T → S → T

-- `trait Diffable`, with `Delta` for the associated type and `S` for `f32`. A type that implements
-- it is a parameter.
pub record Diffable (T Delta S : Type 0) : Type 0 where
  pub diff : T → T → Delta
  pub apply_delta : T → Delta → T
  pub scale_delta : Delta → S → Delta
  pub delta_is_negligible : Delta → S → Bool

-- What the comments of the trait promise: `diff` is `self - other`, and `apply_delta` adds.
pub record IsDifference {T Delta S : Type 0} (d : Diffable T Delta S) : Type 0 where
  pub apply_delta-diff : (x y : T) → d.apply_delta y (d.diff x y) ≡ x

pub record VisualCorrection (Delta S : Type 0) : Type 0 where
  pub error : Option Delta
  pub decay_rate : S
  pub threshold : S

-- The factor by which an error decays over some time.
unfoldable pub decay_factor : {S : Type 0} ⦃f : Float S⦄ → S → S → S
decay_factor ⦃f⦄ decay_rate delta_time = f.exp (f.mul (f.neg decay_rate) delta_time)

module _ {Delta S : Type 0} where
  unfoldable pub new : S → S → VisualCorrection Delta S
  new decay_rate threshold = record { error = none; decay_rate = decay_rate; threshold = threshold }

  unfoldable pub has_active_correction : VisualCorrection Delta S → Bool
  has_active_correction c = elim c.error [ none ↦ false | some e ↦ true ]

  unfoldable pub clear : VisualCorrection Delta S → VisualCorrection Delta S
  clear c = record c { error = none }

module _ {T Delta S : Type 0} (d : Diffable T Delta S) where
  unfoldable pub record_correction : VisualCorrection Delta S → T → T → VisualCorrection Delta S
  record_correction c visual_pos server_pos =
      let new_error = d.diff visual_pos server_pos in
      if d.delta_is_negligible new_error c.threshold then c else record c { error = some new_error }

  unfoldable pub apply : VisualCorrection Delta S → T → T
  apply c server_pos = elim c.error [
    | some error ↦ d.apply_delta server_pos error
    | none ↦ server_pos
  ]

  module _ ⦃f : Float S⦄ where
    unfoldable pub update : VisualCorrection Delta S → S → VisualCorrection Delta S
    unfolding decay_factor
    update c delta_time = elim c.error [
      | none ↦ c
      | some error ↦
          let decayed = d.scale_delta error (decay_factor c.decay_rate delta_time) in
          if d.delta_is_negligible decayed c.threshold
          then record c { error = none }
          else record c { error = some decayed }
    ]
