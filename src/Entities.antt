-- ===== src/Entities.antt =====
-- src/entities/mod.rs and src/entities/entity_tag.rs: what the messages say of an entity.
use Prim.Native.String.{String}
use text.Mathlib.Text.{◌==◌}
use text.Mathlib.TextEquality.{eq_iff}
use brilliance_network.Prelude.{◌≡◌, sym, refl, ◌⊎◌, inl, inr, Option, if◌then◌else◌, Bool-cases}

pub data AnimationState : Type 0 where
  idle : AnimationState
  walk : AnimationState
  run : AnimationState
  jump : AnimationState
  fall : AnimationState

unfoldable pub default : AnimationState
default = idle

unfoldable pub from_name : String → AnimationState
from_name name =
    if name == "walk"
    then walk
    else if name == "run"
    then run
    else if name == "jump"
    then jump
    else if name == "fall"
    then fall
    else idle

unfoldable pub as_name : AnimationState → String
as_name idle = "idle"
as_name walk = "walk"
as_name run = "run"
as_name jump = "jump"
as_name fall = "fall"

pub data EntitySkinData : Type 0 where
  generic : EntitySkinData
  fixed : String → EntitySkinData
  none : EntitySkinData

-- `F32` and `I32` are the numbers of its fields, which are only handed on.
pub record EntityTagData (F32 I32 : Type 0) : Type 0 where
  pub content : String
  pub offset : Option F32
  pub font_size : Option I32
  pub outline_size : Option I32

pub data EntityNetworkComponent (F32 I32 : Type 0) : Type 0 where
  tag : Option (EntityTagData F32 I32) → EntityNetworkComponent F32 I32
  skin : EntitySkinData → EntityNetworkComponent F32 I32

-- Every state is read back from its name.
pub from_name-as_name : (a : AnimationState) → from_name (as_name a) ≡ a
unfolding from_name as_name
from_name-as_name idle = refl
from_name-as_name walk = refl
from_name-as_name run = refl
from_name-as_name jump = refl
from_name-as_name fall = refl

-- A name is that of the state read from it, or the state is the default one.
pub as_name-from_name :
    (name : String) → (as_name (from_name name) ≡ name) ⊎ (from_name name ≡ default)
unfolding from_name as_name default
as_name-from_name name = elim (Bool-cases (name == "walk")) [
  | inl e ↦ inl (rw e (sym ((eq_iff name "walk").0 e)))
  | inr not_walk ↦ elim (Bool-cases (name == "run")) [
    | inl e ↦ inl (rw (not_walk, e) (sym ((eq_iff name "run").0 e)))
    | inr not_run ↦ elim (Bool-cases (name == "jump")) [
      | inl e ↦ inl (rw (not_walk, not_run, e) (sym ((eq_iff name "jump").0 e)))
      | inr not_jump ↦ elim (Bool-cases (name == "fall")) [
        | inl e ↦ inl (rw (not_walk, not_run, not_jump, e) (sym ((eq_iff name "fall").0 e)))
        | inr not_fall ↦ inr (rw (not_walk, not_run, not_jump, not_fall) refl)
      ]
    ]
  ]
]
