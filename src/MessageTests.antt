-- ===== src/MessageTests.antt =====
-- Examples of the names of src/entities and the channels of src/renet.
use brilliance_network.Prelude.{◌≡◌, refl, ◌⊎◌}
use brilliance_network.Entities.{
  AnimationState, default, from_name, as_name, from_name-as_name, as_name-from_name,
}

named : (from_name "jump" ≡ AnimationState.jump) × (from_name "swim" ≡ default)
unfolding from_name default
named = (refl, refl)

from_name-as_name_example : from_name (as_name AnimationState.run) ≡ AnimationState.run
from_name-as_name_example = from_name-as_name AnimationState.run

as_name-from_name_example : (as_name (from_name "swim") ≡ "swim") ⊎ (from_name "swim" ≡ default)
as_name-from_name_example = as_name-from_name "swim"
