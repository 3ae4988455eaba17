-- ===== src/Control/History/Effect.antt =====
-- What every call keeps of the entry that it is about.
use the_six.Base.{◌≡◌, ◌⊎◌, arith}
use the_six.Control.ControlEntry.{ControlEntry, next_generation}
use the_six.Control.Handlers.Sound.{IsSound}
use the_six.Control.History.{Call, puts_generation, effect, IsWellTyped}

pub effect-address : (call : Call) (e : ControlEntry) → (effect call e).address ≡ e.address
unfolding effect
effect-address call e = ground arith

-- Whether a call assigns a generation that its caller chose.
unfoldable pub AssignsNone : Call → Type 0
AssignsNone (puts_generation key generation) = ⊥
AssignsNone _ = Unit {0}

pub effect-generation :
    (call : Call) (e : ControlEntry)
    → AssignsNone call
    → ((effect call e).generation ≡ e.generation)
      ⊎ ((effect call e).generation ≡ next_generation e.generation)
unfolding effect AssignsNone next_generation
effect-generation call e h = ground arith

pub effect-IsSound :
    (call : Call) (e : ControlEntry) → IsWellTyped call → IsSound e → IsSound (effect call e)
unfolding effect IsWellTyped
effect-IsSound call e t v = ground arith
