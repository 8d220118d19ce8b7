-- ===== src/Handler.antt =====
-- The handler contract of dasher/dasher.go: Handler, HandlerFunc, Noop, Producer, the stream error
-- policy and FailLoud, over a world that calls change.
use dasher.Common.{String, Option, none, some}
use dasher.Errors.{Error}
use dasher.Event.{Event}

-- A call returns an error or nil, or panics with a value.
pub data Outcome : Type 0 where
  returned : Option Error → Outcome
  panicked : String → Outcome

-- A computation in a world.
abbrev pub Action : Type 0 → Type 0 → Type 0
Action W A = W → A × W

abbrev pub Handler : Type 0 → Type 0 → Type 0
Handler I W = I → Event → Action W Outcome

unfoldable pub noop : {I W : Type 0} → Handler I W
noop inst evt w = (returned none, w)

-- `Emit(ctx, stream, evt)`
abbrev pub Emitter : Type 0 → Type 0
Emitter W = String → Event → Action W (Option Error)

-- `OnFatal(stream, err)`
abbrev pub Policy : Type 0 → Type 0
Policy W = String → Error → Action W (Option Error)

unfoldable pub fail_loud : {W : Type 0} → Policy W
fail_loud stream err w = (some err, w)
