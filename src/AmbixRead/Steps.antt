-- ===== src/AmbixRead/Steps.antt =====
-- What happens to an object, one step after another.
use libambix.Base.{ℕ, Option, List, [], ◌∷◌, ◌++◌, ℤ, Outcome, done, ◌>>=◌}
use libambix.AmbixRead.{Performed, Player, Source, block, last, waits}
use libambix.AmbixRead.Child.{child}
use libambix.AmbixRead.Callback.{open_file, perform, start, stop, tick}

-- The frames of a stream that the outlets get.
abbrev pub heard : {T : Type 0} → Performed T → List (List T)
heard (block frames) = frames
heard (last frames) = frames
heard _ = []

-- What happens to an object: a step of its child, the audio callback, or a message.
pub data Event (T : Type 0) : Type 0 where
  child_step : (answer : ℤ) → Event T
  performed : Event T
  started stopped ticked : Event T
  opened : Option (Source T) → Event T

module _ {T : Type 0} (silence : T) (clear : (bufsize : ℕ) → (ℕ → List T) → ℕ → List T) where
  -- The object after an event, and what the outlets get.
  unfoldable pub step : Player T → Event T → Outcome (Player T × Performed T)
  step x (child_step answer) = child silence clear x answer >>= λ y. done (y, waits)
  step x performed = perform x
  step x started = done (start x, waits)
  step x stopped = done (stop x, waits)
  step x ticked = done (tick x, waits)
  step x (opened file) = done (open_file x file, waits)

  unfoldable pub run : Player T → List (Event T) → Outcome (Player T × List (List T))
  run x [] = done (x, [])
  run x (e ∷ events) =
      step x e >>= λ (y, out). run y events >>= λ (z, rest). done (z, heard out ++ rest)
