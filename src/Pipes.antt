-- ===== src/Pipes.antt =====
-- The pipes that write values into the pages, src/Blockcore.Hub/ClientApp/src/app/shared/: yes.pipe.ts, amount.ts,
-- size.pipe.ts, ago.pipe.ts and timestamp.pipe.ts. The language's numbers with `toFixed`, and the library of dates,
-- are parameters.
mod Tests
use blockcore_gateway.Common.{ℕ, ◌++◌, if◌then◌else◌}
use blockcore_gateway.Js.Text.{Text, text}
use blockcore_gateway.Js.Value.{Value, truthy}

-- `YesPipe`, which tests any value that it is given.
abbrev pub yes : Value → Text
yes value = if truthy value then text "Yes" else text "No"

module _ {Number : Type 0} (divide : Number → ℕ → Number) (to_fixed : Number → ℕ → Text) where
  -- `AmountPipe`
  abbrev amount_text : Number → Text
  amount_text value = to_fixed (divide value 100000000) 8

  -- `SizePipe`
  abbrev size_text : Number → Text
  size_text value = to_fixed (divide value 1024) 3 ++ text "kB"

module _ {Number Moment : Type 0} (unix : Number → Moment) where
  -- `AgoPipe`; `from_now` depends on the time of the call.
  abbrev ago : (Moment → Text) → Number → Text
  ago from_now value = from_now (unix value)

  -- `TimestampPipe`
  abbrev timestamp : {Date : Type 0} → (Moment → Date) → Number → Date
  timestamp to_date value = to_date (unix value)
