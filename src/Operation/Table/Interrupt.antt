-- ===== src/Operation/Table/Interrupt.antt =====
-- InterruptActiveInstalls on a table that breaks no constraint.
use yorva.Prelude.{ℕ, if◌then◌else◌}
use yorva.Operation.Types.{Status, Operation}
use yorva.Operation.Table.{Rows, interrupted, is_active_install}

-- What an interruption does to a row.
abbrev pub interrupt_row : ℕ → Operation → Operation
interrupt_row now row = if is_active_install row then interrupted now row else row
