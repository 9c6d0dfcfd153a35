-- ===== src/App/Start/Closed.antt =====
-- Starts that the gate does not let pass.
use yorva.Prelude.{
  Bool, true, false, ◌&&◌, some, Bytes, bytes, [], Result, err, ◌≡◌, refl, ap, ◌∙◌, arith,
  Bool-cases, inl, inr,
}
use yorva.Install.Types.{Gate, is_invalid}
use yorva.Install.Seal.{read_active}
use yorva.App.Node.{Settings, Node, InstallError}
use yorva.App.Start.Refusals.{
  InstallStartResult, Detected, Fresh, gate_error, close_gate, reject_install_gate,
}
use yorva.App.Start.{after_gate, start}

-- A refusal with INSTALL_BLOCKED_UNSAFE, not to be retried, that leaves everything but the gate as it
-- was, and the gate blocked.
pub record Blocked (node : Node) (out : Result InstallError InstallStartResult × Node)
    : Type 0 where
  pub refused : out.0 ≡ err (InstallError.rejection (bytes "INSTALL_BLOCKED_UNSAFE") false [])
  pub disk : out.1.disk ≡ node.disk
  pub rows : out.1.rows ≡ node.rows
  pub broker : out.1.broker ≡ node.broker
  pub workers : out.1.workers ≡ node.workers
  pub gate : out.1.gate ≡ some Gate.blocked_unsafe

closed_gate :
    (s : Settings)
    → (fresh : Fresh) → (kind key : Bytes) → (detected : Detected) → (node : Node)
    → node.gate ≡ some Gate.blocked_unsafe
    → Blocked node (start s fresh kind key detected node)
unfolding start reject_install_gate after_gate gate_error close_gate
closed_gate s fresh kind key detected node h =
    elim (Bool-cases (s.rooted && is_invalid (read_active node.disk))) [
      | inl invalid ↦
          rw (invalid, h)
            (record {
              refused = refl;
              disk = refl;
              rows = refl;
              broker = refl;
              workers = refl;
              gate = refl;
            })
      | inr usable ↦
          rw (usable, h)
            (record {
              refused = refl;
              disk = refl;
              rows = refl;
              broker = refl;
              workers = refl;
              gate = refl;
            })
    ]

shuts_gate :
    (s : Settings)
    → (fresh : Fresh) → (kind key : Bytes) → (detected : Detected) → (node : Node) → (g : Gate)
    → node.gate ≡ some g
    → (s.rooted && is_invalid (read_active node.disk)) ≡ true
    → Blocked node (start s fresh kind key detected node)
unfolding start reject_install_gate after_gate close_gate
shuts_gate s fresh kind key detected node g h invalid = rw invalid (record {
  refused = refl;
  disk = refl;
  rows = refl;
  broker = refl;
  workers = refl;
  gate = ap close_gate h;
})

-- With a managed root and a gate, a start that finds the active pointer invalid is refused, changes
-- nothing but the gate, and shuts it: as long as the gate is as that start left it, every later start,
-- with whatever key, kind and discovery, whatever the disk and the table are by then, even with a
-- pointer that is valid again, is refused in the same way.
pub start-latches :
    (s : Settings)
    → (fresh fresh' : Fresh) → (kind kind' key key' : Bytes) → (detected detected' : Detected)
    → (node later : Node) → (g : Gate) → node.gate ≡ some g
    → s.rooted ≡ true
    → is_invalid (read_active node.disk) ≡ true
    → later.gate ≡ (start s fresh kind key detected node).1.gate
    → Blocked node (start s fresh kind key detected node)
      × Blocked later (start s fresh' kind' key' detected' later)
start-latches s fresh fresh' kind kind' key key' detected detected' node later g h rooted invalid
      unchanged =
    let first = shuts_gate s fresh kind key detected node g h (both s.rooted _ rooted invalid) in
    (first, closed_gate s fresh' kind' key' detected' later (unchanged ∙ first.gate))
  where
    both : (a b : Bool) → a ≡ true → b ≡ true → (a && b) ≡ true
    both a b p q = ground (arith, p, q)
