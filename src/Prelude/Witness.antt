-- ===== src/Prelude/Witness.antt =====
-- The theorem on path parts, at an identifier with a separator.
use dayz_behaviour.Prelude.Text.{sanitise, IsPathPart, sanitise-IsPathPart}

sanitise-IsPathPart_example : IsPathPart (sanitise "../etc")
sanitise-IsPathPart_example = sanitise-IsPathPart "../etc"
