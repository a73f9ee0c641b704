-- ===== src/Tests/Captures.antt =====
-- Captures with a host that takes pictures.
use folk_around.Prelude.{[], ◌∷◌, true, length, ◌==◌}
use folk_around.Text.{codes}
use folk_around.Effect.{ok}
use folk_around.Core.{full}
use folk_around.Mcp.{new_table}
use folk_around.Tools.Host.{Host, screen}
use folk_around.Tools.Registry.{register_tools}
use folk_around.Tools.Gate.Session.{serve}
use folk_around.Tools.Captures.{AllOwned}
use folk_around.Tools.Captures.Session.{captures_owned}
use folk_around.Tests.{desk, quiet_host, call_shell}

-- Its first capture is ephemeral, and the later ones are not.
abbrev camera : Host
camera = record quiet_host {
  artifact = λ h call. ok (record { path = codes "/a.png"; locator = codes "a" });
  capture = λ h call. ok (record {
    path = codes "/a.png";
    mode = screen;
    mime_type = codes "image/png";
    ephemeral = length h == 1;
  });
}

captures_owned_example : AllOwned camera (
    serve desk
      (register_tools camera (new_table full) true true)
      (call_shell (codes "folk_screen_capture") [] ∷ call_shell (codes "folk_see") [] ∷ [])
      [])
captures_owned_example =
    captures_owned desk camera full true true
      (call_shell (codes "folk_screen_capture") [] ∷ call_shell (codes "folk_see") [] ∷ [])
