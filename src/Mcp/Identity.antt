-- ===== src/Mcp/Identity.antt =====
-- `integration_name` of crates/folk-mcp/src/lib.rs: the server's name from the host's.
use folk_around.Prelude.{ℕ, [], ◌∷◌, ◌++◌, map, Option, none, some, if◌then◌else◌, ◌==◌}
use folk_around.Text.{Text, Bytes, is_empty, trim, to_ascii_lowercase, is_ascii_alphanumeric}
use folk_around.Text.Utf8.{from_utf8}

-- What the process is told: two variables, and the output of the program `hostname`, if it ran.
pub record HostNames : Type 0 where
  pub computername : Option Text
  pub hostname : Option Text
  pub hostname_output : Option Bytes

abbrev or_else : Option Text → Option Text → Option Text
or_else none o = o
or_else (some s) o = some s

abbrev text_or_empty : Option Text → Text
text_or_empty none = []
text_or_empty (some s) = s

abbrev decoded : Option Bytes → Option Text
decoded none = none
decoded (some bytes) = from_utf8 bytes

abbrev unless_blank : Option Text → Text → Text
unless_blank none other = other
unless_blank (some s) other = if is_empty (trim s) then other else s

abbrev cons_unless_dash : ℕ → Text → Text
cons_unless_dash c [] = if c == b'-' then [] else c ∷ []
cons_unless_dash c (d ∷ ds) = c ∷ d ∷ ds

-- `trim_matches('-')`
unfoldable pub trim_dashes_end : Text → Text
trim_dashes_end [] = []
trim_dashes_end (c ∷ cs) = cons_unless_dash c (trim_dashes_end cs)

unfoldable pub trim_dashes : Text → Text
unfolding trim_dashes_end
trim_dashes [] = []
trim_dashes (c ∷ cs) = if c == b'-' then trim_dashes cs else trim_dashes_end (c ∷ cs)

abbrev dash_other : ℕ → ℕ
dash_other c = if is_ascii_alphanumeric c then c else b'-'

unfoldable pub integration_name : HostNames → Text → Text
integration_name host base =
    let raw =
      unless_blank (or_else host.computername host.hostname)
        (text_or_empty (decoded host.hostname_output)) in
    let suffix = trim_dashes (map dash_other (to_ascii_lowercase (trim raw))) in
    if is_empty suffix then base else base ++ (b'-' ∷ suffix)
