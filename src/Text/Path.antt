-- ===== src/Text/Path.antt =====
-- Paths of Unix: `is_absolute`, and `join` with a relative component.
use folk_around.Prelude.{Bool, true, false, [], ◌∷◌, ◌++◌, ◌==◌, if◌then◌else◌}
use folk_around.Text.{Text}

unfoldable pub is_absolute : Text → Bool
is_absolute [] = false
is_absolute (c ∷ cs) = c == b'/'

unfoldable pub ends_with_slash : Text → Bool
ends_with_slash [] = true
ends_with_slash (c ∷ []) = c == b'/'
ends_with_slash (c ∷ d ∷ cs) = ends_with_slash (d ∷ cs)

unfoldable pub join : Text → Text → Text
join path component = if ends_with_slash path then path ++ component else path ++ (b'/' ∷ component)
