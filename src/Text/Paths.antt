-- ===== src/Text/Paths.antt =====
-- File paths as texts: `Path::join`.
use squish.Prelude.{Bool, if◌then◌else◌, is_empty, false, ◌∷◌, ◌||◌, ◌++◌, ◌==◌, []}
use squish.Text.Chars.{Text, text, starts_with}

unfoldable pub ends_with_slash : Text → Bool
ends_with_slash [] = false
ends_with_slash (x ∷ xs) = if is_empty xs then x == b'/' else ends_with_slash xs

-- `Path::join`: an absolute second path replaces the first.
unfoldable pub join_path : Text → Text → Text
unfolding ends_with_slash
join_path base path =
    if starts_with (text "/") path
    then path
    else if is_empty base || ends_with_slash base
    then base ++ path
    else base ++ b'/' ∷ path
