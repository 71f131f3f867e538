-- ===== src/Images/Shell.antt =====
-- cmd/runboxctl/cmd/images/genimages.go: `shellJoin`, which writes a command as a line for the shell.
pub mod Words
use runboxd.Base.{ℕ, List, [], ◌∷◌, ◌++◌, map, ◌==◌, if◌then◌else◌}
use runboxd.Base.Text.{Text, text, join}

-- `strings.ReplaceAll(a, "'", "'\''")`
unfoldable pub replace_quotes : Text → Text
replace_quotes [] = []
replace_quotes (c ∷ s) =
    let rest = replace_quotes s in
    if c == b'\'' then b'\'' ∷ b'\\' ∷ b'\'' ∷ b'\'' ∷ rest else c ∷ rest

unfoldable pub quoted : Text → Text
unfolding replace_quotes
quoted a = b'\'' ∷ (replace_quotes a ++ (b'\'' ∷ []))

unfoldable pub shell_join : List Text → Text
unfolding quoted
shell_join args = join (map quoted args) (text " ")
