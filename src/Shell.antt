-- ===== src/Shell.antt =====
-- internal/shellsafe/shellsafe.go: quoting a value for a script.
pub mod Posix
use skifity.Prelude.{nat_eq, ◌==◌, true, false, List, [], ◌∷◌, ◌++◌, map}
use skifity.Prelude.Text.{Text, codes, text_eq, join}

-- `strings.ReplaceAll` of each quote by: close, an escaped quote, open.
unfoldable pub escape_quotes : Text → Text
escape_quotes [] = []
escape_quotes (c ∷ s) =
    let rest = escape_quotes s in
    elim (c == 39) [ true ↦ 39 ∷ 92 ∷ 39 ∷ 39 ∷ rest | false ↦ c ∷ rest ]

unfoldable pub quote : Text → Text
unfolding escape_quotes
quote value = 39 ∷ (escape_quotes value ++ 39 ∷ [])

unfoldable pub shell_join : List Text → Text
unfolding quote join
shell_join values = join (map quote values) (codes " ")
