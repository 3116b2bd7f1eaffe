-- ===== src/Shell/Posix.antt =====
-- How a POSIX shell reads a command line, as far as quoting goes, and that it reads what
-- shellsafe writes as the values that went in. A byte with any other meaning to the shell, such
-- as `$` or `;`, makes the reader give up where it is not quoted.
use mathlib.Core.List.{append-nil, append_assoc}
use skifity.Prelude.{
  if◌then◌else◌, nat_beq_iff, nat_eq, ◌==◌, ℕ, ◌≡◌, refl, sym, ap, ◌∙◌, Bool, true, false, ◌||◌,
  Option, none, some, List, [], ◌∷◌, ◌++◌, map,
}
use skifity.Prelude.Text.{Text, codes, text_eq, contains_byte, join}
use skifity.Shell.{escape_quotes, quote, shell_join}

pub data Meaning : Type 0 where
  single_quote backslash blank special ordinary : Meaning

abbrev pub meaning : ℕ → Meaning
meaning c =
    if c == 39
    then single_quote
    else if c == 92
    then backslash
    else if c == 32 || c == 9
    then blank
    else if contains_byte (34 ∷ 10 ∷ codes "$`;&|<>()*?[]#~={}!%") c
    then special
    else ordinary

pub data Mode : Type 0 where
  between plain escaped quoted : Mode

abbrev pub add_word : Text → Option (List Text) → Option (List Text)
add_word word none = none
add_word word (some words) = some (word ∷ words)

-- The reader, with the word being read.
unfoldable pub read : Mode → Text → Text → Option (List Text)
unfolding contains_byte
read between word [] = some []
read plain word [] = some (word ∷ [])
read escaped word [] = none
read quoted word [] = none
read quoted word (c ∷ s) = elim (c == 39) [
  | true ↦ read plain word s
  | false ↦ read quoted (word ++ c ∷ []) s
]
read escaped word (c ∷ s) = elim (c == 10) [
  | true ↦ read plain word s
  | false ↦ read plain (word ++ c ∷ []) s
]
read plain word (c ∷ s) = elim (meaning c) [
  | single_quote ↦ read quoted word s
  | backslash ↦ read escaped word s
  | blank ↦ add_word word (read between [] s)
  | special ↦ none
  | ordinary ↦ read plain (word ++ c ∷ []) s
]
read between word (c ∷ s) = elim (meaning c) [
  | single_quote ↦ read quoted [] s
  | backslash ↦ read escaped [] s
  | blank ↦ read between [] s
  | special ↦ none
  | ordinary ↦ read plain (c ∷ []) s
]

unfoldable pub words : Text → Option (List Text)
unfolding read
words line = read between [] line

escaped_quote :
    (c : ℕ) (v : Text)
    → (c == 39) ≡ true
    → escape_quotes (c ∷ v) ≡ 39 ∷ 92 ∷ 39 ∷ 39 ∷ escape_quotes v
unfolding escape_quotes
escaped_quote c v e =
    ap
      (λ b. elim b as (λ _. Text) [
        | true ↦ 39 ∷ 92 ∷ 39 ∷ 39 ∷ escape_quotes v
        | false ↦ c ∷ escape_quotes v
      ])
      e

kept_byte : (c : ℕ) (v : Text) → (c == 39) ≡ false → escape_quotes (c ∷ v) ≡ c ∷ escape_quotes v
unfolding escape_quotes
kept_byte c v e =
    ap
      (λ b. elim b as (λ _. Text) [
        | true ↦ 39 ∷ 92 ∷ 39 ∷ 39 ∷ escape_quotes v
        | false ↦ c ∷ escape_quotes v
      ])
      e

read_kept :
    (c : ℕ) (word s : Text)
    → (c == 39) ≡ false
    → read quoted word (c ∷ s) ≡ read quoted (word ++ c ∷ []) s
unfolding read
read_kept c word s e =
    ap
      (λ b. elim b as (λ _. Option (List Text)) [
        | true ↦ read plain word s
        | false ↦ read quoted (word ++ c ∷ []) s
      ])
      e

read_escaped_quote :
    (word s : Text) → read quoted word (39 ∷ 92 ∷ 39 ∷ 39 ∷ s) ≡ read quoted (word ++ 39 ∷ []) s
unfolding read
read_escaped_quote word s = refl

quoted_turn :
    (b : Bool) (c : ℕ) (v word rest : Text)
    → (c == 39) ≡ b
    → ((w : Text) → read quoted w (escape_quotes v ++ 39 ∷ rest) ≡ read plain (w ++ v) rest)
    → read quoted word (escape_quotes (c ∷ v) ++ 39 ∷ rest) ≡ read plain (word ++ c ∷ v) rest
quoted_turn true c v word rest e h =
    ap (λ x. read quoted word (x ++ 39 ∷ rest)) (escaped_quote c v e)
    ∙ read_escaped_quote word (escape_quotes v ++ 39 ∷ rest)
    ∙ h (word ++ 39 ∷ [])
    ∙ ap (λ w. read plain w rest) (append_assoc word (39 ∷ []) v)
    ∙ ap (λ x. read plain (word ++ x ∷ v) rest) (sym ((nat_beq_iff c 39).0 e))
quoted_turn false c v word rest e h =
    ap (λ x. read quoted word (x ++ 39 ∷ rest)) (kept_byte c v e)
    ∙ read_kept c word (escape_quotes v ++ 39 ∷ rest) e
    ∙ h (word ++ c ∷ [])
    ∙ ap (λ w. read plain w rest) (append_assoc word (c ∷ []) v)

read_quoted :
    (v word rest : Text)
    → read quoted word (escape_quotes v ++ 39 ∷ rest) ≡ read plain (word ++ v) rest
unfolding read escape_quotes
read_quoted [] word rest = ap (λ w. read plain w rest) (sym (append-nil word))
read_quoted (c ∷ v) word rest = quoted_turn (c == 39) c v word rest refl (λ w. read_quoted v w rest)

-- A value that is quoted, where a word may begin, is read as that value.
read-quote : (v rest : Text) → read between [] (quote v ++ rest) ≡ read plain v rest
unfolding read quote
read-quote v rest =
    ap (λ x. read quoted [] x) (append_assoc (escape_quotes v) (39 ∷ []) rest)
    ∙ read_quoted v [] rest

-- The shell reads a joined command line as exactly the values that were given, in their order,
-- whatever bytes they hold.
pub words-shell_join : (values : List Text) → words (shell_join values) ≡ some values
unfolding words shell_join quote read join
words-shell_join [] = refl
words-shell_join (v ∷ []) =
    ap (λ x. read between [] x) (sym (append-nil (quote v))) ∙ read-quote v []
words-shell_join (v ∷ w ∷ values) =
    read-quote v (32 ∷ join (map quote (w ∷ values)) (codes " "))
    ∙ ap (add_word v) (words-shell_join (w ∷ values))
