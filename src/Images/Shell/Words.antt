-- ===== src/Images/Shell/Words.antt =====
-- cmd/runboxctl/cmd/images/genimages.go: what a POSIX shell reads from a line of `shellJoin`. The reader
-- is the standard's rule for words of single quotes, characters behind a backslash, spaces and plain
-- characters. It refuses a line in which the shell would do more than that: one with an operator, an
-- expansion, a double quote, a pattern, a comment or another blank outside quotes.
use runboxd.Base.{
  Bool, ◌||◌, ℕ, ◌≡◌, refl, ◌∙◌, sym, ap, subst, Option, none, some, List, [], ◌∷◌, ◌++◌, map,
  append_assoc, append-nil, ◌==◌, if◌then◌else◌, true, false, Bool-cases, inl, inr, ==_iff,
}
use runboxd.Base.Text.{Text, text, join}
use runboxd.Images.Shell.{replace_quotes, quoted, shell_join}

-- Where the reader stands: between words, in a word, behind a backslash, or between single quotes.
pub data Mode : Type 0 where
  between in_word escaped in_quotes : Mode

-- The words of a line. `word` is the word so far; `none` means that a quote is open, that a
-- backslash stands at the end of the line, or that the shell would do more than read words.
abbrev and_word : Text → Option (List Text) → Option (List Text)
and_word word none = none
and_word word (some ws) = some (word ∷ ws)

pub data Kind : Type 0 where
  quote backslash space special plain : Kind

-- The characters that POSIX asks to quote, where they are to stand for themselves, with tab and newline, and
-- those that some shells expand.
abbrev pub special_characters : Text
special_characters = 9 ∷ 10 ∷ text "|&;<>()$`\"*?[]#~=%!{}"

abbrev one_of : ℕ → Text → Bool
one_of c [] = false
one_of c (x ∷ xs) = c == x || one_of c xs

abbrev kind : ℕ → Kind
kind c =
    if c == b'\''
    then quote
    else if c == b'\\'
    then backslash
    else if c == b' '
    then space
    else if one_of c special_characters
    then special
    else plain

pub shell_words : Mode → Text → Text → Option (List Text)
shell_words between word [] = some []
shell_words in_word word [] = and_word word (some [])
shell_words escaped word [] = none
shell_words in_quotes word [] = none
shell_words in_quotes word (c ∷ s) = elim (c == b'\'') [
  | true ↦ shell_words in_word word s
  | false ↦ shell_words in_quotes (word ++ (c ∷ [])) s
]
shell_words escaped word (c ∷ s) = elim (c == 10) [
  | true ↦ none
  | false ↦ shell_words in_word (word ++ (c ∷ [])) s
]
shell_words between word (c ∷ s) = elim (kind c) [
  | quote ↦ shell_words in_quotes [] s
  | backslash ↦ shell_words escaped [] s
  | space ↦ shell_words between [] s
  | special ↦ none
  | plain ↦ shell_words in_word (c ∷ []) s
]
shell_words in_word word (c ∷ s) = elim (kind c) [
  | quote ↦ shell_words in_quotes word s
  | backslash ↦ shell_words escaped word s
  | space ↦ and_word word (shell_words between [] s)
  | special ↦ none
  | plain ↦ shell_words in_word (word ++ (c ∷ [])) s
]

in_quotes_plain :
    (c : ℕ) (word s : Text)
    → (c == b'\'') ≡ false
    → shell_words in_quotes word (c ∷ s) ≡ shell_words in_quotes (word ++ (c ∷ [])) s
unfolding shell_words
in_quotes_plain c word s plain_here = rw (plain_here, shell_words) refl

replace_quotes_plain :
    (c : ℕ) (s : Text) → (c == b'\'') ≡ false → replace_quotes (c ∷ s) ≡ c ∷ replace_quotes s
unfolding replace_quotes
replace_quotes_plain c s plain_here = rw (plain_here, replace_quotes) refl

-- Between quotes the reader takes a quoted text for the text itself.
words-replace_quotes :
    (a rest word : Text)
    → shell_words in_quotes word (replace_quotes a ++ rest) ≡ shell_words in_quotes (word ++ a) rest
unfolding shell_words replace_quotes
words-replace_quotes [] rest word = rw (append-nil word)
words-replace_quotes (c ∷ a) rest word =
    let shift = append_assoc word (c ∷ []) a in
    let read =
      words-replace_quotes a rest (word ++ (c ∷ []))
      ∙ ap (λ w. shell_words in_quotes w rest) shift in
    elim (Bool-cases (c == b'\'')) [
      | inl quote_here ↦
          let e : c ≡ b'\'' = (==_iff c b'\'').0 quote_here in
          rw (quote_here, replace_quotes, shell_words)
            (subst
              (λ d.
                shell_words in_quotes (word ++ (d ∷ [])) (replace_quotes a ++ rest)
                ≡ shell_words in_quotes (word ++ (c ∷ a)) rest)
              e read)
      | inr other ↦
          ap (λ q. shell_words in_quotes word (q ++ rest)) (replace_quotes_plain c a other)
          ∙ in_quotes_plain c word (replace_quotes a ++ rest) other
          ∙ read
    ]

words-quoted :
    (a rest : Text) → shell_words between [] (quoted a ++ rest) ≡ shell_words in_word a rest
unfolding shell_words quoted
words-quoted a rest =
    ap (shell_words in_quotes []) (append_assoc (replace_quotes a) (b'\'' ∷ []) rest)
    ∙ words-replace_quotes a (b'\'' ∷ rest) []

words-last : (a : Text) → shell_words between [] (quoted a) ≡ some (a ∷ [])
unfolding shell_words
words-last a = ap (shell_words between []) (sym (append-nil (quoted a))) ∙ words-quoted a []

-- The line that `shellJoin` writes for a command is read back by the shell as that command, and
-- nothing in it is expanded or run, whatever bytes its words consist of.
pub shell_words-shell_join :
    (args : List Text) → shell_words between [] (shell_join args) ≡ some args
unfolding shell_words shell_join join
shell_words-shell_join [] = refl
shell_words-shell_join (a ∷ []) = words-last a
shell_words-shell_join (a ∷ b ∷ args) =
    words-quoted a (text " " ++ join (map quoted (b ∷ args)) (text " "))
    ∙ ap (and_word a) (shell_words-shell_join (b ∷ args))
