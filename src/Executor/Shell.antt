-- ===== src/Executor/Shell.antt =====
-- internal/executor/executor.go: shellQuoteJoin, and a POSIX shell's words.
use Prim.Native.Char.{Char, code}
use Prim.Native.String.{◌++◌ as append}
use text.Mathlib.TextEquality.{Char-path}
use text.Mathlib.TextLemmas.{nil-append, cons-append, append-nil, append_assoc}
use ai_pub.Base.{
  ◌≡◌, refl, sym, ap, ◌∙◌, Bool, true, false, not, ◌&&◌, ◌||◌, String, Option, none, some, List, [],
  ◌∷◌, Bool-cases, inl, inr, arith, nat_eq, leb, if◌then◌else◌,
}
use ai_pub.Strings.{join, has_prefix, char_count, replace_from, replace_all}
use ai_pub.Executor.{shell_quote, shell_quotes, shell_quote_join}

-- Where a shell stands in a command: between words, in a word, in single quotes, after a backslash.
pub data Place : Type 0 where
  between bare quoted escaped : Place

-- A character at the front of the first word.
on_word : Char → Option (List String) → Option (List String)
on_word c none = none
on_word c (some []) = none
on_word c (some (w ∷ words)) = some (String.◌∷◌ c w ∷ words)

new_word : Option (List String) → Option (List String)
new_word none = none
new_word (some words) = some ("" ∷ words)

-- The characters that mean something else to a shell than themselves.
is_special : Char → Bool
is_special c =
    not ((leb b'a' (code c) && leb (code c) b'z') || (leb b'-' (code c) && leb (code c) b'9'))

-- The words of a command, by the rules of a POSIX shell for blanks, single quotes and backslashes. A
-- command with anything else that a shell may expand has none. In a word, the first of the words is
-- the rest of that word.
pub shell_words : Place → String → Option (List String)
unfolding on_word new_word is_special
shell_words between String.[] = some []
shell_words bare String.[] = some ("" ∷ [])
shell_words quoted String.[] = none
shell_words escaped String.[] = none
shell_words between (String.◌∷◌ c s) =
    let blank = shell_words between s in
    let quote = shell_words quoted s in
    let escape = shell_words escaped s in
    let other = shell_words bare s in
    if nat_eq (code c) b' '
    then blank
    else if nat_eq (code c) b'\''
    then quote
    else if nat_eq (code c) b'\\'
    then escape
    else if is_special c
    then none
    else on_word c other
shell_words bare (String.◌∷◌ c s) =
    let blank = shell_words between s in
    let quote = shell_words quoted s in
    let escape = shell_words escaped s in
    let other = shell_words bare s in
    if nat_eq (code c) b' '
    then new_word blank
    else if nat_eq (code c) b'\''
    then quote
    else if nat_eq (code c) b'\\'
    then escape
    else if is_special c
    then none
    else on_word c other
shell_words quoted (String.◌∷◌ c s) =
    let end = shell_words bare s in
    let other = shell_words quoted s in if nat_eq (code c) b'\'' then end else on_word c other
shell_words escaped (String.◌∷◌ c s) =
    let other = shell_words bare s in if nat_eq (code c) b'\n' then none else on_word c other

-- The characters of a text at the front of the first word.
spell : String → Option (List String) → Option (List String)
unfolding on_word
spell String.[] words = words
spell (String.◌∷◌ c s) words = on_word c (spell s words)

spell-word : (s : String) (words : List String) → spell s (some ("" ∷ words)) ≡ some (s ∷ words)
unfolding spell on_word
spell-word String.[] words = refl
spell-word (String.◌∷◌ c s) words = rw (spell-word s words) refl

-- What shellQuote makes of the characters of a text.
abbrev quoted_text : String → String
quoted_text s = replace_from 0 s "'" "'\\''"

quoted_text-quote :
    (c : Char) (s : String)
    → nat_eq (code c) b'\'' ≡ true
    → quoted_text (String.◌∷◌ c s) ≡ append "'\\''" (quoted_text s)
unfolding replace_from has_prefix char_count
quoted_text-quote c s h = rw h refl

quoted_text-other :
    (c : Char) (s : String)
    → nat_eq (code c) b'\'' ≡ false
    → quoted_text (String.◌∷◌ c s) ≡ String.◌∷◌ c (quoted_text s)
unfolding replace_from has_prefix char_count
quoted_text-other c s h = rw h refl

end_quote : (rest : String) → append "'" rest ≡ String.◌∷◌ "'" rest
end_quote rest = cons-append "'" "" rest ∙ ap (λ (t : String). String.◌∷◌ "'" t) (nil-append rest)

reads_escape :
    (rest : String)
    → shell_words quoted (append "'\\''" rest) ≡ on_word "'" (shell_words quoted rest)
unfolding shell_words
reads_escape rest =
    rw
      (
        cons-append "'" "\\''" rest,
        cons-append "\\" "''" rest,
        cons-append "'" "'" rest,
        end_quote rest,
      )
      refl

-- In single quotes, the text that was quoted is read back, and then the quotes end.
reads_quoted :
    (s rest : String)
    → shell_words quoted (append (quoted_text s) (append "'" rest))
      ≡ spell s (shell_words bare rest)
unfolding shell_words spell replace_from
reads_quoted String.[] rest = rw (nil-append (append "'" rest), end_quote rest) refl
reads_quoted (String.◌∷◌ c s) rest = elim (Bool-cases (nat_eq (code c) b'\'')) [
  | inl t ↦
      rw
        (
          quoted_text-quote c s t,
          append_assoc "'\\''" (quoted_text s) (append "'" rest),
          reads_escape (append (quoted_text s) (append "'" rest)),
          reads_quoted s rest,
        )
        (ap (λ (x : Char). on_word x (spell s (shell_words bare rest)))
          (sym (Char-path c "'" (ground (arith, t)))))
  | inr f ↦
      rw
        (
          quoted_text-other c s f,
          cons-append c (quoted_text s) (append "'" rest),
          f,
          reads_quoted s rest,
        )
        refl
]

-- A text that shellQuote quoted, at the front of a command, is the first word's beginning.
reads_quote :
    (s rest : String)
    → shell_words between (append (shell_quote s) rest) ≡ spell s (shell_words bare rest)
unfolding shell_words shell_quote replace_all
reads_quote s rest =
    rw
      (
        append-nil "'",
        append_assoc "'" (append (quoted_text s) "'") rest,
        append_assoc (quoted_text s) "'" rest,
        end_quote (append (quoted_text s) (append "'" rest)),
      )
      (reads_quoted s rest)

-- A POSIX shell reads from a command that shellQuoteJoin made exactly the words that were quoted,
-- whatever characters they have.
pub shell_words-shell_quote_join :
    (values : List String) → shell_words between (shell_quote_join values) ≡ some values
unfolding shell_words shell_quote_join shell_quotes join new_word
shell_words-shell_quote_join [] = refl
shell_words-shell_quote_join (s ∷ []) =
    rw (sym (append-nil (shell_quote s))) (reads_quote s "" ∙ spell-word s [])
shell_words-shell_quote_join (s ∷ (t ∷ rest)) =
    let next = shell_words-shell_quote_join (t ∷ rest) in
    let command = shell_quote_join (t ∷ rest) in
    rw
      (
        append-nil command,
        reads_quote s (append " " command),
        cons-append " " "" command,
        nil-append command,
        next,
      )
      (spell-word s (t ∷ rest))
