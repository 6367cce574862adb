-- ===== src/Strings.antt =====
-- What the program uses of Go's package strings, on the characters of a text.
use Prim.Native.Char.{Char, code}
use Prim.Native.String.{◌++◌ as append}
use ai_pub.Base.{
  ◌≡◌, refl, ℕ, zero, suc, ◌-◌, Bool, true, false, not, ◌&&◌, ◌||◌, String, List, [], ◌∷◌, leb,
  nat_eq, concat, if◌then◌else◌,
}

-- unicode.IsSpace: the spaces of ASCII, U+0085, U+00A0, and the categories Zs, Zl and Zp.
is_space : ℕ → Bool
is_space c =
    (leb 9 c && leb c 13)
    || (nat_eq c 32
        || (nat_eq c 133
            || (nat_eq c 160
                || (nat_eq c 5760
                    || ((leb 8192 c && leb c 8202)
                        || (nat_eq c 8232
                            || (nat_eq c 8233
                                || (nat_eq c 8239 || (nat_eq c 8287 || nat_eq c 12288)))))))))

-- strings.TrimSpace(s) == ""
unfoldable pub is_blank : String → Bool
unfolding is_space
is_blank String.[] = true
is_blank (String.◌∷◌ c s) = is_space (code c) && is_blank s

trim_left : String → String
unfolding is_space
trim_left String.[] = ""
trim_left (String.◌∷◌ c s) =
    let rest = trim_left s in if is_space (code c) then rest else String.◌∷◌ c s

trim_right : String → String
unfolding is_blank
trim_right String.[] = ""
trim_right (String.◌∷◌ c s) =
    let rest = trim_right s in if is_blank (String.◌∷◌ c s) then "" else String.◌∷◌ c rest

-- strings.TrimSpace
unfoldable pub trim_space : String → String
unfolding trim_left trim_right
trim_space s = trim_right (trim_left s)

-- strings.Join
unfoldable pub join : String → List String → String
join separator [] = ""
join separator (s ∷ []) = s
join separator (s ∷ (t ∷ rest)) = concat (s ∷ separator ∷ join separator (t ∷ rest) ∷ [])

-- strings.HasPrefix, the text first
unfoldable pub has_prefix : String → String → Bool
has_prefix s String.[] = true
has_prefix String.[] (String.◌∷◌ p ps) = false
has_prefix (String.◌∷◌ c s) (String.◌∷◌ p ps) = nat_eq (code c) (code p) && has_prefix s ps

-- strings.Contains
unfoldable pub contains : String → String → Bool
unfolding has_prefix
contains String.[] part = has_prefix "" part
contains (String.◌∷◌ c s) part = has_prefix (String.◌∷◌ c s) part || contains s part

unfoldable pub char_count : String → ℕ
char_count String.[] = 0
char_count (String.◌∷◌ c s) = suc (char_count s)

-- The characters of an occurrence that was replaced are passed over.
unfoldable pub replace_from : ℕ → String → String → String → String
unfolding has_prefix char_count
replace_from skip String.[] old new = ""
replace_from (suc k) (String.◌∷◌ c s) old new = replace_from k s old new
replace_from zero (String.◌∷◌ c s) old new =
    let rest = replace_from zero s old new in
    let after = replace_from (char_count old - 1) s old new in
    if has_prefix (String.◌∷◌ c s) old then append new after else String.◌∷◌ c rest

-- strings.ReplaceAll, for a text to replace that is not empty
unfoldable pub replace_all : String → String → String → String
unfolding replace_from
replace_all s old new = replace_from 0 s old new

-- strings.Split, at one character
put_first : Char → List String → List String
put_first c [] = String.◌∷◌ c "" ∷ []
put_first c (s ∷ rest) = String.◌∷◌ c s ∷ rest

unfoldable pub split : String → ℕ → List String
unfolding put_first
split String.[] separator = "" ∷ []
split (String.◌∷◌ c s) separator =
    let rest = split s separator in
    if nat_eq (code c) separator then "" ∷ rest else put_first c rest

starts_word : String → Bool
unfolding is_space
starts_word String.[] = false
starts_word (String.◌∷◌ c s) = not (is_space (code c))

-- strings.Fields
unfoldable pub fields : String → List String
unfolding is_space starts_word put_first
fields String.[] = []
fields (String.◌∷◌ c s) =
    let rest = fields s in
    if is_space (code c)
    then rest
    else if starts_word s
    then put_first c rest
    else String.◌∷◌ c "" ∷ rest

words : fields " Bearer  ak_x " ≡ "Bearer" ∷ "ak_x" ∷ []
unfolding fields
words = refl

trims : trim_space "  a b\n " ≡ "a b"
unfolding trim_space
trims = refl

replaces : replace_all "aXbXX" "X" "yy" ≡ "ayybyyyy"
unfolding replace_all
replaces = refl

splits : split "a.b..c" b'.' ≡ "a" ∷ "b" ∷ "" ∷ "c" ∷ []
unfolding split
splits = refl
