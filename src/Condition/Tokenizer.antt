-- ===== src/Condition/Tokenizer.antt =====
-- pkg/goDB/conditions/tokenize.go: `Tokenize` and its split functions, on texts of ASCII bytes. The regular
-- expressions of `SanitizeUserInput` are not modelled.
pub mod Spaced
use go_probe.Common.{
  ℕ, zero, suc, ◌+◌, ◌<◌, ◌≡◌, Bool, true, false, ◌||◌, Option, none, some, List, [], ◌∷◌, ◌==◌,
  if◌then◌else◌, length, take, drop,
}
use go_probe.Common.Text.{Text}

abbrev pub is_blank : ℕ → Bool
is_blank c = (c == b' ') || ((c == b'\n') || ((c == b'\r') || (c == b'\t')))

-- The bytes that are delimiters of their own.
abbrev pub is_single : ℕ → Bool
is_single c = (c == b'=') || ((c == b'|') || ((c == b'&') || ((c == b'(') || (c == b')'))))

unfoldable pub starts_delimiter : ℕ → Bool
starts_delimiter c = (c == b'!') || ((c == b'<') || ((c == b'>') || (is_single c || is_blank c)))

unfoldable pub ends_delimiter : ℕ → Bool
ends_delimiter c = c == b'='

-- The number of bytes that a split function steps over, and its token, if it is not nil.
abbrev pub Advance : Type 0
Advance = ℕ × Option Text

-- The default case: a byte that may be the first of two.
unfoldable pub two_byte_split : ℕ → Text → Bool → Advance
two_byte_split c cs true = (1, some (c ∷ []))
two_byte_split c [] false = (0, none)
two_byte_split c (d ∷ cs) false =
    if ends_delimiter d then (2, some (c ∷ d ∷ [])) else (1, some (c ∷ []))

unfoldable pub delimiter_split_func : Text → Bool → Advance
delimiter_split_func [] at_eof = (0, none)
delimiter_split_func (c ∷ cs) at_eof =
    if is_single c
    then (1, some (c ∷ []))
    else if is_blank c
    then (1, some (b' ' ∷ []))
    else two_byte_split c cs at_eof

-- The loop of `wordSplitFunc`: the number of bytes before the first delimiter, and whether there is one.
unfoldable pub word_scan : Text → ℕ × Bool
word_scan [] = (0, false)
word_scan (c ∷ cs) =
    let (advance, found) = word_scan cs in
    if starts_delimiter c then (0, true) else (suc advance, found)

unfoldable pub word_split_func : Text → Bool → Advance
word_split_func text at_eof =
    let (advance, found) = word_scan text in
    if found || at_eof then (advance, some (take advance text)) else (0, none)

unfoldable pub conditional_split_func : Text → Bool → Advance
conditional_split_func [] at_eof = (0, none)
conditional_split_func (c ∷ cs) at_eof =
    if starts_delimiter c
    then delimiter_split_func (c ∷ cs) at_eof
    else word_split_func (c ∷ cs) at_eof

-- `Scan` of a bufio.Scanner over the data that are left: where the split function asks for more, it is
-- called again at the end of the input.
unfoldable pub ask_again : Text → Advance → Advance
ask_again text (advance, none) = conditional_split_func text true
ask_again text (advance, some token) = (advance, some token)

unfoldable pub next_token : Text → Advance
next_token text = ask_again text (conditional_split_func text false)

-- tok != " "
unfoldable pub is_space : Text → Bool
is_space [] = false
is_space (c ∷ []) = c == b' '
is_space (c ∷ d ∷ cs) = false

unfoldable pub append_token : Option Text → List Text → List Text
append_token none rest = []
append_token (some t) rest = t ∷ rest

-- The tokens of the data that are left; each takes a byte at least, so that their number is enough fuel.
unfoldable pub scanned_from : ℕ → Text → List Text
scanned_from zero text = []
scanned_from (suc fuel) [] = []
scanned_from (suc fuel) (c ∷ cs) =
    let (advance, token) = next_token (c ∷ cs) in
    append_token token (scanned_from fuel (drop advance (c ∷ cs)))

-- The scanner of the standard library with `conditionalSplitFunc`, and all of its tokens, those that are
-- spaces too: it ends with them, or with the tokens so far and an error, as where a token is too long for
-- its buffer. It reads a text that is shorter than its buffer without an error, and its tokens are then
-- the ones that the split function gives, one behind the other.
abbrev pub max_scan_token_size : ℕ
max_scan_token_size = 65536

pub record Scanner : Type 0 where
  pub scan : Text → List Text × Bool
  pub scan_short :
      (text : Text)
      → length text < max_scan_token_size
      → scan text ≡ (scanned_from (length text) text, false)

-- The loop of `Tokenize` over the tokens of the scanner, without the spaces.
unfoldable pub without_spaces : List Text → List Text
without_spaces [] = []
without_spaces (t ∷ ts) = let rest = without_spaces ts in if is_space t then rest else t ∷ rest

-- The tokens, and whether s.Err() is an error.
unfoldable pub tokenize : Scanner → Text → List Text × Bool
unfolding without_spaces
tokenize scanner cond_expression =
    let (ts, failed) = scanner.scan cond_expression in (without_spaces ts, failed)
