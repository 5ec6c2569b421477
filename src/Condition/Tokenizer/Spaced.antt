-- ===== src/Condition/Tokenizer/Spaced.antt =====
-- Tokens that are written with spaces between them are found again (tokenize.go).
use go_probe.Common.{
  ℕ, zero, suc, ◌*◌, ◌≤◌, ◌<◌, ◌≡◌, refl, ap, ◌∙◌, Bool, true, false, some, List, [], ◌∷◌, ◌++◌,
  arith, ◌==◌, length, length-append, take-append_length, drop-append_length,
}
use go_probe.Common.Text.{Text}
use go_probe.Condition.Tokenizer.{
  starts_delimiter, ends_delimiter, two_byte_split, delimiter_split_func, word_scan,
  word_split_func, conditional_split_func, next_token, ask_again, append_token, is_space,
  scanned_from, tokenize, without_spaces, Scanner, max_scan_token_size,
}

-- No byte of the text starts a delimiter.
abbrev pub IsPlain : Text → Type 0
IsPlain [] = Unit {0}
IsPlain (c ∷ cs) = (starts_delimiter c ≡ false) × IsPlain cs

-- The tokens of the grammar: words and delimiters.
pub data IsToken : Text → Type 0 where
  word : (c : ℕ) (cs : Text) → IsPlain (c ∷ cs) → IsToken (c ∷ cs)
  equal : IsToken (b'=' ∷ [])
  alternative : IsToken (b'|' ∷ [])
  both : IsToken (b'&' ∷ [])
  opening : IsToken (b'(' ∷ [])
  closing : IsToken (b')' ∷ [])
  negation : IsToken (b'!' ∷ [])
  less : IsToken (b'<' ∷ [])
  greater : IsToken (b'>' ∷ [])
  not_equal : IsToken (b'!' ∷ b'=' ∷ [])
  less_or_equal : IsToken (b'<' ∷ b'=' ∷ [])
  greater_or_equal : IsToken (b'>' ∷ b'=' ∷ [])

abbrev pub AreTokens : List Text → Type 0
AreTokens [] = Unit {0}
AreTokens (t ∷ ts) = IsToken t × AreTokens ts

-- The tokens, with a space behind each.
abbrev pub spaced : List Text → Text
spaced [] = []
spaced (t ∷ ts) = t ++ b' ' ∷ spaced ts

word_scan-append : (cs rest : Text) → IsPlain cs → word_scan (cs ++ b' ' ∷ rest) ≡ (length cs, true)
unfolding word_scan starts_delimiter
word_scan-append [] rest h = refl
word_scan-append (c ∷ cs) rest (other, h) = rw (other, word_scan-append cs rest h) refl

word_split-append :
    (c : ℕ) (cs rest : Text)
    → IsPlain (c ∷ cs)
    → conditional_split_func ((c ∷ cs) ++ b' ' ∷ rest) false ≡ (length (c ∷ cs), some (c ∷ cs))
unfolding conditional_split_func word_split_func
word_split-append c cs rest (other, h) =
    rw (other, word_scan-append (c ∷ cs) rest (other, h), take-append_length (c ∷ cs) (b' ' ∷ rest))
      refl

next_token-word :
    (c : ℕ) (cs rest : Text)
    → IsPlain (c ∷ cs)
    → next_token ((c ∷ cs) ++ b' ' ∷ rest) ≡ (length (c ∷ cs), some (c ∷ cs))
unfolding next_token ask_again
next_token-word c cs rest h =
    ap (ask_again ((c ∷ cs) ++ b' ' ∷ rest)) (word_split-append c cs rest h)

-- A token is the next one where a space follows.
next_token-append : (t rest : Text) → IsToken t → next_token (t ++ b' ' ∷ rest) ≡ (length t, some t)
unfolding next_token ask_again conditional_split_func delimiter_split_func two_byte_split
    starts_delimiter ends_delimiter
next_token-append _ rest (word c cs h) = next_token-word c cs rest h
next_token-append _ rest equal = refl
next_token-append _ rest alternative = refl
next_token-append _ rest both = refl
next_token-append _ rest opening = refl
next_token-append _ rest closing = refl
next_token-append _ rest negation = refl
next_token-append _ rest less = refl
next_token-append _ rest greater = refl
next_token-append _ rest not_equal = refl
next_token-append _ rest less_or_equal = refl
next_token-append _ rest greater_or_equal = refl

word-not_space : (c : ℕ) → starts_delimiter c ≡ false → (c == b' ') ≡ false
unfolding starts_delimiter
word-not_space c h = ground arith

token_not_space : (t : Text) → IsToken t → is_space t ≡ false
unfolding is_space
token_not_space _ (word c [] (other, h)) = word-not_space c other
token_not_space _ (word c (d ∷ cs) h) = refl
token_not_space _ equal = refl
token_not_space _ alternative = refl
token_not_space _ both = refl
token_not_space _ opening = refl
token_not_space _ closing = refl
token_not_space _ negation = refl
token_not_space _ less = refl
token_not_space _ greater = refl
token_not_space _ not_equal = refl
token_not_space _ less_or_equal = refl
token_not_space _ greater_or_equal = refl

scanned_from-next :
    (fuel c : ℕ) (cs rest : Text)
    → next_token ((c ∷ cs) ++ rest) ≡ (length (c ∷ cs), some (c ∷ cs))
    → scanned_from (suc fuel) ((c ∷ cs) ++ rest) ≡ (c ∷ cs) ∷ scanned_from fuel rest
unfolding scanned_from append_token
scanned_from-next fuel c cs rest next = rw (next, drop-append_length (c ∷ cs) rest) refl

scanned_from-space :
    (fuel : ℕ) (rest : Text)
    → scanned_from (suc fuel) (b' ' ∷ rest) ≡ (b' ' ∷ []) ∷ scanned_from fuel rest
unfolding scanned_from append_token next_token ask_again conditional_split_func delimiter_split_func
    starts_delimiter
scanned_from-space fuel rest = refl

no_token : IsToken [] → ⊥
no_token = elim [ ]

-- The tokens with a space behind each.
abbrev with_spaces : List Text → List Text
with_spaces [] = []
with_spaces (t ∷ ts) = t ∷ (b' ' ∷ []) ∷ with_spaces ts

without_spaces-with_spaces : (ts : List Text) → AreTokens ts → without_spaces (with_spaces ts) ≡ ts
unfolding without_spaces is_space
without_spaces-with_spaces [] h = refl
without_spaces-with_spaces (t ∷ ts) (h, hs) =
    rw (token_not_space t h) (ap (λ rs. t ∷ rs) (without_spaces-with_spaces ts hs))

scanned_from-spaced :
    (ts : List Text) (fuel : ℕ)
    → AreTokens ts
    → 2 * length ts ≤ fuel
    → scanned_from fuel (spaced ts) ≡ with_spaces ts
unfolding scanned_from
scanned_from-spaced [] zero h k = refl
scanned_from-spaced [] (suc fuel) h k = refl
scanned_from-spaced (t ∷ ts) zero h k = absurd (omega arith)
scanned_from-spaced (t ∷ ts) (suc zero) h k = absurd (omega arith)
scanned_from-spaced ([] ∷ ts) (suc (suc fuel)) (h, hs) k = absurd (no_token h)
scanned_from-spaced ((c ∷ cs) ∷ ts) (suc (suc fuel)) (h, hs) k =
    scanned_from-next (suc fuel) c cs (b' ' ∷ spaced ts) (next_token-append (c ∷ cs) (spaced ts) h)
    ∙ ap (λ rs. (c ∷ cs) ∷ rs)
        (scanned_from-space fuel (spaced ts)
          ∙ ap (λ rs. (b' ' ∷ []) ∷ rs) (scanned_from-spaced ts fuel hs (omega arith)))

enough : (ts : List Text) → AreTokens ts → 2 * length ts ≤ length (spaced ts)
enough [] h = omega arith
enough ([] ∷ ts) (h, hs) = absurd (no_token h)
enough ((c ∷ cs) ∷ ts) (h, hs) =
    omega (arith, length-append (c ∷ cs) (b' ' ∷ spaced ts), enough ts hs)

-- Tokens of the grammar, each with a space behind it, are tokenized to themselves, without an error, if
-- the text is shorter than the buffer of the scanner, 64 KiB.
pub tokenize-spaced :
    (scanner : Scanner) (ts : List Text)
    → AreTokens ts
    → length (spaced ts) < max_scan_token_size
    → tokenize scanner (spaced ts) ≡ (ts, false)
unfolding tokenize
tokenize-spaced scanner ts h short =
    ap (λ (r : List Text × Bool). (without_spaces r.0, r.1)) (scanner.scan_short (spaced ts) short)
    ∙ ap (λ (l : List Text). (without_spaces l, false))
        (scanned_from-spaced ts (length (spaced ts)) h (enough ts h))
    ∙ ap (λ (l : List Text). (l, false)) (without_spaces-with_spaces ts h)
