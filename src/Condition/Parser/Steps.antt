-- ===== src/Condition/Parser/Steps.antt =====
-- The steps of the parser on a token stream whose next tokens are known.
use go_probe.Common.{
  ℕ, zero, suc, ◌≡◌, refl, Bool, true, false, none, some, List, [], ◌∷◌, String, arith, get_elem?,
  drop, str_eq, str_eq_iff,
}
use go_probe.Condition.Parser.{Parser, success, current, advance, accept}

-- The parser has met no error, and these tokens are left.
abbrev pub At : Parser → List String → Type 0
At p ts = (p.error ≡ none) × (drop p.pos p.tokens ≡ ts)

get_elem?-drop :
    (i : ℕ) (xs : List String) (t : String) (ts : List String)
    → drop i xs ≡ t ∷ ts
    → (get_elem? xs i ≡ some t) × (drop (suc i) xs ≡ ts)
get_elem?-drop zero [] t ts e = absurd (ground arith)
get_elem?-drop zero (x ∷ xs) t ts e = (ground arith, ground arith)
get_elem?-drop (suc i) [] t ts e = absurd (ground arith)
get_elem?-drop (suc i) (x ∷ xs) t ts e = get_elem?-drop i xs t ts e

get_elem?-end : (i : ℕ) (xs : List String) → drop i xs ≡ [] → get_elem? xs i ≡ none
get_elem?-end zero [] e = refl
get_elem?-end zero (x ∷ xs) e = absurd (ground arith)
get_elem?-end (suc i) [] e = refl
get_elem?-end (suc i) (x ∷ xs) e = get_elem?-end i xs e

-- The next token is the given one.
abbrev pub starts : List String → String → Bool
starts [] token = false
starts (t ∷ ts) token = str_eq t token

pub success_lem : (p : Parser) (ts : List String) → At p ts → success p ≡ true
unfolding success
success_lem p ts (e, d) = rw e refl

pub advance_lem :
    (p : Parser) (t : String) (ts : List String)
    → At p (t ∷ ts)
    → (q : Parser) × (advance p ≡ (t, q)) × At q ts
unfolding advance current
advance_lem p t ts (e, d) =
    let (g, d₁) = get_elem?-drop p.pos p.tokens t ts d in rw (g, advance) (_, refl, (e, d₁))

pub accept_yes :
    (p : Parser) (t : String) (ts : List String)
    → At p (t ∷ ts)
    → (q : Parser) × (accept t p ≡ (true, q)) × At q ts
unfolding accept current
accept_yes p t ts (e, d) =
    let (g, _) = get_elem?-drop p.pos p.tokens t ts d in
    let (q, h, a) = advance_lem p t ts (e, d) in
    (q, rw (g, (str_eq_iff t t).1 refl, h, accept) refl, a)

pub accept_no :
    (p : Parser) (token : String) (ts : List String)
    → At p ts
    → starts ts token ≡ false
    → accept token p ≡ (false, p)
unfolding accept current
accept_no p token [] (e, d) s = rw (get_elem?-end p.pos p.tokens d, accept) refl
accept_no p token (t ∷ ts) (e, d) s = rw ((get_elem?-drop p.pos p.tokens t ts d).0, s, accept) refl
