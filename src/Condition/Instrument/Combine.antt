-- ===== src/Condition/Instrument/Combine.antt =====
-- What two trees with opposite or equal answers make of the nodes above them: the laws of De Morgan for
-- evaluation from left to right, with errors and panics.
use go_probe.Common.{
  ◌≡◌, refl, sym, ◌∙◌, none, some, Bool, true, false, not, if◌then◌else◌, ◌>>=◌, fun_ext,
}
use go_probe.Types.Key.{Key}
use go_probe.Condition.Outcome as Outcome
use go_probe.Condition.Outcome.{Outcome, ok, err, panic, or_panic}
use go_probe.Condition.Node.{Node, not_node, and_node, or_node, evaluate}
use go_probe.Condition.Instrument.Negation.{Answer, flip, flip-flip}

abbrev pub flip_if : Bool → Answer → Answer
flip_if true o = flip o
flip_if false o = o

-- The second tree is built exactly if the first is, and answers the same, or the opposite under `b`.
abbrev pub Means : Bool → Outcome Node → Outcome Node → Type 0
Means b (ok m) (ok m') = (k : Key) → evaluate m' k ≡ flip_if b (evaluate m k)
Means b (err e) (err e') = e ≡ e'
Means b panic panic = Unit {0}
Means b _ _ = ⊥

pub Means-refl : (x : Outcome Node) → Means false x x
Means-refl (ok m) = λ k. refl
Means-refl (err e) = refl
Means-refl panic = tt

-- The two steps of `transform` at a node with two children.
abbrev pub combine : (Node → Node → Node) → Outcome Node → Outcome Node → Outcome Node
combine con x y = Outcome.◌>>=◌ x λ l. Outcome.◌>>=◌ y λ r. ok (con l r)

module _ (b : Bool) (con con' : Node → Node → Node)
    (step : (l l' r r' : Node)
      → ((k : Key) → evaluate l' k ≡ flip_if b (evaluate l k))
      → ((k : Key) → evaluate r' k ≡ flip_if b (evaluate r k))
      → (k : Key) → evaluate (con' l' r') k ≡ flip_if b (evaluate (con l r) k)) where
  pub combine-Means :
      (x x' y y' : Outcome Node)
      → Means b x x'
      → Means b y y'
      → Means b (combine con x y) (combine con' x' y')
  combine-Means (ok l) (ok l') (ok r) (ok r') h g = step l l' r r' h g
  combine-Means (ok l) (ok l') (err e) (err e') h g = g
  combine-Means (ok l) (ok l') panic panic h g = tt
  combine-Means (err e) (err e') y y' h g = h
  combine-Means panic panic y y' h g = tt
  combine-Means (ok l) (ok l') (ok r) (err e) h g = absurd g
  combine-Means (ok l) (ok l') (ok r) panic h g = absurd g
  combine-Means (ok l) (ok l') (err e) (ok r) h g = absurd g
  combine-Means (ok l) (ok l') (err e) panic h g = absurd g
  combine-Means (ok l) (ok l') panic (ok r) h g = absurd g
  combine-Means (ok l) (ok l') panic (err e) h g = absurd g
  combine-Means (ok l) (err e) y y' h g = absurd h
  combine-Means (ok l) panic y y' h g = absurd h
  combine-Means (err e) (ok l) y y' h g = absurd h
  combine-Means (err e) panic y y' h g = absurd h
  combine-Means panic (ok l) y y' h g = absurd h
  combine-Means panic (err e) y y' h g = absurd h

module _ (l l' r r' : Node) where
  pub and_to_or :
      ((k : Key) → evaluate l' k ≡ flip (evaluate l k))
      → ((k : Key) → evaluate r' k ≡ flip (evaluate r k))
      → (k : Key) → evaluate (or_node l' r') k ≡ flip (evaluate (and_node l r) k)
  unfolding evaluate
  and_to_or h g k = rw (h k) (go (evaluate l k))
    where
      go :
          (o : Answer)
          → (flip o >>= λ (b, k'). if b then some (true, k') else evaluate r' k')
            ≡ flip (o >>= λ (b, k'). if b then evaluate r k' else some (false, k'))
      go none = refl
      go (some (true, k')) = g k'
      go (some (false, k')) = refl

  pub or_to_and :
      ((k : Key) → evaluate l' k ≡ flip (evaluate l k))
      → ((k : Key) → evaluate r' k ≡ flip (evaluate r k))
      → (k : Key) → evaluate (and_node l' r') k ≡ flip (evaluate (or_node l r) k)
  unfolding evaluate
  or_to_and h g k = rw (h k) (go (evaluate l k))
    where
      go :
          (o : Answer)
          → (flip o >>= λ (b, k'). if b then evaluate r' k' else some (false, k'))
            ≡ flip (o >>= λ (b, k'). if b then some (true, k') else evaluate r k')
      go none = refl
      go (some (true, k')) = refl
      go (some (false, k')) = g k'

  pub and_to_and :
      ((k : Key) → evaluate l' k ≡ evaluate l k)
      → ((k : Key) → evaluate r' k ≡ evaluate r k)
      → (k : Key) → evaluate (and_node l' r') k ≡ evaluate (and_node l r) k
  unfolding evaluate
  and_to_and h g k = rw (h k, fun_ext g)

  pub or_to_or :
      ((k : Key) → evaluate l' k ≡ evaluate l k)
      → ((k : Key) → evaluate r' k ≡ evaluate r k)
      → (k : Key) → evaluate (or_node l' r') k ≡ evaluate (or_node l r) k
  unfolding evaluate
  or_to_or h g k = rw (h k, fun_ext g)

pub not-Means :
    (b : Bool) (x x' : Outcome Node)
    → Means (not b) x x'
    → Means b (Outcome.◌>>=◌ x λ m. ok (not_node m)) x'
unfolding evaluate
not-Means true (ok m) (ok m') h = λ k. h k ∙ sym (flip-flip (evaluate m k))
not-Means false (ok m) (ok m') h = h
not-Means true (err e) (err e') h = h
not-Means false (err e) (err e') h = h
not-Means true panic panic h = tt
not-Means false panic panic h = tt
not-Means b (ok m) (err e) h = absurd h
not-Means b (ok m) panic h = absurd h
not-Means b (err e) (ok m) h = absurd h
not-Means b (err e) panic h = absurd h
not-Means b panic (ok m) h = absurd h
not-Means b panic (err e) h = absurd h
