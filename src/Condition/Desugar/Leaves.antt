-- ===== src/Condition/Desugar/Leaves.antt =====
-- What the aliases and the attributes `host` and `net` mean.
use go_probe.Common.{
  ◌≡◌, refl, sym, ap, ◌∙◌, Bool, true, false, not, ◌&&◌, ◌||◌, String, arith, str_eq, if◌then◌else◌,
}
use go_probe.Condition.Outcome.{Outcome, ok, err, ◌>>=◌, bind-ok, ConditionError}
use go_probe.Condition.Node.{
  ConditionNode, Node, nil, condition, not_node, and_node, or_node, new_condition_node, transform,
}
use go_probe.Condition.Direction.Splits.{holds, ok-injective}
use go_probe.Condition.Desugar.{either_side, desugar_condition_node, desugar}

-- One of two conditions with equality holds, or, for any other operator, neither.
abbrev either : (ConditionNode → Bool) → String → String → ConditionNode → Bool
either p src dst c =
    let one = p (new_condition_node src "=" c.value) || p (new_condition_node dst "=" c.value) in
    if str_eq c.comparator "!=" then not one else one

-- The truth of a leaf, given that of the leaves on attributes of a flow.
abbrev pub sugar_holds : (ConditionNode → Bool) → ConditionNode → Bool
sugar_holds p c =
    if str_eq c.attribute "src"
    then p (record c { attribute = "sip" })
    else if str_eq c.attribute "dst"
    then p (record c { attribute = "dip" })
    else if str_eq c.attribute "port"
    then p (record c { attribute = "dport" })
    else if str_eq c.attribute "ipproto" || str_eq c.attribute "protocol"
    then p (record c { attribute = "proto" })
    else if str_eq c.attribute "host"
    then either p "sip" "dip" c
    else if str_eq c.attribute "net"
    then either p "snet" "dnet" c
    else p c

module _ (p : ConditionNode → Bool) where
  -- Where the outcome is a tree, the tree has this truth.
  Says : Bool → Outcome Node → Type 0
  Says b o = (m : Node) → o ≡ ok m → holds p m ≡ b

  Says-ok : (n : Node) → Says (holds p n) (ok n)
  unfolding Says
  Says-ok n m e = ap (holds p) (sym (ok-injective e))

  Says-if :
      (c b d : Bool) (o q : Outcome Node)
      → Says b o
      → Says d q
      → Says (if c then b else d) (if c then o else q)
  Says-if true b d o q s t = s
  Says-if false b d o q s t = t

  Says-guard :
      (c : Bool) (x : ConditionError) (b : Bool) (o : Outcome Node)
      → Says b o
      → Says b (if c then err x else o)
  unfolding Says
  Says-guard true x b o s m e = absurd (ground arith)
  Says-guard false x b o s m e = s m e

  Says-either_side :
      (src dst : String) (c : ConditionNode)
      → Says (either p src dst c) (either_side src dst c.comparator c.value)
  unfolding either_side
  Says-either_side src dst c =
      let result =
        or_node (condition (new_condition_node src "=" c.value))
          (condition (new_condition_node dst "=" c.value)) in
      Says-guard (not (str_eq c.comparator "=") && not (str_eq c.comparator "!=")) _
        (either p src dst c) _
        (Says-if (str_eq c.comparator "!=") _ _ _ _ (Says-ok (not_node result)) (Says-ok result))

  Says-desugar_condition_node :
      (c : ConditionNode) → Says (sugar_holds p c) (desugar_condition_node c)
  unfolding desugar_condition_node
  Says-desugar_condition_node c =
      Says-if (str_eq c.attribute "src") _ _ _ _
        (Says-ok (condition (record c { attribute = "sip" })))
        (Says-if (str_eq c.attribute "dst") _ _ _ _
          (Says-ok (condition (record c { attribute = "dip" })))
          (Says-if (str_eq c.attribute "port") _ _ _ _
            (Says-ok (condition (record c { attribute = "dport" })))
            (Says-if (str_eq c.attribute "ipproto" || str_eq c.attribute "protocol") _ _ _ _
              (Says-ok (condition (record c { attribute = "proto" })))
              (Says-if (str_eq c.attribute "host") _ _ _ _ (Says-either_side "sip" "dip" c) (
                Says-if (str_eq c.attribute "net") _ _ _ _ (Says-either_side "snet" "dnet" c)
                  (Says-ok (condition c)))))))

  -- Where desugaring succeeds, the desugared condition holds exactly where the condition does, whatever
  -- the leaves on attributes of a flow mean: an alias means the attribute that it stands for, and an
  -- equation on `host` or `net` means that the source or the destination satisfies it.
  pub desugar-holds : (n m : Node) → desugar n ≡ ok m → holds p m ≡ holds (sugar_holds p) n
  unfolding desugar transform Says
  desugar-holds nil m e = absurd (ground arith)
  desugar-holds (condition c) m e = Says-desugar_condition_node c m e
  desugar-holds (not_node n) m e =
      let (a, ea, em) = bind-ok (transform desugar_condition_node n) (λ k. ok (not_node k)) m e in
      ap (holds p) (sym (ok-injective em)) ∙ ap not (desugar-holds n a ea)
  desugar-holds (and_node l r) m e =
      let (a, ea, e₂) =
        bind-ok (transform desugar_condition_node l)
          (λ k. transform desugar_condition_node r >>= λ j. ok (and_node k j)) m e in
      let (b, eb, em) =
        bind-ok (transform desugar_condition_node r) (λ k. ok (and_node a k)) m e₂ in
      rw (sym (ok-injective em), desugar-holds l a ea, desugar-holds r b eb) refl
  desugar-holds (or_node l r) m e =
      let (a, ea, e₂) =
        bind-ok (transform desugar_condition_node l)
          (λ k. transform desugar_condition_node r >>= λ j. ok (or_node k j)) m e in
      let (b, eb, em) = bind-ok (transform desugar_condition_node r) (λ k. ok (or_node a k)) m e₂ in
      rw (sym (ok-injective em), desugar-holds l a ea, desugar-holds r b eb) refl
