-- ===== src/Results/Rows.antt =====
-- The rows of a result and their order, of pkg/results/result.go. Times, strings and IP addresses (the
-- library's time.Time and netip.Addr) are known by their equality and their order.
use go_probe.Common.{
  ℕ, ◌<◌, ◌≡◌, ◌⊎◌, inl, inr, subst, Bool-cases, ◌↔◌, Bool, true, false, ◌&&◌, ltb, ◌==◌,
  if◌then◌else◌, arith,
}
use go_probe.Types.Counters.{Counters}
use go_probe.Results.Sort.{Rows}

-- An equality test and an order that sorting can use.
pub record Order (A : Type 0) : Type 0 where
  pub same : A → A → Bool
  pub before : A → A → Bool
  pub same_iff : (a b : A) → (same a b ≡ true) ↔ (a ≡ b)
  pub before_irreflexive : (a : A) → before a a ≡ false
  pub before_transitive : (a b c : A) → before a b ≡ true → before b c ≡ true → before a c ≡ true

pub number_order : Order ℕ
number_order = record {
  same = λ a b. a == b;
  before = ltb;
  same_iff = λ a b. ground arith;
  before_irreflexive = λ a. ground arith;
  before_transitive = λ a b c h g. ground arith;
}

-- if a.Key != a2.Key { return a.Key < a2.Key }, and the rest behind it.
unfoldable pub then_by : {A K : Type 0} → Order K → (A → K) → (A → A → Bool) → A → A → Bool
then_by o key rest a b = if o.same (key a) (key b) then rest a b else o.before (key a) (key b)

module _ {A K : Type 0} (o : Order K) (key : A → K) (rest : A → A → Bool) where
  pub then_by-irreflexive : ((a : A) → rest a a ≡ false) → (a : A) → then_by o key rest a a ≡ false
  unfolding then_by
  then_by-irreflexive h a = ground (arith, h a, o.before_irreflexive (key a))

  pub then_by-transitive :
      ((a b c : A) → rest a b ≡ true → rest b c ≡ true → rest a c ≡ true)
      → (a b c : A) → then_by o key rest a b ≡ true
      → then_by o key rest b c ≡ true
      → then_by o key rest a c ≡ true
  unfolding then_by
  then_by-transitive t a b c h g = ground (
    arith,
    o.same_iff (key a) (key b),
    o.same_iff (key b) (key c),
    o.same_iff (key a) (key c),
    o.before_transitive (key a) (key b) (key c),
    o.before_irreflexive (key a),
    t a b c,
  )

-- One key comes first, or the keys are equal and what is behind them decides.
abbrev pub Lex : {A K : Type 0} → Order K → (A → K) → (A → A → Type 0) → A → A → Type 0
Lex o key Rest a b = (o.before (key a) (key b) ≡ true) ⊎ ((key a ≡ key b) × Rest a b)

then_by-Lex :
    {A K : Type 0} (o : Order K) (key : A → K) (rest : A → A → Bool) (Rest : A → A → Type 0)
    → ((a b : A) → (rest a b ≡ true) ↔ Rest a b)
    → (a b : A) → (then_by o key rest a b ≡ true) ↔ Lex o key Rest a b
unfolding then_by
then_by-Lex o key rest Rest r a b = elim (Bool-cases (o.same (key a) (key b))) [
  | inl e ↦
      let same = (o.same_iff (key a) (key b)).0 e in
      (
        λ t. inr (same, (r a b).0 (ground arith)),
        λ l. rw e (elim l [
          | inl before ↦ absurd (
              ground (
                arith,
                o.before_irreflexive (key b),
                subst (λ k. o.before k (key b) ≡ true) same before,
              ))
          | inr (_, later) ↦ (r a b).1 later
        ]),
      )
  | inr e ↦ (
    λ t. inl (ground arith),
    λ l. rw e (elim l [
      | inl before ↦ before
      | inr (same, _) ↦ absurd (ground (arith, (o.same_iff (key a) (key b)).1 same))
    ]),
  )
]

module _ (Addr Text Time : Type 0) where
  pub record Attributes : Type 0 where
    pub src_ip : Addr
    pub dst_ip : Addr
    pub ip_proto : ℕ
    pub dst_port : ℕ

  pub record Labels : Type 0 where
    pub time : Time
    pub iface : Text
    pub hostname : Text
    pub host_id : Text

  pub record Row : Type 0 where
    pub labels : Labels
    pub attributes : Attributes
    pub counters : Counters

  -- The fields of a row by which rows are merged.
  pub record MergeableAttributes : Type 0 where
    pub labels_key : Labels
    pub attributes_key : Attributes

module _ {Addr Text Time : Type 0} (addr : Order Addr) (text : Order Text) (time : Order Time) where
  -- a == b, for attributes and for labels.
  unfoldable pub same_attributes : Attributes Addr Text Time → Attributes Addr Text Time → Bool
  same_attributes a b =
      addr.same a.src_ip b.src_ip
      && (addr.same a.dst_ip b.dst_ip && (a.ip_proto == b.ip_proto && a.dst_port == b.dst_port))

  unfoldable pub same_labels : Labels Addr Text Time → Labels Addr Text Time → Bool
  same_labels a b =
      time.same a.time b.time
      && (text.same a.iface b.iface
          && (text.same a.hostname b.hostname && text.same a.host_id b.host_id))

  unfoldable pub attributes_less : Attributes Addr Text Time → Attributes Addr Text Time → Bool
  attributes_less =
      then_by addr (λ a. a.src_ip)
        (then_by addr (λ a. a.dst_ip)
          (then_by number_order (λ a. a.ip_proto) (λ a b. ltb a.dst_port b.dst_port)))

  unfoldable pub labels_less : Labels Addr Text Time → Labels Addr Text Time → Bool
  labels_less =
      then_by time (λ l. l.time)
        (then_by text (λ l. l.hostname) (λ a b. text.before a.iface b.iface))

  unfoldable pub row_less : Row Addr Text Time → Row Addr Text Time → Bool
  row_less r₁ r₂ =
      if same_attributes r₁.attributes r₂.attributes
      then labels_less r₁.labels r₂.labels
      else attributes_less r₁.attributes r₂.attributes

  attributes_less-irreflexive : (a : Attributes Addr Text Time) → attributes_less a a ≡ false
  unfolding attributes_less
  attributes_less-irreflexive =
      then_by-irreflexive addr (λ a. a.src_ip) _
        (then_by-irreflexive addr (λ a. a.dst_ip) _
          (then_by-irreflexive number_order (λ a. a.ip_proto) _ (λ a. ground arith)))

  attributes_less-transitive :
      (a b c : Attributes Addr Text Time)
      → attributes_less a b ≡ true
      → attributes_less b c ≡ true
      → attributes_less a c ≡ true
  unfolding attributes_less
  attributes_less-transitive =
      then_by-transitive addr (λ a. a.src_ip) _
        (then_by-transitive addr (λ a. a.dst_ip) _
          (then_by-transitive number_order (λ a. a.ip_proto) _ (λ a b c h g. ground arith)))

  pub same_attributes_iff :
      (a b : Attributes Addr Text Time) → (same_attributes a b ≡ true) ↔ (a ≡ b)
  unfolding same_attributes
  same_attributes_iff a b =
      ground (arith, addr.same_iff a.src_ip b.src_ip, addr.same_iff a.dst_ip b.dst_ip)

  pub same_labels_iff : (a b : Labels Addr Text Time) → (same_labels a b ≡ true) ↔ (a ≡ b)
  unfolding same_labels
  same_labels_iff a b = ground (
    arith,
    time.same_iff a.time b.time,
    text.same_iff a.iface b.iface,
    text.same_iff a.hostname b.hostname,
    text.same_iff a.host_id b.host_id,
  )

  -- The attributes with their order.
  abbrev attributes_order : Order (Attributes Addr Text Time)
  attributes_order = record {
    same = same_attributes;
    before = attributes_less;
    same_iff = same_attributes_iff;
    before_irreflexive = attributes_less-irreflexive;
    before_transitive = attributes_less-transitive;
  }

  labels_less-irreflexive : (a : Labels Addr Text Time) → labels_less a a ≡ false
  unfolding labels_less
  labels_less-irreflexive =
      then_by-irreflexive time (λ l. l.time) _
        (then_by-irreflexive text (λ l. l.hostname) _ (λ l. text.before_irreflexive l.iface))

  labels_less-transitive :
      (a b c : Labels Addr Text Time)
      → labels_less a b ≡ true
      → labels_less b c ≡ true
      → labels_less a c ≡ true
  unfolding labels_less
  labels_less-transitive =
      then_by-transitive time (λ l. l.time) _
        (then_by-transitive text (λ l. l.hostname) _
          (λ a b c. text.before_transitive a.iface b.iface c.iface))

  abbrev pub AttributesPrecede : Attributes Addr Text Time → Attributes Addr Text Time → Type 0
  AttributesPrecede =
      Lex addr (λ a. a.src_ip)
        (Lex addr (λ a. a.dst_ip)
          (Lex number_order (λ a. a.ip_proto) (λ a b. a.dst_port < b.dst_port)))

  abbrev pub LabelsPrecede : Labels Addr Text Time → Labels Addr Text Time → Type 0
  LabelsPrecede =
      Lex time (λ l. l.time)
        (Lex text (λ l. l.hostname) (λ a b. text.before a.iface b.iface ≡ true))

  attributes_less-AttributesPrecede :
      (a b : Attributes Addr Text Time) → (attributes_less a b ≡ true) ↔ AttributesPrecede a b
  unfolding attributes_less
  attributes_less-AttributesPrecede =
      then_by-Lex addr (λ a. a.src_ip) _ _
        (then_by-Lex addr (λ a. a.dst_ip) _ _
          (then_by-Lex number_order (λ a. a.ip_proto) _ _ (λ a b. ground arith)))

  labels_less-LabelsPrecede :
      (a b : Labels Addr Text Time) → (labels_less a b ≡ true) ↔ LabelsPrecede a b
  unfolding labels_less
  labels_less-LabelsPrecede =
      then_by-Lex time (λ l. l.time) _ _
        (then_by-Lex text (λ l. l.hostname) _ _ (λ a b. (λ t. t, λ t. t)))

  pub row_less-IsStrict :
      ((a : Row Addr Text Time) → row_less a a ≡ false)
      × ((a b c : Row Addr Text Time)
          → row_less a b ≡ true
          → row_less b c ≡ true
          → row_less a c ≡ true)
  unfolding row_less then_by
  row_less-IsStrict = (
    then_by-irreflexive attributes_order (λ (r : Row Addr Text Time). r.attributes)
        (λ r s. labels_less r.labels s.labels) (λ r. labels_less-irreflexive r.labels),
    then_by-transitive attributes_order (λ (r : Row Addr Text Time). r.attributes)
        (λ r s. labels_less r.labels s.labels)
        (λ a b c. labels_less-transitive a.labels b.labels c.labels),
  )

  -- `Less` of rows is irreflexive and transitive, and says of two rows that the first precedes the
  -- second exactly where its attributes come first, in the order of source address, destination
  -- address, protocol and destination port, or the attributes are equal and its labels come first, in
  -- the order of time, host name and interface; the host's id is of no account.
  pub row_less-Precedes :
      ((a : Row Addr Text Time) → row_less a a ≡ false)
      × ((a b c : Row Addr Text Time)
          → row_less a b ≡ true
          → row_less b c ≡ true
          → row_less a c ≡ true)
      × ((a b : Row Addr Text Time)
          → (row_less a b ≡ true) ↔ (
              AttributesPrecede a.attributes b.attributes
              ⊎ ((a.attributes ≡ b.attributes) × LabelsPrecede a.labels b.labels)))
  unfolding row_less then_by
  row_less-Precedes = (
    row_less-IsStrict.0,
    row_less-IsStrict.1,
    λ a b.
        let lex =
          then_by-Lex attributes_order (λ (r : Row Addr Text Time). r.attributes)
            (λ r s. labels_less r.labels s.labels) (λ r s. LabelsPrecede r.labels s.labels)
            (λ r s. labels_less-LabelsPrecede r.labels s.labels) a b in
        let first = attributes_less-AttributesPrecede a.attributes b.attributes in
        (
          λ t. elim (lex.0 t) [ inl p ↦ inl (first.0 p) | inr q ↦ inr q ],
          λ p. lex.1 (elim p [ inl p ↦ inl (first.1 p) | inr q ↦ inr q ]),
        ),
  )

  -- What the orders of `By` need to know of rows; a time is compared by its number.
  pub row_interface : (Time → ℕ) → Rows
  row_interface unix = record {
    Row = Row Addr Text Time;
    counters = λ r. r.counters;
    timestamp = λ r. unix r.labels.time;
    less = row_less;
    less_irreflexive = row_less-IsStrict.0;
    less_transitive = row_less-IsStrict.1;
  }
