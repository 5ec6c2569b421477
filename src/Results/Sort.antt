-- ===== src/Results/Sort.antt =====
-- pkg/results/sort.go: the orders by which the rows of a result are sorted. `none` is the panic of `By`.
-- Of a row its counters and its time stamp are used, and the method `Less`, which orders rows by their
-- labels and attributes and is known by its laws here.
use go_probe.Common.{
  ℕ, ◌<◌, ◌≡◌, ◌≢◌, ◌⊎◌, refl, ap, Bool, true, false, not, Option, none, some, String, ltb, ◌==◌,
  if◌then◌else◌, ◌>>=◌, str_eq, arith,
}
use go_probe.Types.Counters.{Counters, add_u64}
use go_probe.Types.Direction.{
  Direction, direction_unknown, direction_sum, direction_in, direction_out, direction_both,
}

pub data SortOrder : Type 0 where
  sort_unknown sort_packets sort_traffic sort_time : SortOrder

unfoldable pub to_string : SortOrder → String
to_string sort_packets = "packets"
to_string sort_traffic = "bytes"
to_string sort_time = "time"
to_string sort_unknown = "unknown"

unfoldable pub sort_order_from_string : String → SortOrder
sort_order_from_string s =
    if str_eq s "packets"
    then sort_packets
    else if str_eq s "bytes"
    then sort_traffic
    else if str_eq s "time"
    then sort_time
    else sort_unknown

-- Rows with their counters, their time stamp as a number, and their order `Less`.
pub record Rows : Type 1 where
  pub Row : Type 0
  pub counters : Row → Counters
  pub timestamp : Row → ℕ
  pub less : Row → Row → Bool
  pub less_irreflexive : (a : Row) → less a a ≡ false
  pub less_transitive : (a b c : Row) → less a b ≡ true → less b c ≡ true → less a c ≡ true

module _ (rows : Rows) where
  abbrev pub Value : Type 0
  Value = rows.Row → ℕ

  -- The number that two rows are compared by first.
  unfoldable pub sort_value : SortOrder → Direction → Option Value
  sort_value sort_packets direction_both =
      some (λ e. add_u64 (rows.counters e).packets_sent (rows.counters e).packets_rcvd)
  sort_value sort_packets direction_sum =
      some (λ e. add_u64 (rows.counters e).packets_sent (rows.counters e).packets_rcvd)
  sort_value sort_packets direction_in = some (λ e. (rows.counters e).packets_rcvd)
  sort_value sort_packets direction_out = some (λ e. (rows.counters e).packets_sent)
  sort_value sort_traffic direction_both =
      some (λ e. add_u64 (rows.counters e).bytes_sent (rows.counters e).bytes_rcvd)
  sort_value sort_traffic direction_sum =
      some (λ e. add_u64 (rows.counters e).bytes_sent (rows.counters e).bytes_rcvd)
  sort_value sort_traffic direction_in = some (λ e. (rows.counters e).bytes_rcvd)
  sort_value sort_traffic direction_out = some (λ e. (rows.counters e).bytes_sent)
  sort_value sort_time _ = some rows.timestamp
  sort_value _ _ = none

  -- The closure for a number: rows that agree in it are ordered by `Less`.
  unfoldable pub by_value : Value → Bool → rows.Row → rows.Row → Bool
  by_value value true e₁ e₂ =
      if value e₁ == value e₂ then rows.less e₁ e₂ else ltb (value e₁) (value e₂)
  by_value value false e₁ e₂ =
      if value e₁ == value e₂ then rows.less e₂ e₁ else ltb (value e₂) (value e₁)

  unfoldable pub by : SortOrder → Direction → Bool → Option (rows.Row → rows.Row → Bool)
  by sort direction ascending =
      sort_value sort direction >>= λ value. some (by_value value ascending)

  by_value-irreflexive :
      (value : Value) (ascending : Bool) (a : rows.Row) → by_value value ascending a a ≡ false
  unfolding by_value
  by_value-irreflexive value true a = ground (arith, rows.less_irreflexive a)
  by_value-irreflexive value false a = ground (arith, rows.less_irreflexive a)

  by_value-transitive :
      (value : Value) (ascending : Bool) (a b c : rows.Row)
      → by_value value ascending a b ≡ true
      → by_value value ascending b c ≡ true
      → by_value value ascending a c ≡ true
  unfolding by_value
  by_value-transitive value true a b c h g = ground (arith, rows.less_transitive a b c)
  by_value-transitive value false a b c h g = ground (arith, rows.less_transitive c b a)

  abbrev pub IsStrictOrder : (rows.Row → rows.Row → Bool) → Type 0
  IsStrictOrder less =
      ((a : rows.Row) → less a a ≡ false)
      × ((a b c : rows.Row) → less a b ≡ true → less b c ≡ true → less a c ≡ true)

  -- What counts for a direction.
  abbrev pub amount : Direction → ℕ → ℕ → ℕ
  amount direction_in sent rcvd = rcvd
  amount direction_out sent rcvd = sent
  amount _ sent rcvd = add_u64 sent rcvd

  -- The number that rows are sorted by.
  abbrev pub number_of : SortOrder → Direction → rows.Row → ℕ
  number_of sort_packets d e =
      amount d (rows.counters e).packets_sent (rows.counters e).packets_rcvd
  number_of sort_traffic d e = amount d (rows.counters e).bytes_sent (rows.counters e).bytes_rcvd
  number_of sort_time d e = rows.timestamp e
  number_of sort_unknown d e = 0

  -- An order by a number, and by `Less` where the numbers are equal.
  pub record SortsBy (number : Value) (ascending : Bool) (less : rows.Row → rows.Row → Bool)
      : Type 0 where
    pub strict : IsStrictOrder less
    pub smaller :
        (a b : rows.Row) → number a < number b → (less a b ≡ ascending) × (less b a ≡ not ascending)
    pub equal :
        (a b : rows.Row)
        → number a ≡ number b
        → less a b ≡ (if ascending then rows.less a b else rows.less b a)

  by_value-SortsBy :
      (value : Value) (ascending : Bool) → SortsBy value ascending (by_value value ascending)
  unfolding by_value
  by_value-SortsBy value true = record {
    strict = (by_value-irreflexive value true, by_value-transitive value true);
    smaller = λ a b l. (ground arith, ground arith);
    equal = λ a b e. ground arith;
  }
  by_value-SortsBy value false = record {
    strict = (by_value-irreflexive value false, by_value-transitive value false);
    smaller = λ a b l. (ground arith, ground arith);
    equal = λ a b e. ground arith;
  }

  sort_value-number_of :
      (sort : SortOrder) (direction : Direction)
      → sort ≢ sort_unknown
      → (direction ≢ direction_unknown) ⊎ (sort ≡ sort_time)
      → sort_value sort direction ≡ some (number_of sort direction)
  unfolding sort_value
  sort_value-number_of sort_unknown _ k d = absurd (k refl)
  sort_value-number_of sort_time _ k d = refl
  sort_value-number_of sort_packets direction_unknown k d = absurd (ground arith)
  sort_value-number_of sort_packets direction_sum k d = refl
  sort_value-number_of sort_packets direction_in k d = refl
  sort_value-number_of sort_packets direction_out k d = refl
  sort_value-number_of sort_packets direction_both k d = refl
  sort_value-number_of sort_traffic direction_unknown k d = absurd (ground arith)
  sort_value-number_of sort_traffic direction_sum k d = refl
  sort_value-number_of sort_traffic direction_in k d = refl
  sort_value-number_of sort_traffic direction_out k d = refl
  sort_value-number_of sort_traffic direction_both k d = refl

  -- `By` does not panic for a known sort order and, unless it is the time, a known direction. The order
  -- that it returns is irreflexive and transitive where `Less` is so; of two rows the one with fewer
  -- packets or bytes in the direction, or the earlier one, comes first in ascending and last in
  -- descending order, and rows with equal numbers are ordered by `Less`, the other way round in
  -- descending order. The numbers of both ways are added for the sum and for both directions, with
  -- the wrap-around of 64 bits.
  pub by-SortsBy :
      (sort : SortOrder) (direction : Direction) (ascending : Bool)
      → sort ≢ sort_unknown
      → (direction ≢ direction_unknown) ⊎ (sort ≡ sort_time)
      → (less : rows.Row → rows.Row → Bool) × (by sort direction ascending ≡ some less)
        × SortsBy (number_of sort direction) ascending less
  unfolding by
  by-SortsBy sort direction ascending k d = (
    by_value (number_of sort direction) ascending,
    ap (λ (o : Option Value). o >>= λ value. some (by_value value ascending))
        (sort_value-number_of sort direction k d),
    by_value-SortsBy (number_of sort direction) ascending,
  )
