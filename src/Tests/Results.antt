-- ===== src/Tests/Results.antt =====
-- Runs of the definitions of pkg/results on rows without labels.
use go_probe.Common.{
  ℕ, ◌+◌, List, [], ◌∷◌, length, ◌≡◌, ◌⊎◌, ◌↔◌, inl, arith, Bool, true, false, some,
}
use go_probe.Types.Direction.{direction_in}
use go_probe.Results.Sort.{Rows, sort_traffic, by, SortsBy, number_of, by-SortsBy}
use go_probe.Results.Rows.{
  Row, number_order, row_less, row_less-Precedes, AttributesPrecede, LabelsPrecede, row_interface,
}
use go_probe.Results.Merge.{Key, find, merge_rows, plus, sum_of, merge_rows-find}

-- Addresses, strings and times are numbers in these runs.
abbrev row : ℕ → ℕ → Row ℕ ℕ ℕ
row dst_port packets_sent = record {
  labels = record { time = 300; iface = 0; hostname = 1; host_id = 2 };
  attributes = record { src_ip = 10; dst_ip = 20; ip_proto = 6; dst_port = dst_port };
  counters = record {
    bytes_rcvd = 0;
    bytes_sent = 60;
    packets_rcvd = 0;
    packets_sent = packets_sent;
  };
}

abbrev three_rows : List (Row ℕ ℕ ℕ)
three_rows = row 80 1 ∷ row 443 2 ∷ row 80 4 ∷ []

abbrev web : Key number_order number_order number_order
web = record { labels_key = (row 80 1).labels; attributes_key = (row 80 1).attributes }

row_less-Precedes_example :
    ((a : Row ℕ ℕ ℕ) → row_less number_order number_order number_order a a ≡ false)
    × ((a b c : Row ℕ ℕ ℕ)
        → row_less number_order number_order number_order a b ≡ true
        → row_less number_order number_order number_order b c ≡ true
        → row_less number_order number_order number_order a c ≡ true)
    × ((a b : Row ℕ ℕ ℕ)
        → (row_less number_order number_order number_order a b ≡ true) ↔ (
            AttributesPrecede number_order number_order number_order a.attributes b.attributes
            ⊎ ((a.attributes ≡ b.attributes)
                × LabelsPrecede number_order number_order number_order a.labels b.labels)))
row_less-Precedes_example = row_less-Precedes number_order number_order number_order

-- The rows with their order, and their times as numbers.
abbrev rows : Rows
rows = row_interface number_order number_order number_order (λ t. t)

by-SortsBy_example :
    (less : rows.Row → rows.Row → Bool) × (by rows sort_traffic direction_in false ≡ some less)
    × SortsBy rows (number_of rows sort_traffic direction_in) false less
by-SortsBy_example =
    by-SortsBy rows sort_traffic direction_in false (λ e. ground arith) (inl (λ e. ground arith))

merge_rows-find_example :
    (find number_order number_order number_order
        (merge_rows number_order number_order number_order [] three_rows).0
        web
      ≡ plus number_order number_order number_order
          (find number_order number_order number_order [] web)
          (sum_of number_order number_order number_order three_rows web))
    × (length (merge_rows number_order number_order number_order [] three_rows).0
          + (merge_rows number_order number_order number_order [] three_rows).1
        ≡ 0 + 3)
merge_rows-find_example = merge_rows-find number_order number_order number_order [] three_rows web
