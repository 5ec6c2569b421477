-- ===== src/Hashmap/Filled.antt =====
-- The maps of pkg/types/hashmap fill what pkg/capture/flow.go asks of its aggregation map.
use native.Mathlib.Nat.{mod-lt}
use native.Mathlib.Decide.{dec_le}
use native.Mathlib.Bridge.{le_prop}
use mathlib.Core.Logic.{dite, dif_pos}
use go_probe.Common.{
  ℕ, ◌%◌, ◌≤◌, ◌≡◌, ◌≢◌, ◌⊎◌, refl, sym, ap, ◌∙◌, Bool, true, false, Option, Option-cases, none,
  some, ◌>>=◌, arith, length, inl, inr, get_elem?-within,
}
use go_probe.Common.Bytes.{Bytes}
use go_probe.Types.Counters.{Counters}
use go_probe.Types.Key.{Key}
use go_probe.Capture.FlowLog.Rotate.{joined}
use go_probe.Capture.FlowLog.Rotate as Rotate
use go_probe.Hashmap.Table.{Map, with_buckets, new_hint}
use go_probe.Hashmap.Access.{get, set_or_update}
use go_probe.Hashmap.Valid.{IsTable, hash_of, search}
use go_probe.Hashmap.Evacuating.{search-growing, search-settled}
use go_probe.Hashmap.Working.{IsGrown-IsOld}
use go_probe.Hashmap.Updates.{set_or_update-Writes}
use go_probe.Hashmap.Map.{IsValid, Represents, get-with_buckets}
use go_probe.Hashmap.Aggregate.{AggFlowMap, agg_set_or_update}
use go_probe.Hashmap.Fresh.{new_hint-IsValid, new_hint-Represents, new_hint_fields}
use go_probe.Capture.FlowLog.Rotate.{rotate}
use go_probe.Capture.FlowLog.Rotate.Correct.{AllArrays, sum_for, retained, active}
use go_probe.Capture.FlowLog.Rotate.Refine.{rotate-Refines}
use go_probe.Capture.FlowLog.Totals.{total}
use go_probe.Capture.FlowLog.{FlowLog}

module _ (hash_seed : Bytes → ℕ → ℕ) where
  -- A search in a table does not panic.
  search_total :
      (m : Map) (key : Bytes)
      → IsTable hash_seed m
      → (o : Option Counters) × (search hash_seed m key ≡ some o)
  search_total m key t =
      let hash = hash_of hash_seed m key in
      let (b, at_b) =
        get_elem?-within m.buckets (hash % length m.buckets) (mod-lt hash t.some_buckets) in
      elim (Option-cases m.old_buckets) [
        | inl settled ↦ (_, search-settled hash_seed m key b settled at_b)
        | inr (old, e) ↦
            let grown = IsGrown-IsOld hash_seed old t e in
            let (v, at_v) =
              get_elem?-within old (hash % length old)
                (mod-lt hash (omega (arith, grown.started))) in
            (_, search-growing hash_seed m old key b v e t.doubling grown.half at_b at_v)
      ]

  -- A map in order that takes keys of up to 65,536 bytes.
  pub record Held : Type 0 where
    pub table : Map
    pub valid : IsValid hash_seed table
    pub room : 65536 ≤ table.key_data_len

  abbrev answer : Option (Option Counters) → Option Counters
  answer none = none
  answer (some o) = o

  look : Held → Bytes → Option Counters
  look h key = answer (get hash_seed h.table key)

  look-Represents : (h : Held) → Represents hash_seed h.table (look h)
  unfolding look
  look-Represents h key =
      let (o, e) = search_total (with_buckets h.table) key h.valid in
      let g = get-with_buckets hash_seed h.table key h.valid ∙ e in g ∙ ap some (sym (ap answer g))

  abbrev Puts : Held → Bytes → Counters → Type 0
  Puts h key c =
      (n : Held) × (set_or_update hash_seed h.table key c ≡ some n.table)
      × (look n key ≡ some (joined (look h key) c))
      × ((q : Bytes) → q ≢ key → look n q ≡ look h q)

  put_held : (h : Held) (key : Bytes) (c : Counters) → length key ≤ 65536 → Puts h key c
  unfolding look
  put_held h key c short =
      let (n, run, valid, here, others, _, len) =
        set_or_update-Writes hash_seed h.table (look h) key c h.valid (look-Represents h)
          (omega (arith, h.room)) in
      (
        record { table = n; valid = valid; room = omega (arith, len, h.room) },
        run,
        ap answer here,
        λ q d. ap answer (others q d),
      )

  put : Held → Bytes → Counters → Held
  put h key c = dite (dec_le (length key) 65536) (λ s. (put_held h key c s).0) (λ _. h)

  put-put_held :
      (h : Held) (key : Bytes) (c : Counters) (s : length key ≤ 65536)
      → put h key c ≡ (put_held h key c s).0
  unfolding put
  put-put_held h key c s = dif_pos (dec_le (length key) 65536) le_prop s _ _

  look-put :
      (h : Held) (key : Bytes) (c : Counters)
      → length key ≤ 65536
      → look (put h key c) key ≡ some (joined (look h key) c)
  look-put h key c s =
      ap (λ (n : Held). look n key) (put-put_held h key c s) ∙ (put_held h key c s).2

  look-put_other :
      (h : Held) (key : Bytes) (c : Counters) (q : Bytes)
      → length key ≤ 65536
      → q ≢ key
      → look (put h key c) q ≡ look h q
  look-put_other h key c q s d =
      ap (λ (n : Held). look n q) (put-put_held h key c s) ∙ (put_held h key c s).3 q d

  pub new_held : ℕ → Held
  new_held seed = record {
    table = new_hint seed 0;
    valid = new_hint-IsValid hash_seed seed 0;
    room = omega (arith, (new_hint_fields hash_seed seed 0).1);
  }

  look-new_held : (seed : ℕ) (key : Bytes) → look (new_held seed) key ≡ none
  unfolding look new_held
  look-new_held seed key = ap answer (new_hint-Represents hash_seed seed 0 key)

  -- `PrimaryMap` and `SecondaryMap`, and the choice between them.
  abbrev pub Both : Type 0
  Both = Held × Held

  pub put_both : Both → Key → Bool → Counters → Both
  put_both b k true c = (put b.0 k c, b.1)
  put_both b k false c = (b.0, put b.1 k c)

  pub look_both : Both → Key → Bool → Option Counters
  look_both b k true = look b.0 k
  look_both b k false = look b.1 k

  pub look_both-put_both :
      (b : Both) (k : Key) (v4 : Bool) (c : Counters)
      → length k ≤ 65536
      → look_both (put_both b k v4 c) k v4 ≡ some (joined (look_both b k v4) c)
  unfolding look_both put_both
  look_both-put_both b k true c s = look-put b.0 k c s
  look_both-put_both b k false c s = look-put b.1 k c s

  other_key : (k i : Key) (v : Bool) → (k ≢ i) ⊎ (v ≢ v) → i ≢ k
  other_key k i v (inl d) e = d (sym e)
  other_key k i v (inr d) e = d refl

  pub look_both-other :
      (b : Both) (k : Key) (v4 : Bool) (c : Counters) (i : Key) (w : Bool)
      → length k ≤ 65536
      → (k ≢ i) ⊎ (v4 ≢ w)
      → look_both (put_both b k v4 c) i w ≡ look_both b i w
  unfolding look_both put_both
  look_both-other b k true c i true s d = look-put_other b.0 k c i s (other_key k i true d)
  look_both-other b k true c i false s d = refl
  look_both-other b k false c i true s d = refl
  look_both-other b k false c i false s d = look-put_other b.1 k c i s (other_key k i false d)

  pub look_both-new :
      (seed seed₆ : ℕ) (k : Key) (v4 : Bool) → look_both (new_held seed, new_held seed₆) k v4 ≡ none
  unfolding look_both
  look_both-new seed seed₆ k true = look-new_held seed k
  look_both-new seed seed₆ k false = look-new_held seed₆ k

  maps_of : Both → AggFlowMap
  maps_of b = record { primary_map = b.0.table; secondary_map = b.1.table }

  -- It is SetOrUpdate of the pair of maps.
  agg_set_or_update-put_both :
      (b : Both) (k : Key) (v4 : Bool) (c : Counters)
      → length k ≤ 65536
      → agg_set_or_update hash_seed (maps_of b) k v4 c ≡ some (maps_of (put_both b k v4 c))
  unfolding agg_set_or_update maps_of put_both
  agg_set_or_update-put_both b k true c s =
      ap (λ (o : Option Map). o >>= λ m. some (record (maps_of b) { primary_map = m }))
        (put_held b.0 k c s).1
      ∙ ap (λ (n : Held). some (record (maps_of b) { primary_map = n.table }))
          (sym (put-put_held b.0 k c s))
  agg_set_or_update-put_both b k false c s =
      ap (λ (o : Option Map). o >>= λ m. some (record (maps_of b) { secondary_map = m }))
        (put_held b.1 k c s).1
      ∙ ap (λ (n : Held). some (record (maps_of b) { secondary_map = n.table }))
          (sym (put-put_held b.1 k c s))

  -- The interface that the flow log uses, with the seeds of the two maps.
  abbrev pub hash_maps : ℕ → ℕ → Rotate.AggFlowMap
  hash_maps seed seed₆ = record {
    Map = Both;
    new_map = (new_held seed, new_held seed₆);
    set_or_update = put_both;
    lookup = look_both;
    lookup-new_map = look_both-new seed seed₆;
    lookup-set_or_update = look_both-put_both;
    lookup-other = look_both-other;
  }

  -- Rotate on a log whose endpoint hashes have their widths, with the hash maps as aggregation map, does
  -- not panic: it keeps the sure flows with reset counts and returns the totals of the active flows, and
  -- Get on the map of each IP version gives for every key the sum of the flows of that key and version.
  pub rotate-get :
      (seed seed₆ : ℕ) (log : FlowLog)
      → AllArrays log
      → (agg : Both) × (rotate (hash_maps seed seed₆) log
          ≡ some (retained log, agg, total (active log)))
        × ((k : Key) → get hash_seed agg.0.table k ≡ some (sum_for k true log))
        × ((k : Key) → get hash_seed agg.1.table k ≡ some (sum_for k false log))
  unfolding look_both
  rotate-get seed seed₆ log a =
      let (agg, run, sums) = rotate-Refines (hash_maps seed seed₆) log a in
      (
        agg,
        run,
        λ k. look-Represents agg.0 k ∙ ap some (sums k true),
        λ k. look-Represents agg.1 k ∙ ap some (sums k false),
      )
