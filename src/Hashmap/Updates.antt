-- ===== src/Hashmap/Updates.antt =====
-- What Set and SetOrUpdate of pkg/types/hashmap/hashmap.go do to the map as its users see it.

use go_probe.Common.{ℕ, ◌+◌, ◌≤◌, ◌≡◌, ◌≢◌, refl, ap, ◌∙◌, Option, none, some, length}
use go_probe.Common.Bytes.{Bytes}
use go_probe.Types.Counters.{Counters, add}
use go_probe.Capture.FlowLog.Rotate.{joined}
use go_probe.Hashmap.Table.{Map}
use go_probe.Hashmap.Access.{get, set_entry, set_val, set_or_update}
use go_probe.Hashmap.Setting.{put_value, new_keys}
use go_probe.Hashmap.Map.{IsValid, Represents, set_entry-Writes}

module _ (hash_seed : Bytes → ℕ → ℕ) where
  pub set_or_update-entry :
      (m : Map) (key : Bytes) (c : Counters)
      → set_or_update hash_seed m key c
        ≡ set_entry hash_seed (record { key = key; fresh = c; change = λ v. add v c }) m
  unfolding set_or_update
  set_or_update-entry m key c = refl

  put_value-joined :
      (key : Bytes) (c : Counters) (o : Option Counters)
      → put_value (record { key = key; fresh = c; change = λ v. add v c }) o ≡ joined o c
  put_value-joined key c none = refl
  put_value-joined key c (some v) = refl

  -- SetOrUpdate on a map in order that represents `f`, with a key that is no longer than the key data,
  -- does not panic and ends; the map afterwards is in order, gives for the key the counters that were
  -- there with the new ones added, or the new ones, gives for every other key what `f` says, and counts
  -- one key more where the key is new; the key data does not shrink.
  pub set_or_update-Writes :
      (m : Map) (f : Bytes → Option Counters) (key : Bytes) (c : Counters)
      → IsValid hash_seed m
      → Represents hash_seed m f
      → length key ≤ m.key_data_len
      → (n : Map) × (set_or_update hash_seed m key c ≡ some n)
        × IsValid hash_seed n
        × (get hash_seed n key ≡ some (some (joined (f key) c)))
        × ((q : Bytes) → q ≢ key → get hash_seed n q ≡ some (f q))
        × (n.count ≡ m.count + new_keys (f key))
        × (m.key_data_len ≤ n.key_data_len)
  set_or_update-Writes m f key c v r short =
      let (n, run, w) =
        set_entry-Writes hash_seed (record { key = key; fresh = c; change = λ v. add v c }) m f v r
          short in
      (
        n,
        set_or_update-entry m key c ∙ run,
        w.valid,
        w.here ∙ ap (λ (x : Counters). some (some x)) (put_value-joined key c (f key)),
        w.others,
        w.counts,
        w.key_len,
      )

  set_val-entry :
      (m : Map) (key : Bytes) (c : Counters)
      → set_val hash_seed m key c
        ≡ set_entry hash_seed (record { key = key; fresh = c; change = λ v. c }) m
  unfolding set_val
  set_val-entry m key c = refl

  put_value-constant :
      (key : Bytes) (c : Counters) (o : Option Counters)
      → put_value (record { key = key; fresh = c; change = λ v. c }) o ≡ c
  put_value-constant key c none = refl
  put_value-constant key c (some v) = refl

  -- Set on a map in order that represents `f`, with a key that is no longer than the key data, does not
  -- panic and ends; the map afterwards is in order, gives for the key the new counters, gives for every
  -- other key what `f` says, and counts one key more where the key is new.
  pub set_val-Writes :
      (m : Map) (f : Bytes → Option Counters) (key : Bytes) (c : Counters)
      → IsValid hash_seed m
      → Represents hash_seed m f
      → length key ≤ m.key_data_len
      → (n : Map) × (set_val hash_seed m key c ≡ some n)
        × IsValid hash_seed n
        × (get hash_seed n key ≡ some (some c))
        × ((q : Bytes) → q ≢ key → get hash_seed n q ≡ some (f q))
        × (n.count ≡ m.count + new_keys (f key))
  set_val-Writes m f key c v r short =
      let (n, run, w) =
        set_entry-Writes hash_seed (record { key = key; fresh = c; change = λ v. c }) m f v r
          short in
      (
        n,
        set_val-entry m key c ∙ run,
        w.valid,
        w.here ∙ ap (λ (x : Counters). some (some x)) (put_value-constant key c (f key)),
        w.others,
        w.counts,
      )
