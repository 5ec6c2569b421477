-- ===== src/Hashmap/Attempts.antt =====
-- The attempts of Set and SetOrUpdate of pkg/types/hashmap/hashmap.go: a few of them suffice.
use mathlib.Core.Option
use go_probe.Common.{
  ℕ, ◌+◌, ◌%◌, ◌≤◌, ◌≡◌, refl, none, some, [], ◌∷◌, ◌++◌, arith, le→leb, if◌then◌else◌, length,
  get_elem?, set, length-append,
}
use go_probe.Common.Bytes.{Bytes}
use go_probe.Types.Counters.{Counters}
use go_probe.Capture.EpHash.{same_bytes_iff}
use go_probe.Hashmap.Slots.{Slot, Chain, top_hash_of, update_slot, insert_slot}
use go_probe.Hashmap.Chains.{
  AreEntries, find, change_entry, find-change_entry, length-change_entry, change_entry-AreEntries,
  find-append, append-AreEntries,
}
use go_probe.Hashmap.Fills.{Fills, update_slot-Fills, insert_slot-Gains}
use go_probe.Hashmap.Table.{Map}
use go_probe.Hashmap.Access.{Entry, insert_entry, inserted, key_data_for}
use go_probe.Hashmap.Valid.{IsTable, hash_of}
use go_probe.Hashmap.Writing.{IsCurrent}
use go_probe.Hashmap.Setting.{Sets, result-Sets}

module _ {hash_seed : Bytes → ℕ → ℕ} {m : Map} (t : IsTable hash_seed m) (e : Entry)
    (current : IsCurrent m (hash_of hash_seed m e.key % length m.buckets)) (c es : Chain)
    (at : get_elem? m.buckets (hash_of hash_seed m e.key % length m.buckets) ≡ some c)
    (f : Fills es c)
    (a : AreEntries
      (hash_of hash_seed m)
      (length m.buckets)
      (hash_of hash_seed m e.key % length m.buckets)
      es) where
  abbrev pub hash : ℕ
  hash = hash_of hash_seed m e.key

  abbrev pub place : ℕ
  place = hash % length m.buckets

  -- A key that is there gets its value changed.
  pub update-Sets :
      (v : Counters)
      → find e.key es ≡ some v
      → (c' : Chain) × (update_slot e.key (top_hash_of hash) e.change c ≡ some c')
        × Sets hash_seed e m (record m { buckets = set m.buckets place c' })
  update-Sets v old =
      let h = hash_of hash_seed m in
      let (c', run, f', same) =
        update_slot-Fills h (length m.buckets) place f a e.key e.change v old in
      (
        c',
        run,
        result-Sets t e current c es at f a c' (change_entry e.key e.change es) f'
            (change_entry-AreEntries h e.key e.change (length m.buckets) place es a) m.count
            m.n_overflow m.key_data_len m.key_data_pos
            (ground
              (arith, find-change_entry h e.key e.key e.change es, same_bytes_iff e.key e.key))
            (λ q n. ground (arith, find-change_entry h e.key q e.change es, same_bytes_iff q e.key))
            (rw old (omega arith)) (rw old (omega (arith, length-change_entry h e.key e.change es)))
            (omega arith) t.key_room (omega arith),
      )

  module _ (absent : find e.key es ≡ none) (short : length e.key ≤ m.key_data_len) where
    abbrev pub new : Slot
    new = record { top_hash = top_hash_of hash; key = e.key; val = e.fresh }

    fits : m.key_data_pos + length e.key ≤ key_data_for m (length e.key)
    unfolding key_data_for
    fits = ground (arith, t.key_room)

    longer : m.key_data_len ≤ key_data_for m (length e.key)
    unfolding key_data_for
    longer = ground arith

    pub insert_entry-inserted :
        insert_entry m place c new ≡ some (inserted m place (length e.key) (insert_slot new c))
    unfolding insert_entry
    insert_entry-inserted = rw (le→leb _ _ fits)

    -- A key that is not there is inserted.
    pub insert-Sets : Sets hash_seed e m (inserted m place (length e.key) (insert_slot new c))
    unfolding inserted find Option.or_else
    insert-Sets =
        let h = hash_of hash_seed m in
        let (f', grown) = insert_slot-Gains h (length m.buckets) place new f a in
        result-Sets t e current c es at f a (insert_slot new c).0 (es ++ new ∷ []) f'
          (append-AreEntries h (length m.buckets) place es new a refl refl absent) (m.count + 1)
          (if (insert_slot new c).1 then m.n_overflow + 1 else m.n_overflow)
          (key_data_for m (length e.key)) (m.key_data_pos + length e.key)
          (ground (arith, find-append h e.key es (new ∷ []), same_bytes_iff e.key e.key))
          (λ q n. ground (arith, find-append h q es (new ∷ []), same_bytes_iff q e.key))
          (rw absent (omega arith)) (rw absent (omega (arith, length-append es (new ∷ []))))
          (ground arith) fits longer
