-- ===== src/Hashmap/Emitting.antt =====
-- What an iterator of pkg/types/hashmap/iterator.go over one map has left.
use go_probe.Common.{
  ℕ, zero, suc, ◌≡◌, refl, sym, ap, ◌∙◌, Bool, true, false, Option, none, some, List, [], ◌∷◌,
  arith, if◌then◌else◌, ◌>>=◌, inl, inr, subst, Option-cases, some-injective,
}
use go_probe.Common.Bytes.{Bytes}
use go_probe.Types.Counters.{Counters}
use go_probe.Hashmap.Table.{Map}
use go_probe.Hashmap.Iterator.{Iter, iter, next, pairs, pairs_from, pairs_over}
use go_probe.Hashmap.Meta.{MapIter, map_next}

abbrev pub Pairs : Type 0
Pairs = List (Bytes × Counters)

module _ (hash_seed : Bytes → ℕ → ℕ) where
  -- The pairs that an iterator has left.
  pub data Emits : MapIter → Pairs → Type 0 where
    ends : {i j : MapIter} → map_next hash_seed i ≡ some (j, none) → Emits i []
    emits :
        {i j : MapIter} {p : Bytes × Counters} {l : Pairs}
        → map_next hash_seed i ≡ some (j, some p)
        → Emits j l
        → Emits i (p ∷ l)

  abbrev met : Map → Iter × Bool → MapIter × Option (Bytes × Counters)
  met m r = (record { over = m; at = some r.0 }, if r.1 then some (r.0.key, r.0.val) else none)

  map_next-met :
      (m : Map) (it : Iter) (r : Iter × Bool)
      → next hash_seed m.seed m it ≡ some r
      → map_next hash_seed (record { over = m; at = some it }) ≡ some (met m r)
  unfolding map_next
  map_next-met m it r e = ap (λ (o : Option (Iter × Bool)). o >>= λ x. some (met m x)) e

  abbrev rest_of : Iter × Bool → Option Pairs → Option Pairs
  rest_of r later = if r.1 then (later >>= λ l. some ((r.0.key, r.0.val) ∷ l)) else some []

  after_one-Emits :
      (m : Map) (it : Iter) (l : Pairs) (r : Iter × Bool) (later : Option Pairs)
      → next hash_seed m.seed m it ≡ some r
      → rest_of r later ≡ some l
      → ((k : Pairs) → later ≡ some k → Emits (record { over = m; at = some r.0 }) k)
      → Emits (record { over = m; at = some it }) l
  after_one-Emits m it l (jt, false) later e f rest =
      subst (Emits _) (some-injective _ _ f) (ends (map_next-met m it (jt, false) e))
  after_one-Emits m it l (jt, true) none e f rest = absurd (ground arith)
  after_one-Emits m it l (jt, true) (some k) e f rest =
      subst (Emits _) (some-injective _ _ f) (emits (map_next-met m it (jt, true) e) (rest k refl))

  map_iter-Emits :
      (fuel : ℕ) (m : Map) (it : Iter) (l : Pairs)
      → pairs_from hash_seed fuel m.seed m it ≡ some l
      → Emits (record { over = m; at = some it }) l
  unfolding pairs_from
  map_iter-Emits zero m it l e = absurd (ground arith)
  map_iter-Emits (suc fuel) m it l e = elim (Option-cases (next hash_seed m.seed m it)) [
    | inl n ↦
        let void : ◌≡◌ {A = Option Pairs} none (some l) =
          sym (
            ap
              (λ (o : Option (Iter × Bool)).
                o >>= λ r. rest_of r (pairs_from hash_seed fuel m.seed m r.0))
              n)
          ∙ e in
        absurd (ground arith)
    | inr (r, n) ↦
        after_one-Emits m it l r (pairs_from hash_seed fuel m.seed m r.0) n
          (sym (
              ap
                (λ (o : Option (Iter × Bool)).
                  o >>= λ x. rest_of x (pairs_from hash_seed fuel m.seed m x.0))
                n)
            ∙ e)
          (λ k. map_iter-Emits fuel m r.0 k)
  ]

  iter-Emits :
      (fuel : ℕ) (m : Map) (o : Option Iter) (l : Pairs)
      → pairs_over hash_seed fuel m.seed m o ≡ some l
      → Emits (record { over = m; at = o }) l
  unfolding pairs_over map_next
  iter-Emits fuel m none l e = subst (Emits _) (some-injective _ _ e) (ends refl)
  iter-Emits fuel m (some it) l e = map_iter-Emits fuel m it l e

  pub pairs-Emits :
      (fuel : ℕ) (m : Map) (l : Pairs)
      → pairs hash_seed fuel m.seed m ≡ some l
      → Emits (record { over = m; at = iter m }) l
  unfolding pairs
  pairs-Emits fuel m l e = iter-Emits fuel m (iter m) l e
