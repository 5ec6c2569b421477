-- ===== src/Hashmap/Sharing.antt =====
-- growWork of pkg/types/hashmap/hashmap.go: two old buckets for each write.
use native.Mathlib.Nat.{mod-lt}
use go_probe.Common.{
  ℕ, ◌%◌, ◌<◌, ◌≡◌, ◌⊎◌, refl, ap, ◌∙◌, Bool, true, false, Option, Option-cases, none, some, List,
  ◌>>=◌, arith, if◌then◌else◌, length, inl, inr,
}
use go_probe.Common.Bytes.{Bytes}
use go_probe.Hashmap.Slots.{Chain}
use go_probe.Hashmap.Table.{Map, is_growing, is_some}
use go_probe.Hashmap.Growth.{evacuate, grow_work}
use go_probe.Hashmap.Valid.{IsTable}
use go_probe.Hashmap.Advancing.{IsEvacuated, Keeps, Keeps-trans}
use go_probe.Hashmap.Working.{IsGrown-IsOld, evacuate-Evacuates}

module _ (hash_seed : Bytes → ℕ → ℕ) where
  abbrev after : Map → Option Map
  after n = if is_growing n then evacuate hash_seed n n.n_evacuate else some n

  grow_work-reads :
      (m : Map) (old : List Chain) (i : ℕ) (n : Map)
      → m.old_buckets ≡ some old
      → evacuate hash_seed m (i % length old) ≡ some n
      → grow_work hash_seed m i
        ≡ (if is_growing n then evacuate hash_seed n n.n_evacuate else some n)
  unfolding grow_work
  grow_work-reads m old i n e run =
      ap (λ (o : Option (List Chain)). o >>= λ l. evacuate hash_seed m (i % length l) >>= after) e
      ∙ ap (λ (o : Option Map). o >>= after) run

  pub is_growing-none : (m : Map) → m.old_buckets ≡ none → is_growing m ≡ false
  unfolding is_growing
  is_growing-none m e = ap is_some e

  pub is_growing-some :
      (m : Map) (old : List Chain) → m.old_buckets ≡ some old → is_growing m ≡ true
  unfolding is_growing
  is_growing-some m old e = ap is_some e

  -- One round of growing: the old bucket of the place has been evacuated afterwards, and the growth
  -- has ended or is further on.
  pub grow_work-Works :
      (m : Map) (old : List Chain) (i : ℕ)
      → IsTable hash_seed m
      → m.old_buckets ≡ some old
      → (n : Map) × (grow_work hash_seed m i ≡ some n)
        × Keeps hash_seed m n
        × IsEvacuated n (i % length old)
        × ((n.old_buckets ≡ none) ⊎ (m.n_evacuate < n.n_evacuate))
  grow_work-Works m old i t e =
      let grown = IsGrown-IsOld hash_seed old t e in
      let (n, run, keeps, done, _) =
        evacuate-Evacuates hash_seed m old (i % length old) t e
          (mod-lt i (omega (arith, grown.started))) in
      let read = grow_work-reads m old i n e run in
      elim (Option-cases n.old_buckets) [
        | inl settled ↦ (
          n,
          read
              ∙ ap (λ (b : Bool). if b then evacuate hash_seed n n.n_evacuate else some n)
                  (is_growing-none n settled),
          keeps,
          done,
          inl settled,
        )
        | inr (old₁, e₁) ↦
            let grown₁ = IsGrown-IsOld hash_seed old₁ keeps.table e₁ in
            let (k, run₁, keeps₁, _, progress) =
              evacuate-Evacuates hash_seed n old₁ n.n_evacuate keeps.table e₁ grown₁.started in
            (
              k,
              read
                  ∙ ap (λ (b : Bool). if b then evacuate hash_seed n n.n_evacuate else some n)
                      (is_growing-some n old₁ e₁)
                  ∙ run₁,
              Keeps-trans keeps keeps₁,
              keeps₁.stays _ done,
              inr (omega (arith, keeps.forward, progress refl)),
            )
      ]
