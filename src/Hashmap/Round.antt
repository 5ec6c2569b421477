-- ===== src/Hashmap/Round.antt =====
-- The round of the iterator of pkg/types/hashmap/iterator.go over the places of the table.
use mathlib.Core.List.{append-nil}
use go_probe.Common.{
  ℕ, zero, suc, ◌+◌, ◌≤◌, ◌<◌, ◌≡◌, refl, ◌∙◌, inl, inr, ◌&&◌, ◌||◌, List, [], ◌++◌, arith, ltb,
  leb, ◌==◌, if◌then◌else◌, Bool-cases,
}
use go_probe.Types.Counters.{Counters}

-- The place behind a place, on a round of `n`.
abbrev pub succ : ℕ → ℕ → ℕ
succ n b = if b + 1 == n then 0 else b + 1

-- What `k` places from `b` on show of something that place `p` shows.
unfoldable pub visits : ℕ → ℕ → List Counters → ℕ → ℕ → List Counters
visits n p x b zero = []
visits n p x b (suc k) = (if p == b then x else []) ++ visits n p x (succ n b) k

visits-last : (n p : ℕ) (x : List Counters) (k : ℕ) → k ≡ 0 → visits n p x 0 k ≡ []
unfolding visits
visits-last n p x zero e = refl
visits-last n p x (suc k) e = absurd (omega arith)

visits-wrapped :
    (n p : ℕ) (x : List Counters) (b k : ℕ)
    → b + k ≤ n
    → visits n p x b k ≡ (if leb b p && ltb p (b + k) then x else [])
unfolding visits
visits-wrapped n p x b zero l = ground arith
visits-wrapped n p x b (suc k) l = elim (Bool-cases (p == b)) [
  | inl here ↦
      let later : visits n p x (succ n b) k ≡ [] = elim (Bool-cases (b + 1 == n)) [
        | inl e ↦ rw e (visits-last n p x k (ground arith))
        | inr e ↦ rw e (visits-wrapped n p x (b + 1) k (omega arith) ∙ ground arith)
      ] in
      rw (here, later, append-nil) (ground arith)
  | inr other ↦ rw other (elim (Bool-cases (b + 1 == n)) [
    | inl e ↦ rw e (visits-last n p x k (ground arith) ∙ ground arith)
    | inr e ↦ rw e (visits-wrapped n p x (b + 1) k (omega arith) ∙ ground arith)
  ])
]

visits_lem :
    (n p : ℕ) (x : List Counters) (s b k : ℕ)
    → b < n
    → s ≤ b
    → b + k ≡ n + s
    → visits n p x b k ≡ (if (leb b p && ltb p n) || ltb p s then x else [])
unfolding visits
visits_lem n p x s b zero l m e = absurd (omega arith)
visits_lem n p x s b (suc k) l m e = elim (Bool-cases (b + 1 == n)) [
  | inl last ↦
      let rest = visits-wrapped n p x 0 k (ground arith) in
      elim (Bool-cases (p == b)) [
        | inl here ↦
            let later : visits n p x 0 k ≡ [] = rest ∙ ground arith in
            rw (last, here, later, append-nil) (ground arith)
        | inr other ↦ rw (last, other, rest) (ground arith)
      ]
  | inr more ↦
      let rest = visits_lem n p x s (b + 1) k (ground arith) (omega arith) (omega arith) in
      elim (Bool-cases (p == b)) [
        | inl here ↦
            let later : visits n p x (b + 1) k ≡ [] = rest ∙ ground arith in
            rw (more, here, later, append-nil) (ground arith)
        | inr other ↦ rw (more, other, rest) (ground arith)
      ]
]

-- A whole round shows each place once.
pub visits-round : (n p : ℕ) (x : List Counters) (s : ℕ) → s < n → p < n → visits n p x s n ≡ x
visits-round n p x s l k = visits_lem n p x s s n l (omega arith) (omega arith) ∙ ground arith
