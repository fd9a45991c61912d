-- ===== src/Evaluate/Grouping.antt =====
-- Lemmas on the loop of `evaluate` over the ranks: quads, trips and pairs.
use texas_holdem.Base.{
  ℕ, ◌≤◌, ◌<◌, ◌≡◌, ◌≢◌, refl, ap, true, ◌&&◌, ◌||◌, ◌⊎◌, inl, inr, List, [], ◌∷◌, ◌==◌, arith,
  Bool-cases, mem, mem-append, All, All-append,
}
use texas_holdem.Evaluate.{Groups, group_rank, group_ranks, no_groups, ranks_down}

-- The ranks in the order in which the loop has seen them.
abbrev pub onto : List ℕ → List ℕ → List ℕ
onto [] seen = seen
onto (v ∷ vs) seen = onto vs (v ∷ seen)

mem-onto : (k : ℕ) (vs seen : List ℕ) → mem k (onto vs seen) ≡ (mem k vs || mem k seen)
mem-onto k [] seen = refl
mem-onto k (v ∷ vs) seen = ground (arith, mem-onto k vs (v ∷ seen))

-- A rank that more than one card has is accounted for.
abbrev pub Known : (ℕ → ℕ) → Groups → ℕ → Type 0
Known count g v =
    (v ≡ g.trips) ⊎ ((mem v g.pairs ≡ true) ⊎ ((g.quads ≢ 0) ⊎ ((count v ≤ 1) ⊎ (4 < count v))))

abbrev pub Paired : (ℕ → ℕ) → Groups → ℕ → Type 0
Paired count g p = (count p ≡ 2) ⊎ ((count p ≡ 3) × (g.trips ≢ 0))

pub record Grouped (count : ℕ → ℕ) (seen : List ℕ) (g : Groups) : Type 0 where
  pub four : g.quads ≢ 0 → count g.quads ≡ 4
  pub three : g.trips ≢ 0 → count g.trips ≡ 3
  pub two : All (Paired count g) g.pairs
  pub cover : (v : ℕ) → 0 < v → mem v seen ≡ true → Known count g v

group_rank-four :
    (count : ℕ → ℕ) (seen : List ℕ) (v : ℕ) (g : Groups)
    → Grouped count seen g
    → (group_rank v (count v) g).quads ≢ 0
    → count (group_rank v (count v) g).quads ≡ 4
unfolding group_rank
group_rank-four count seen v g s = ground (arith, s.four)

group_rank-three :
    (count : ℕ → ℕ) (seen : List ℕ) (v : ℕ) (g : Groups)
    → Grouped count seen g
    → (group_rank v (count v) g).trips ≢ 0
    → count (group_rank v (count v) g).trips ≡ 3
unfolding group_rank
group_rank-three count seen v g s = ground (arith, s.three)

group_rank-Known :
    (count : ℕ → ℕ) (v w : ℕ) (g : Groups)
    → 0 < v
    → (v ≡ w) ⊎ (Known count g v)
    → Known count (group_rank w (count w) g) v
unfolding group_rank
group_rank-Known count v w g pos known =
    ground (arith, mem-append v g.pairs (w ∷ []), ap count {x = v} {y = w})

Paired-mono :
    (count : ℕ → ℕ) (g h : Groups) (ps : List ℕ)
    → (g.trips ≢ 0 → h.trips ≢ 0)
    → All (Paired count g) ps
    → All (Paired count h) ps
Paired-mono count g h [] keeps all = all
Paired-mono count g h (p ∷ ps) keeps all = (ground arith, Paired-mono count g h ps keeps all.1)

group_rank-two :
    (count : ℕ → ℕ) (w : ℕ) (g : Groups)
    → All (Paired count g) g.pairs
    → All (Paired count (group_rank w (count w) g)) (group_rank w (count w) g).pairs
unfolding group_rank
group_rank-two count w g all = elim (Bool-cases ((count w == 4) && (g.quads == 0))) [
  | inl quads ↦ rw quads (Paired-mono count g (record g { quads = w }) g.pairs (λ h. h) all)
  | inr no_quads ↦ elim (Bool-cases (count w == 3)) [
    | inl three ↦ elim (Bool-cases (g.trips == 0)) [
      | inl first ↦
          rw (no_quads, three, first)
            (Paired-mono count g (record g { trips = w }) g.pairs (λ h. absurd (h (ground arith)))
              all)
      | inr second ↦
          rw (no_quads, three, second)
            (All-append (Paired count g) g.pairs (w ∷ []) all
              (inr (ground arith, ground arith), tt))
    ]
    | inr not_three ↦ elim (Bool-cases (count w == 2)) [
      | inl pair ↦
          rw (no_quads, not_three, pair)
            (All-append (Paired count g) g.pairs (w ∷ []) all (inl (ground arith), tt))
      | inr single ↦ rw (no_quads, not_three, single) all
    ]
  ]
]

group_rank-Grouped :
    (count : ℕ → ℕ) (seen : List ℕ) (w : ℕ) (g : Groups)
    → 0 < w
    → Grouped count seen g
    → Grouped count (w ∷ seen) (group_rank w (count w) g)
group_rank-Grouped count seen w g pos s = record {
  four = group_rank-four count seen w g s;
  three = group_rank-three count seen w g s;
  two = group_rank-two count w g s.two;
  cover = λ v above there. group_rank-Known count v w g above (elim (Bool-cases (v == w)) [
    | inl same ↦ inl (ground arith)
    | inr other ↦ inr (s.cover v above (ground arith))
  ]);
}

pub group_ranks-Grouped :
    (count : ℕ → ℕ) (vs seen : List ℕ) (g : Groups)
    → All (λ v. 0 < v) vs
    → Grouped count seen g
    → Grouped count (onto vs seen) (group_ranks count vs g)
unfolding group_ranks
group_ranks-Grouped count [] seen g pos s = s
group_ranks-Grouped count (v ∷ vs) seen g pos s =
    group_ranks-Grouped count vs (v ∷ seen) _ pos.1 (group_rank-Grouped count seen v g pos.0 s)

ranks-pos : All (λ v. 0 < v) ranks_down
unfolding ranks_down
ranks-pos = omega arith

pub rank_above : (v : ℕ) → mem v ranks_down ≡ true → 0 < v
unfolding ranks_down
rank_above v there = ground arith

pub rank_below : (v : ℕ) → mem v ranks_down ≡ true → v < 15
unfolding ranks_down
rank_below v there = ground arith

pub rank_seen : (v : ℕ) → mem v ranks_down ≡ true → mem v (onto ranks_down []) ≡ true
rank_seen v there = rw (mem-onto v ranks_down [], there) refl

-- The loop of `evaluate` has accounted for every rank that more than one card has.
pub evaluate-Grouped :
    (count : ℕ → ℕ) → Grouped count (onto ranks_down []) (group_ranks count ranks_down no_groups)
evaluate-Grouped count = group_ranks-Grouped count ranks_down [] no_groups ranks-pos (record {
  four = λ h. absurd (h refl);
  three = λ h. absurd (h refl);
  two = tt;
  cover = λ v above there. cc;
})
