-- ===== src/Evaluate/Order.antt =====
-- Theorems on `evaluate` and the order of the cards.
use mathlib.Core.Logic.{∥∥₁_elim}
use mathlib.Core.List.{Perm, Permᴰ}
use native.Mathlib.Nat.{ℕ_set}
use texas_holdem.Base.{
  ℕ, zero, suc, ◌≡◌, refl, ap, ◌∙◌, Bool, ◌||◌, Option, none, some, List, [], ◌∷◌, ◌==◌,
  if◌then◌else◌, modify, take, get_or, arith, Bool-cases, inl, inr,
}
use texas_holdem.Base.Sorting.{insert_down, sort_down, insert_down_comm}
use texas_holdem.Cards.{Card}
use texas_holdem.Evaluate.{
  Mask, set_bit, Tally, empty_tally, count_card, tally_from, Score, flush_suit, suit_ranks, mask_of,
  flush_score, straight_high, group_score, group_ranks, no_groups, ranks_down, evaluate,
}
use mathlib.Core.Path.{fun_ext, ap₂}

modify_comm :
    (i j : ℕ) (xs : List ℕ) → modify i suc (modify j suc xs) ≡ modify j suc (modify i suc xs)
modify_comm i j [] = refl
modify_comm zero zero (x ∷ xs) = refl
modify_comm zero (suc j) (x ∷ xs) = refl
modify_comm (suc i) zero (x ∷ xs) = refl
modify_comm (suc i) (suc j) (x ∷ xs) = ap (◌∷◌ x) (modify_comm i j xs)

or_swap : (a b c : Bool) → ((a || b) || c) ≡ ((a || c) || b)
or_swap a b c = ground arith

set_bit_comm : (v w : ℕ) (mask : Mask) → set_bit v (set_bit w mask) ≡ set_bit w (set_bit v mask)
set_bit_comm v w mask = fun_ext (λ r. or_swap (mask r) (r == w) (r == v))

count_card_comm :
    (t : Tally) (c d : Card) → count_card (count_card t c) d ≡ count_card (count_card t d) c
count_card_comm t c d = λ i. record {
  suits = modify_comm d.s c.s t.suits i;
  ranks = modify_comm d.v c.v t.ranks i;
  mask = set_bit_comm d.v c.v t.mask i;
}

-- What adding a card and swapping two cards keeps, a permutation keeps.
perm_invariant {ℓ} :
    {B : Type ℓ} (f : List Card → B)
    → ((c : Card) (xs ys : List Card) → f xs ≡ f ys → f (c ∷ xs) ≡ f (c ∷ ys))
    → ((c d : Card) (xs : List Card) → f (c ∷ d ∷ xs) ≡ f (d ∷ c ∷ xs))
    → {xs ys : List Card} → Permᴰ xs ys
    → f xs ≡ f ys
perm_invariant f grow swap Permᴰ.nil = refl
perm_invariant f grow swap (Permᴰ.cons {a = a} {b = b} {l₁ = xs} {l₂ = ys} e p) =
    grow a xs ys (perm_invariant f grow swap p) ∙ ap (λ c. f (c ∷ ys)) e
perm_invariant f grow swap (Permᴰ.swap {a = a} {b = b} {a' = a'} {b' = b'} {l = xs} e e') =
    swap a b xs ∙ ap (λ c. f (c ∷ a ∷ xs)) e' ∙ ap (λ c. f (a' ∷ c ∷ xs)) e
perm_invariant f grow swap (Permᴰ.trans p q) =
    perm_invariant f grow swap p ∙ perm_invariant f grow swap q

tally_from-perm :
    {xs ys : List Card} → Permᴰ xs ys → (t : Tally) → tally_from t xs ≡ tally_from t ys
unfolding tally_from
tally_from-perm p t =
    ap (λ (g : Tally → Tally). g t)
      (perm_invariant (λ xs t. tally_from t xs)
        (λ c xs ys same. fun_ext (λ t. ap (λ (g : Tally → Tally). g (count_card t c)) same))
        (λ c d xs. fun_ext (λ t. ap (λ u. tally_from u xs) (count_card_comm t c d))) p)

-- What the flush branch reads of the cards.
sorted_suit : ℕ → List Card → List ℕ
sorted_suit s cards = sort_down (suit_ranks s cards)

sorted_suit-perm : (s : ℕ) {xs ys : List Card} → Permᴰ xs ys → sorted_suit s xs ≡ sorted_suit s ys
unfolding sorted_suit sort_down
sorted_suit-perm s =
    perm_invariant (sorted_suit s)
      (λ c xs ys same. elim (Bool-cases (c.s == s)) [
        | inl in_suit ↦ rw in_suit (ap (insert_down c.v) same)
        | inr out ↦ rw out same
      ])
      (λ c d xs. elim (Bool-cases (c.s == s)) [
        | inl c_in ↦ elim (Bool-cases (d.s == s)) [
          | inl d_in ↦ rw (c_in, d_in) (insert_down_comm c.v d.v (sorted_suit s xs))
          | inr d_out ↦ rw (c_in, d_out) refl
        ]
        | inr c_out ↦ elim (Bool-cases (d.s == s)) [
          | inl d_in ↦ rw (c_out, d_in) refl
          | inr d_out ↦ rw (c_out, d_out) refl
        ]
      ])

suit_mask : ℕ → List Card → Mask
suit_mask s cards = mask_of (suit_ranks s cards)

suit_mask-perm : (s : ℕ) {xs ys : List Card} → Permᴰ xs ys → suit_mask s xs ≡ suit_mask s ys
unfolding suit_mask mask_of
suit_mask-perm s =
    perm_invariant (suit_mask s)
      (λ c xs ys same. elim (Bool-cases (c.s == s)) [
        | inl in_suit ↦ rw in_suit (ap (set_bit c.v) same)
        | inr out ↦ rw out same
      ])
      (λ c d xs. elim (Bool-cases (c.s == s)) [
        | inl c_in ↦ elim (Bool-cases (d.s == s)) [
          | inl d_in ↦ rw (c_in, d_in) (set_bit_comm c.v d.v (suit_mask s xs))
          | inr d_out ↦ rw (c_in, d_out) refl
        ]
        | inr c_out ↦ elim (Bool-cases (d.s == s)) [
          | inl d_in ↦ rw (c_out, d_in) refl
          | inr d_out ↦ rw (c_out, d_out) refl
        ]
      ])

flush_parts : List ℕ → Mask → Score
flush_parts sorted mask =
    let high = straight_high mask in
    if high == 0
    then record { category = 5; tiebreak = take 5 sorted }
    else record { category = 8; tiebreak = high ∷ [] }

flush-perm :
    (s : ℕ) {xs ys : List Card}
    → Permᴰ xs ys
    → flush_score (suit_ranks s xs) ≡ flush_score (suit_ranks s ys)
unfolding flush_score flush_parts sorted_suit suit_mask
flush-perm s p = ap₂ flush_parts (sorted_suit-perm s p) (suit_mask-perm s p)

-- `evaluate` after its first loop.
decided : Tally → (ℕ → Score) → Option Score
decided t flush = elim (flush_suit 0 t.suits) [
  | some s ↦ some (flush s)
  | none ↦
      let count = λ (v : ℕ). get_or t.ranks v 0 in
      group_score count t.mask (group_ranks count ranks_down no_groups)
]

evaluate_same : {xs ys : List Card} → Permᴰ xs ys → evaluate xs ≡ evaluate ys
unfolding evaluate decided
evaluate_same p = ap₂ decided (tally_from-perm p empty_tally) (fun_ext (λ s. flush-perm s p))

Score-set : IsSet (Option Score)
Score-set = hlevel ℕ_set

-- Hands with the same cards in another order have the same score.
pub evaluate-perm : (xs ys : List Card) → Perm xs ys → evaluate xs ≡ evaluate ys
evaluate-perm xs ys p = ∥∥₁_elim p (Score-set _ _) evaluate_same
