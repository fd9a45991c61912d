-- ===== src/Cashout/Balance.antt =====
-- Sums of chips that may be negative, as a balance of natural numbers.
use native.Mathlib.Nat.{mod-add-div, mod-lt}
use texas_holdem.Base.{
  ℕ, zero, suc, ◌+◌, ◌*◌, ◌/◌, min, ◌<◌, ◌≡◌, refl, ◌∙◌, List, [], ◌∷◌, length, length-modify,
  total, total-modify_at, get_elem?-lt, All, arith, leb, Bool-cases, inl, inr,
}
use texas_holdem.Base.Int.{ℤ, pos, negsuc, pos_part, neg_part, sub_ℕ, ◌+ℤ◌}
use texas_holdem.Cashout.{floor_div, floor_mod, pay_seat, pay_rivals}

pub sub_ℕ-parts : (a b : ℕ) → pos_part (sub_ℕ a b) + b ≡ neg_part (sub_ℕ a b) + a
sub_ℕ-parts a b = elim (Bool-cases (leb b a)) [
  | inl enough ↦ rw enough (ground arith)
  | inr short ↦ rw short (ground arith)
]

+ℤ-parts :
    (a b : ℤ)
    → pos_part (a +ℤ b) + neg_part a + neg_part b ≡ neg_part (a +ℤ b) + pos_part a + pos_part b
unfolding ◌+ℤ◌
+ℤ-parts a b = omega (arith, sub_ℕ-parts (pos_part a + pos_part b) (neg_part a + neg_part b))

pub floor-parts :
    (a : ℤ) (k : ℕ)
    → 0 < k
    → k * pos_part (floor_div a k) + floor_mod a k + neg_part a
      ≡ k * neg_part (floor_div a k) + pos_part a
floor-parts (pos n) k h = omega (arith, mod-add-div n k)
floor-parts (negsuc n) k h =
    let e : k * suc (n / k) ≡ k * (n / k) + k = grind arith in
    omega (arith, e, mod-add-div n k, mod-lt n h)

pub floor_mod-lt : (a : ℤ) (k : ℕ) → 0 < k → floor_mod a k < k
floor_mod-lt (pos n) k h = mod-lt n h
floor_mod-lt (negsuc n) k h = omega arith

-- The payouts `ys` are worth `up` more and `down` less than `xs`, for the same seats.
pub record Gains (xs ys : List ℤ) (up down : ℕ) : Type 0 where
  pub worth :
      total pos_part ys + total neg_part xs + down ≡ total pos_part xs + total neg_part ys + up
  pub same_length : length ys ≡ length xs

pub Gains-trans :
    (xs ys zs : List ℤ) (up down up' down' : ℕ)
    → Gains xs ys up down
    → Gains ys zs up' down'
    → Gains xs zs (up + up') (down + down')
Gains-trans xs ys zs up down up' down' g g' = record {
  worth = omega (arith, g.worth, g'.worth);
  same_length = g'.same_length ∙ g.same_length;
}

pub Gains-same :
    (xs ys : List ℤ) (up down up' down' : ℕ)
    → Gains xs ys up down
    → up + down' ≡ up' + down
    → Gains xs ys up' down'
Gains-same xs ys up down up' down' g same = record {
  worth = omega (arith, g.worth, same);
  same_length = g.same_length;
}

pub pay_seat-Gains :
    (i : ℕ) (a : ℤ) (xs : List ℤ)
    → i < length xs
    → Gains xs (pay_seat i a xs) (pos_part a) (neg_part a)
pay_seat-Gains i a xs inside =
    let (x, at) = get_elem?-lt xs i inside in
    record {
      worth = omega (
        arith,
        total-modify_at pos_part (λ x. x +ℤ a) i xs x at,
        total-modify_at neg_part (λ x. x +ℤ a) i xs x at,
        +ℤ-parts x a,
      );
      same_length = length-modify i (λ x. x +ℤ a) xs;
    }

All-length :
    (xs ys : List ℤ) (seats : List ℕ)
    → length ys ≡ length xs
    → All (λ i. i < length xs) seats
    → All (λ i. i < length ys) seats
All-length xs ys [] same inside = tt
All-length xs ys (i ∷ seats) same (here, inside) =
    (omega (arith, same), All-length xs ys seats same inside)

suc_times : (n m : ℕ) → suc n * m ≡ m + n * m
suc_times n m = grind arith

-- Each rival gets `each`, and the first `odd` of them a chip more.
pub pay_rivals-Gains :
    (each : ℤ) (odd : ℕ) (rivals : List ℕ) (xs : List ℤ)
    → All (λ i. i < length xs) rivals
    → Gains xs
        (pay_rivals each odd rivals xs)
        (length rivals * pos_part each + min odd (length rivals))
        (length rivals * neg_part each)
unfolding pay_rivals
pay_rivals-Gains each odd [] xs inside = record { worth = omega arith; same_length = refl }
pay_rivals-Gains each zero (i ∷ rivals) xs (here, inside) =
    let first = pay_seat-Gains i each xs here in
    let later =
      pay_rivals-Gains each zero rivals (pay_seat i each xs)
        (All-length xs (pay_seat i each xs) rivals first.same_length inside) in
    Gains-same xs _ _ _ _ _ (Gains-trans xs (pay_seat i each xs) _ _ _ _ _ first later) (
      omega (
        arith,
        suc_times (length rivals) (pos_part each),
        suc_times (length rivals) (neg_part each),
      ))
pay_rivals-Gains each (suc odd) (i ∷ rivals) xs (here, inside) =
    let more = each +ℤ pos 1 in
    let first = pay_seat-Gains i more xs here in
    let later =
      pay_rivals-Gains each odd rivals (pay_seat i more xs)
        (All-length xs (pay_seat i more xs) rivals first.same_length inside) in
    Gains-same xs _ _ _ _ _ (Gains-trans xs (pay_seat i more xs) _ _ _ _ _ first later) (
      omega (
        arith,
        +ℤ-parts each (pos 1),
        suc_times (length rivals) (pos_part each),
        suc_times (length rivals) (neg_part each),
      ))
