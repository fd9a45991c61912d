-- ===== src/Replica/Buffer.antt =====
-- Lemmas on the buffer of actions that wait for their turn.
use texas_holdem.Base.{
  ℕ, suc, ◌≡◌, refl, ap, Bool, true, false, ◌||◌, Option, none, some, List, [], ◌∷◌, ◌++◌, map,
  ◌==◌, if◌then◌else◌, length, Distinct, mem, arith, Bool-cases, inl, inr,
}
use texas_holdem.Replica.{Entry}
use texas_holdem.Replica.Actions.{get_pending, remove}

abbrev pub is_some {ℓ} : {A : Type ℓ} → Option A → Bool
is_some none = false
is_some (some a) = true

abbrev pub keys : List (ℕ × Entry) → List ℕ
keys = map λ (p : ℕ × Entry). p.0

pub get_pending-mem : (k : ℕ) (p : List (ℕ × Entry)) → is_some (get_pending k p) ≡ mem k (keys p)
get_pending-mem k [] = refl
get_pending-mem k ((j, x) ∷ p) = ground (arith, get_pending-mem k p)

pub mem-remove :
    (k j : ℕ) (p : List (ℕ × Entry)) → mem k (keys (remove j p)) ≡ true → mem k (keys p) ≡ true
mem-remove k j [] h = h
mem-remove k j ((i, x) ∷ p) h = ground (arith, mem-remove k j p)

pub remove-Distinct :
    (j : ℕ) (p : List (ℕ × Entry)) → Distinct (keys p) → Distinct (keys (remove j p))
remove-Distinct j [] d = tt
remove-Distinct j ((i, x) ∷ p) (fresh, d) = elim (Bool-cases (j == i)) [
  | inl here ↦ rw here d
  | inr later ↦ rw later (
    elim (Bool-cases (mem i (keys (remove j p)))) [
      | inl again ↦ absurd (ground (arith, mem-remove i j p))
      | inr still ↦ still
    ],
    remove-Distinct j p d,
  )
]

pub get_pending-remove_ne :
    (k j : ℕ) (p : List (ℕ × Entry))
    → (k == j) ≡ false
    → get_pending k (remove j p) ≡ get_pending k p
get_pending-remove_ne k j [] ne = refl
get_pending-remove_ne k j ((i, x) ∷ p) ne = elim (Bool-cases (j == i)) [
  | inl here ↦ let other : (k == i) ≡ false = ground arith in rw (here, other) refl
  | inr later ↦ ground (arith, get_pending-remove_ne k j p ne)
]

pub get_pending-remove_self :
    (j : ℕ) (p : List (ℕ × Entry))
    → Distinct (keys p)
    → is_some (get_pending j (remove j p)) ≡ false
get_pending-remove_self j [] d = refl
get_pending-remove_self j ((i, x) ∷ p) (fresh, d) = ground (
  arith,
  get_pending-remove_self j p d,
  get_pending-mem j p,
  ap (λ (k : ℕ). mem k (keys p)) {x = i} {y = j},
)

pub length-remove :
    (j : ℕ) (p : List (ℕ × Entry)) (x : Entry)
    → get_pending j p ≡ some x
    → suc (length (remove j p)) ≡ length p
length-remove j [] x h = cc
length-remove j ((i, y) ∷ p) x h = ground (arith, length-remove j p x)

pub get_pending-append :
    (k j : ℕ) (x : Entry) (p : List (ℕ × Entry))
    → get_pending j p ≡ none
    → get_pending k (p ++ (j, x) ∷ []) ≡ (if k == j then some x else get_pending k p)
get_pending-append k j x [] none_there = refl
get_pending-append k j x ((i, y) ∷ p) none_there = ground (arith, get_pending-append k j x p)

pub append-Distinct :
    (j : ℕ) (x : Entry) (p : List (ℕ × Entry))
    → get_pending j p ≡ none
    → Distinct (keys p)
    → Distinct (keys (p ++ (j, x) ∷ []))
append-Distinct j x [] none_there d = (refl, tt)
append-Distinct j x ((i, y) ∷ p) none_there (fresh, d) =
    (ground (arith, mem-keys_append i j x p), append-Distinct j x p (ground arith) d)
  where
    mem-keys_append :
        (k j : ℕ) (x : Entry) (p : List (ℕ × Entry))
        → mem k (keys (p ++ (j, x) ∷ [])) ≡ (mem k (keys p) || (k == j))
    mem-keys_append k j x [] = ground arith
    mem-keys_append k j x ((i, y) ∷ p) = ground (arith, mem-keys_append k j x p)
