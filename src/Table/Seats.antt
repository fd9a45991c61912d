-- ===== src/Table/Seats.antt =====
-- Finding seats: `_next` and `_seek`, and the sets of seats that a betting round keeps.
use native.Mathlib.Nat.{mod-lt, mod-eq_of_lt, mod-eq-sub-mod}
use texas_holdem.Base.{
  ℕ, zero, suc, ◌+◌, ◌-◌, ◌%◌, ◌<◌, ◌≡◌, refl, ◌∙◌, ap, Bool, true, false, ◌&&◌, Option, none, some,
  List, [], ◌∷◌, ltb, leb, ◌==◌, length, get_elem?, mem, arith, inl, inr, Bool-cases, modify, ◌⊎◌,
}
use texas_holdem.Table.{Player, find_seat, seek, idx_where, holds_at, next_seat}

-- What a search of `rounds` seats has found.
abbrev Found : ℕ → (ℕ → Bool) → ℕ → ℕ → ℕ → Option ℕ → Type 0
Found n test i k rounds none = (d : ℕ) → d < rounds → test ((i + (k + d)) % n) ≡ false
Found n test i k rounds (some j) = (j < n) × (test j ≡ true)

Found-shift :
    (n : ℕ) (test : ℕ → Bool) (i k rounds : ℕ)
    → test ((i + k) % n) ≡ false
    → ((d : ℕ) → d < rounds → test ((i + (k + 1 + d)) % n) ≡ false)
    → (d : ℕ) → d < suc rounds
    → test ((i + (k + d)) % n) ≡ false
Found-shift n test i k rounds miss rest zero lt =
    let e : i + (k + 0) ≡ i + k = omega arith in rw e miss
Found-shift n test i k rounds miss rest (suc d) lt =
    let e : i + (k + suc d) ≡ i + (k + 1 + d) = omega arith in rw e (rest d (omega arith))

Found-later :
    (n : ℕ) (test : ℕ → Bool) (i k rounds : ℕ) (r : Option ℕ)
    → test ((i + k) % n) ≡ false
    → Found n test i (k + 1) rounds r
    → Found n test i k (suc rounds) r
Found-later n test i k rounds (some j) miss f = f
Found-later n test i k rounds none miss f = Found-shift n test i k rounds miss f

pub find_seat-Found :
    (n : ℕ) (test : ℕ → Bool) (i k rounds : ℕ)
    → 0 < n
    → Found n test i k rounds (find_seat n test i k rounds)
unfolding find_seat
find_seat-Found n test i k zero h = λ d lt. absurd (omega arith)
find_seat-Found n test i k (suc rounds) h = elim (Bool-cases (test ((i + k) % n))) [
  | inl hit ↦ rw (hit, find_seat) (mod-lt (i + k) h, hit)
  | inr miss ↦
      rw (miss, find_seat)
        (Found-later n test i k rounds (find_seat n test i (k + 1) rounds) miss
          (find_seat-Found n test i (k + 1) rounds h))
]

-- Every seat is some steps on from the start, less than a lap.
abbrev StepsOn : ℕ → ℕ → ℕ → Type 0
StepsOn n start k = (d : ℕ) × (d < n) × ((start + (0 + d)) % n ≡ k)

rotate : (n start k : ℕ) → start < n → k < n → StepsOn n start k
rotate n start k hs hk = elim (Bool-cases (leb start k)) [
  | inl ahead ↦
      let e : start + (0 + (k - start)) ≡ k = ground arith in
      (k - start, omega arith, rw e (mod-eq_of_lt hk))
  | inr behind ↦
      let e : start + (0 + (k + n - start)) ≡ k + n = ground arith in
      let e' : k + n - n ≡ k = omega arith in
      (
        k + n - start,
        ground arith,
        rw e (mod-eq-sub-mod {n = k + n} {m = n} (omega arith) ∙ rw e' (mod-eq_of_lt hk)),
      )
]

-- `_next` finds a seat whenever there is one, however far round the table.
pub next_seat-some :
    (players : List Player) (i s : ℕ) (pred : Player → Bool)
    → i < length players
    → s < length players
    → holds_at players pred s ≡ true
    → (j : ℕ) × (next_seat players i pred ≡ some j)
unfolding next_seat
next_seat-some players i s pred hi hs there =
    go (find_seat n (holds_at players pred) i 1 n)
      (find_seat-Found n (holds_at players pred) i 1 n (omega arith))
  where
    n : ℕ
    n = length players

    nowhere :
        (d : ℕ) → ((i + (1 + d)) % n) ≡ s → holds_at players pred ((i + (1 + d)) % n) ≡ false → ⊥
    nowhere d e miss = let at : holds_at players pred s ≡ false = rw (← e) miss in cc

    go : (r : Option ℕ) → Found n (holds_at players pred) i 1 n r → (j : ℕ) × (r ≡ some j)
    go (some j) found = (j, refl)
    go none none_there = elim (Bool-cases (ltb i s)) [
      | inl ahead ↦
          let d = s - i - 1 in
          let e : i + (1 + d) ≡ s = ground arith in
          absurd (nowhere d (rw e (mod-eq_of_lt hs)) (none_there d (omega arith)))
      | inr behind ↦
          let d = s + n - i - 1 in
          let e : i + (1 + d) ≡ s + n = omega arith in
          let e' : s + n - n ≡ s = omega arith in
          absurd (
            nowhere d
              (rw e (mod-eq-sub-mod {n = s + n} {m = n} (omega arith) ∙ rw e' (mod-eq_of_lt hs)))
              (none_there d (ground arith)))
    ]

-- Whose turn `_seek` finds: a seat that is still to act, or nobody if no seat is.
abbrev pub TurnOf : ℕ → List ℕ → Option ℕ → Type 0
TurnOf n need none = (k : ℕ) → k < n → mem k need ≡ false
TurnOf n need (some i) = (i < n) × (mem i need ≡ true)

Found-TurnOf :
    (n start : ℕ) (need : List ℕ) (r : Option ℕ)
    → start < n
    → Found n (λ j. mem j need) start 0 n r
    → TurnOf n need r
Found-TurnOf n start need (some i) hs f = f
Found-TurnOf n start need none hs f =
    λ k hk. let (d, lt, e) = rotate n start k hs hk in rw (← e) (f d lt)

pub seek-TurnOf :
    (players : List Player) (need : List ℕ) (start : ℕ)
    → start < length players
    → TurnOf (length players) need (seek players need start)
unfolding seek
seek-TurnOf players need start h =
    Found-TurnOf (length players) start need _ h
      (find_seat-Found (length players) (λ j. mem j need) start 0 (length players) (omega arith))

-- The seat that a search finds is the first that passes the test, from step `k` on.
abbrev pub FirstFrom : ℕ → (ℕ → Bool) → ℕ → ℕ → Option ℕ → Type 0
FirstFrom n test i k none = Unit
FirstFrom n test i k (some j) =
    (d : ℕ) × ((i + (k + d)) % n ≡ j) × ((c : ℕ) → c < d → test ((i + (k + c)) % n) ≡ false)

FirstFrom-later :
    (n : ℕ) (test : ℕ → Bool) (i k : ℕ) (r : Option ℕ)
    → test ((i + k) % n) ≡ false
    → FirstFrom n test i (k + 1) r
    → FirstFrom n test i k r
FirstFrom-later n test i k none miss f = tt
FirstFrom-later n test i k (some j) miss (d, here, earlier) =
    let e : i + (k + suc d) ≡ i + (k + 1 + d) = omega arith in
    (suc d, rw e here, Found-shift n test i k d miss earlier)

find_seat-FirstFrom :
    (n : ℕ) (test : ℕ → Bool) (i k rounds : ℕ) → FirstFrom n test i k (find_seat n test i k rounds)
unfolding find_seat
find_seat-FirstFrom n test i k zero = tt
find_seat-FirstFrom n test i k (suc rounds) = elim (Bool-cases (test ((i + k) % n))) [
  | inl hit ↦
      let e : i + (k + 0) ≡ i + k = omega arith in
      rw (hit, find_seat) (0, rw e refl, λ c lt. absurd (omega arith))
  | inr miss ↦
      rw (miss, find_seat)
        (FirstFrom-later n test i k (find_seat n test i (k + 1) rounds) miss
          (find_seat-FirstFrom n test i (k + 1) rounds))
]

-- The seat that `_seek` finds is the first that is still to act, from `start` on.
pub seek-FirstFrom :
    (players : List Player) (need : List ℕ) (start : ℕ)
    → FirstFrom (length players) (λ j. mem j need) start 0 (seek players need start)
unfolding seek
seek-FirstFrom players need start =
    find_seat-FirstFrom (length players) (λ j. mem j need) start 0 (length players)

-- Every player's `idx` is the seat that it stands in.
abbrev pub Seated : List Player → Type 0
Seated players = (k : ℕ) (p : Player) → get_elem? players k ≡ some p → p.idx ≡ k

-- A player of the set that stands for seat `k`.
abbrev pub IdxWitness : (Player → Bool) → List Player → ℕ → Type 0
IdxWitness pred players k =
    (j : ℕ) × (p : Player) × (get_elem? players j ≡ some p) × (pred p ≡ true) × (p.idx ≡ k)

module _ (pred : Player → Bool) where
  pub mem-idx_where :
      (players : List Player) (k : ℕ) (p : Player)
      → get_elem? players k ≡ some p
      → pred p ≡ true
      → mem p.idx (idx_where pred players) ≡ true
  mem-idx_where [] k p h t = cc
  mem-idx_where (q ∷ players) zero p h t = ground (arith, ap pred {x = q} {y = p})
  mem-idx_where (q ∷ players) (suc k) p h t = ground (arith, mem-idx_where players k p h t)

  idx_where-later :
      (q : Player) (players : List Player) (k : ℕ)
      → IdxWitness pred players k
      → IdxWitness pred (q ∷ players) k
  idx_where-later q players k (j, p, at, t, e) = (suc j, p, at, t, e)

  pub idx_where-mem :
      (players : List Player) (k : ℕ)
      → mem k (idx_where pred players) ≡ true
      → IdxWitness pred players k
  idx_where-mem [] k h = cc
  idx_where-mem (q ∷ players) k h = elim (Bool-cases (pred q && (k == q.idx))) [
    | inl here ↦ (0, q, refl, ground arith, ground arith)
    | inr later ↦ idx_where-later q players k (idx_where-mem players k (ground arith))
  ]

-- A player of the table after seat `i` has changed by `f`.
pub modify-from :
    (i k : ℕ) (f : Player → Player) (players : List Player) (p : Player)
    → get_elem? (modify i f players) k ≡ some p
    → (old : Player) × (get_elem? players k ≡ some old) × (((k ≡ i) × (p ≡ f old)) ⊎ (p ≡ old))
modify-from zero k f [] p at = cc
modify-from (suc i) k f [] p at = cc
modify-from zero zero f (x ∷ players) p at = (x, refl, inl (refl, cc))
modify-from zero (suc k) f (x ∷ players) p at = (p, at, inr refl)
modify-from (suc i) zero f (x ∷ players) p at = (x, refl, inr cc)
modify-from (suc i) (suc k) f (x ∷ players) p at =
    let (old, was, which) = modify-from i k f players p at in (old, was, up which)
  where
    up : {A B : Type 0} → ((k ≡ i) × A) ⊎ B → ((suc k ≡ suc i) × A) ⊎ B
    up (inl (same, a)) = inl (ap suc same, a)
    up (inr b) = inr b

pub Seated-modify :
    (i : ℕ) (f : Player → Player) (players : List Player)
    → ((p : Player) → (f p).idx ≡ p.idx)
    → Seated players
    → Seated (modify i f players)
Seated-modify i f players keeps s k p at =
    let (old, was, which) = modify-from i k f players p at in
    let old_seat = s k old was in
    let kept = keeps old in
    elim which [ inl (same, e) ↦ rw (e, kept) old_seat | inr e ↦ rw e old_seat ]

-- Seat `i` becomes `f p`, where `p` stands there.
pub modify-const :
    (i : ℕ) (f : Player → Player) (players : List Player) (p : Player)
    → get_elem? players i ≡ some p
    → modify i (λ _. f p) players ≡ modify i f players
modify-const zero f [] p at = refl
modify-const (suc i) f [] p at = refl
modify-const zero f (x ∷ players) p at = let same : x ≡ p = cc in rw same
modify-const (suc i) f (x ∷ players) p at = ap (◌∷◌ x) (modify-const i f players p at)
