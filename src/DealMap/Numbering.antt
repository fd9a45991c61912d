-- ===== src/DealMap/Numbering.antt =====
-- Theorems on the two card numberings.
use texas_holdem.Base.{
  ℕ, zero, suc, ◌+◌, ◌*◌, ◌/◌, ◌%◌, ◌<◌, ◌≡◌, refl, ap, true, some, ltb, get_elem?, range_from,
  arith, ok, ◌>>=◌,
}
use texas_holdem.Cards.{full_deck, deck_from}
use texas_holdem.DealMap.{elgamal_to_engine_index, engine_to_elgamal_index, card_label}

in_range : (idx : ℕ) → idx < 52 → ltb idx 52 ≡ true
in_range idx below = ground arith

elgamal-engine :
    (idx : ℕ) → idx < 52 → (elgamal_to_engine_index idx >>= engine_to_elgamal_index) ≡ ok idx
unfolding elgamal_to_engine_index engine_to_elgamal_index
elgamal-engine idx below =
    let inside : ltb (idx % 13 * 4 + idx / 13) 52 ≡ true = in_range _ (omega arith) in
    let back : (idx % 13 * 4 + idx / 13) % 4 * 13 + (idx % 13 * 4 + idx / 13) / 4 ≡ idx =
      omega arith in
    rw (in_range idx below) (rw inside (ap ok back))

engine-elgamal :
    (idx : ℕ) → idx < 52 → (engine_to_elgamal_index idx >>= elgamal_to_engine_index) ≡ ok idx
unfolding elgamal_to_engine_index engine_to_elgamal_index
engine-elgamal idx below =
    let inside : ltb (idx % 4 * 13 + idx / 4) 52 ≡ true = in_range _ (omega arith) in
    let back : (idx % 4 * 13 + idx / 4) % 13 * 4 + (idx % 4 * 13 + idx / 4) / 13 ≡ idx =
      omega arith in
    rw (in_range idx below) (rw inside (ap ok back))

-- The two translations of card indices are inverse to each other: neither raises on an index of the
-- deck, and each gives back the index that the other was given.
pub translations-inverse :
    (idx : ℕ)
    → idx < 52
    → ((elgamal_to_engine_index idx >>= engine_to_elgamal_index) ≡ ok idx)
      × ((engine_to_elgamal_index idx >>= elgamal_to_engine_index) ≡ ok idx)
translations-inverse idx below = (elgamal-engine idx below, engine-elgamal idx below)

suit_at :
    (v n suit : ℕ)
    → suit < 4
    → get_elem? (deck_from (range_from v (suc n))) suit ≡ some (record { v = v; s = suit })
suit_at v n zero below = refl
suit_at v n (suc zero) below = refl
suit_at v n (suc (suc zero)) below = refl
suit_at v n (suc (suc (suc zero))) below = refl
suit_at v n (suc (suc (suc (suc suit)))) below = absurd (omega arith)

card_at :
    (v n rank suit : ℕ)
    → rank < n
    → suit < 4
    → get_elem? (deck_from (range_from v n)) (rank * 4 + suit)
      ≡ some (record { v = v + rank; s = suit })
card_at v zero rank suit r s = absurd (omega arith)
card_at v (suc n) zero suit r s =
    let first : 0 * 4 + suit ≡ suit = omega arith in
    let same : v + 0 ≡ v = omega arith in rw (first, same) (suit_at v n suit s)
card_at v (suc n) (suc rank) suit r s =
    let later : suc rank * 4 + suit ≡ suc (suc (suc (suc (rank * 4 + suit)))) = omega arith in
    let same : v + suc rank ≡ suc v + rank = omega arith in
    rw (later, same) (card_at (suc v) n rank suit (omega arith) s)

-- The translation keeps the card: an index of the mental-poker deck has the label of its rank and
-- suit, and the engine has the card of that rank and suit, from the two on, at the translated index.
pub elgamal_to_engine_index-card :
    (idx : ℕ)
    → idx < 52
    → (at : ℕ) × (rank : ℕ) × (suit : ℕ) × (elgamal_to_engine_index idx ≡ ok at)
      × (card_label idx ≡ ok (rank, suit))
      × (get_elem? full_deck at ≡ some (record { v = 2 + rank; s = suit }))
unfolding elgamal_to_engine_index card_label full_deck
elgamal_to_engine_index-card idx below =
    let inside = in_range idx below in
    (
      idx % 13 * 4 + idx / 13,
      idx % 13,
      idx / 13,
      rw inside refl,
      rw inside refl,
      card_at 2 13 (idx % 13) (idx / 13) (omega arith) (omega arith),
    )
