-- ===== src/Cards/Dealing.antt =====
-- Theorems on `Deck.deal`.
use texas_holdem.Base.{
  ℕ, ◌+◌, ◌-◌, ◌≤◌, ◌≡◌, ap, sym, List, ltb, length, length-drop, total, total-append, take, drop,
  take-append-drop, Result, ok, err, ok-injective, arith, inl, inr, Bool-cases,
}
use texas_holdem.Cards.{Card, Error, too_few, deal}

-- What a deal of `n` cards is.
pub deal_inv :
    (n : ℕ) (cards out left : List Card)
    → deal n cards ≡ ok (out, left)
    → (n ≤ length cards)
      × (out ≡ drop (length cards - n) cards)
      × (left ≡ take (length cards - n) cards)
unfolding deal
deal_inv n cards out left h = elim (Bool-cases (ltb (length cards) n)) [
  | inl short ↦ absurd (refused (rw short at h))
  | inr fits ↦
      let same = ok-injective (rw fits at h) in
      (
        ground arith,
        sym (ap (λ (x : List Card × List Card). x.0) same),
        sym (ap (λ (x : List Card × List Card). x.1) same),
      )
]
  where
    refused : ◌≡◌ {A = Result Error (List Card × List Card)} (err too_few) (ok (out, left)) → ⊥
    refused e = cc

-- Dealing `n` cards gives `n` cards, and no card is lost or doubled by any measure of the cards.
pub deal-total :
    (m : Card → ℕ) (n : ℕ) (cards out left : List Card)
    → deal n cards ≡ ok (out, left)
    → (length out ≡ n) × (total m out + total m left ≡ total m cards)
deal-total m n cards out left h =
    let (fits, is_out, is_left) = deal_inv n cards out left h in
    let k = length cards - n in
    (
      rw is_out (omega (arith, length-drop k cards)),
      rw (is_out, is_left)
          (omega (
            arith,
            total-append m (take k cards) (drop k cards),
            ap (total m) (take-append-drop k cards),
          )),
    )
