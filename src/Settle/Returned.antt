-- ===== src/Settle/Returned.antt =====
-- Lemmas on step 1 of `settle`, the uncalled bet.
use texas_holdem.Base.{
  ℕ, zero, suc, ◌≡◌, refl, ap, Option, none, some, List, [], ◌∷◌, map, arith, Bool-cases, inl, inr,
  length, length-map, length-modify, get_or, get_elem?, get_elem?-lt, modify, total,
  total-modify_at,
}
use texas_holdem.Cards.{Card}
use texas_holdem.Table.{Player, Engine, contested, is_contesting, emit}
use texas_holdem.Table.Seats.{Seated, Seated-modify}
use texas_holdem.Betting.Chips.{chips}
use texas_holdem.Pots.{uncalled}
use texas_holdem.Pots.Refund.{IsTopGap, uncalled-IsTopGap}
use texas_holdem.Settle.{refunded, live_stakes, give_refund}

abbrev pub hand_of : Player → ℕ × List Card
hand_of p = (p.idx, p.hole)

pub record Returned (e r : Engine) : Type 0 where
  pub money : total chips r.players ≡ total chips e.players
  pub seated : Seated e.players → Seated r.players
  pub hands : map hand_of (contested r.players) ≡ map hand_of (contested e.players)
  pub same_length : length r.players ≡ length e.players
  pub same_deck : r.deck ≡ e.deck
  pub same_board : r.board ≡ e.board
  pub same_street : r.street ≡ e.street
  pub same_button : r.button ≡ e.button

contested-modify :
    (f : Player → Player)
    → ((p : Player) → is_contesting (f p) ≡ is_contesting p)
    → ((p : Player) → hand_of (f p) ≡ hand_of p)
    → (i : ℕ) (players : List Player)
    → map hand_of (contested (modify i f players)) ≡ map hand_of (contested players)
contested-modify f stands hand zero [] = refl
contested-modify f stands hand zero (p ∷ players) = elim (Bool-cases (is_contesting p)) [
  | inl on ↦ rw (stands p, on) (λ i. hand p i ∷ map hand_of (contested players))
  | inr out ↦ rw (stands p, out) refl
]
contested-modify f stands hand (suc i) [] = refl
contested-modify f stands hand (suc i) (p ∷ players) =
    let later = contested-modify f stands hand i players in
    elim (Bool-cases (is_contesting p)) [
      | inl on ↦ rw on (ap (◌∷◌ (hand_of p)) later)
      | inr out ↦ rw out later
    ]

stake_at :
    (players : List Player) (i : ℕ) (p : Player)
    → get_elem? players i ≡ some p
    → get_or (live_stakes players) i 0 ≡ p.total_live
stake_at [] i p at = cc
stake_at (q ∷ players) zero p at = let same : q ≡ p = cc in rw same refl
stake_at (q ∷ players) (suc i) p at = stake_at players i p at

pub give_refund-Returned :
    (e : Engine) → Returned e (give_refund (uncalled (live_stakes e.players)) e)
unfolding give_refund emit
give_refund-Returned e =
    go (uncalled (live_stakes e.players)) (uncalled-IsTopGap (live_stakes e.players))
  where
    go :
        (refund : Option (ℕ × ℕ))
        → IsTopGap (live_stakes e.players) refund
        → Returned e (give_refund refund e)
    go none gap = record {
      money = refl;
      seated = λ s. s;
      hands = refl;
      same_length = refl;
      same_deck = refl;
      same_board = refl;
      same_street = refl;
      same_button = refl;
    }
    go (some (i, back)) (inside, positive, enough, rest) =
        let (p, at) =
          get_elem?-lt e.players i
            (omega (arith, length-map (λ (p : Player). p.total_live) e.players)) in
        record {
          money = omega (
            arith,
            total-modify_at chips (refunded back) i e.players p at,
            stake_at e.players i p at,
          );
          seated = Seated-modify i (refunded back) e.players (λ q. refl);
          hands = contested-modify (refunded back) (λ q. refl) (λ q. refl) i e.players;
          same_length = length-modify i (refunded back) e.players;
          same_deck = refl;
          same_board = refl;
          same_street = refl;
          same_button = refl;
        }
