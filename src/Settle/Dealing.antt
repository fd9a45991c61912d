-- ===== src/Settle/Dealing.antt =====
-- Lemmas on the hands that players make of the cards of a table.
use texas_holdem.Base.{
  ℕ, ◌≤◌, ◌≡◌, refl, sym, subst, ◌&&◌, List, [], ◌∷◌, ◌++◌, map, leb, ltb, ◌==◌, if◌then◌else◌,
  arith, length-append, total, total-append, All,
}
use texas_holdem.Cards.{Card}
use texas_holdem.Table.{Player, Engine}
use texas_holdem.Evaluate.Counts.{IsCard, count_rank}
use texas_holdem.Showdown.Scores.{IsHand}
use texas_holdem.Showdown.Winners.{HandsOn}
use texas_holdem.Settle.RunOuts.{IsRunOut}
use texas_holdem.Settle.Returned.{hand_of}

abbrev of_rank : ℕ → Card → ℕ
of_rank v c = if c.v == v then 1 else 0

count_rank-total : (v : ℕ) (cards : List Card) → count_rank cards v ≡ total (of_rank v) cards
count_rank-total v [] = refl
count_rank-total v (c ∷ cards) = ground (arith, count_rank-total v cards)

-- 1 for what is no card of the deck.
abbrev pub foreign : Card → ℕ
foreign c = if leb 2 c.v && leb c.v 14 && ltb c.s 4 then 0 else 1

IsCard-foreign : (c : Card) → IsCard c → foreign c ≡ 0
IsCard-foreign c is = ground (arith, is.least, is.most, is.suit)

foreign-IsCard : (c : Card) → foreign c ≡ 0 → IsCard c
foreign-IsCard c h = record { least = ground arith; most = ground arith; suit = ground arith }

none_foreign : (cards : List Card) → All IsCard cards → total foreign cards ≡ 0
none_foreign [] all = refl
none_foreign (c ∷ cards) (is, all) = omega (arith, IsCard-foreign c is, none_foreign cards all)

pub from_total : (cards : List Card) → total foreign cards ≡ 0 → All IsCard cards
from_total [] h = tt
from_total (c ∷ cards) h =
    (foreign-IsCard c (omega (arith, h)), from_total cards (omega (arith, h)))

IsHand-part :
    (e : Engine) (hole cards board : List Card)
    → IsRunOut e cards board
    → IsHand (hole ++ (e.board ++ cards))
    → IsHand (hole ++ board)
IsHand-part e hole cards board r hand = record {
  deck =
      from_total (hole ++ board)
        (omega (arith, more foreign, none_foreign (hole ++ (e.board ++ cards)) hand.deck));
  five = omega (arith, length-append hole board, r.five);
  four_suits = λ v. omega (
    arith,
    more (of_rank v),
    hand.four_suits v,
    count_rank-total v (hole ++ board),
    count_rank-total v (hole ++ (e.board ++ cards)),
  );
}
  where
    more : (m : Card → ℕ) → total m (hole ++ board) ≤ total m (hole ++ (e.board ++ cards))
    more m = omega (
      arith,
      total-append m hole board,
      total-append m hole (e.board ++ cards),
      total-append m e.board cards,
      r.part m,
    )

-- Every one of the players `alive` can make a hand of the table's cards.
abbrev pub HandsOf : List Player → List Card → Type 0
HandsOf alive all = All (λ (p : Player). IsHand (p.hole ++ all)) alive

HandsOf-part :
    (e : Engine) (cards board : List Card) (alive : List Player)
    → IsRunOut e cards board
    → HandsOf alive (e.board ++ cards)
    → HandsOn alive board
HandsOf-part e cards board [] r hands = tt
HandsOf-part e cards board (p ∷ alive) r (hand, hands) =
    (IsHand-part e p.hole cards board r hand, HandsOf-part e cards board alive r hands)

pub dealt_boards :
    (e : Engine) (cards : List Card) (alive : List Player) (boards : List (List Card))
    → All (IsRunOut e cards) boards
    → HandsOf alive (e.board ++ cards)
    → All (HandsOn alive) boards
dealt_boards e cards alive [] runs hands = tt
dealt_boards e cards alive (board ∷ boards) (r, runs) hands =
    (HandsOf-part e cards board alive r hands, dealt_boards e cards alive boards runs hands)

abbrev HandsIn : List Card → List (ℕ × List Card) → Type 0
HandsIn all [] = Unit
HandsIn all ((i, hole) ∷ hands) = IsHand (hole ++ all) × HandsIn all hands

to_holes :
    (alive : List Player) (all : List Card) → HandsOf alive all → HandsIn all (map hand_of alive)
to_holes [] all hands = tt
to_holes (p ∷ alive) all (hand, hands) = (hand, to_holes alive all hands)

from_holes :
    (alive : List Player) (all : List Card) → HandsIn all (map hand_of alive) → HandsOf alive all
from_holes [] all hands = tt
from_holes (p ∷ alive) all (hand, hands) = (hand, from_holes alive all hands)

-- Only the hole cards matter.
pub HandsOf-same :
    (alive others : List Player) (all : List Card)
    → map hand_of others ≡ map hand_of alive
    → HandsOf alive all
    → HandsOf others all
HandsOf-same alive others all same hands =
    from_holes others all (subst (HandsIn all) (sym same) (to_holes alive all hands))
