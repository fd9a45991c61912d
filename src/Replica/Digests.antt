-- ===== src/Replica/Digests.antt =====
-- What `state_digest` does not see.
use texas_holdem.Base.{ℕ, ◌≡◌, refl, ap, ◌∙◌, Option, List, [], ◌∷◌, map-modify, ok}
use texas_holdem.Cards.{Card}
use texas_holdem.Replica.{Replica, with_hole, put_hole, set_own_hole}
use texas_holdem.Replica.Showdown.{digest_player, put_holes, set_all_holes, state_digest}
use texas_holdem.Replica.Calls.{set_own_hole_inv, set_all_holes_inv}

put_hole-digest :
    (seat : ℕ) (hole : List Card) (r : Replica)
    → state_digest (put_hole seat hole r) ≡ state_digest r
unfolding state_digest
put_hole-digest seat hole r = λ i. record (state_digest r) {
  players = map-modify digest_player (with_hole hole) (λ p. refl) seat r.engine.players i;
}

put_holes-digest :
    (holes : List (ℕ × List Card)) (r : Replica) → state_digest (put_holes holes r) ≡ state_digest r
unfolding put_holes
put_holes-digest [] r = refl
put_holes-digest ((seat, hole) ∷ holes) r =
    put_holes-digest holes (put_hole seat hole r) ∙ put_hole-digest seat hole r

-- The digest does not depend on hole cards: neither the recovery of a seat's own cards nor the cards
-- that the audit reveals change it.
pub holes-digest :
    (r f g : Replica) (seat : ℕ) (cards : List (Option Card))
    (holes : List (ℕ × List (Option Card)))
    → set_own_hole seat cards r ≡ ok f
    → set_all_holes holes f ≡ ok g
    → (state_digest f ≡ state_digest r) × (state_digest g ≡ state_digest r)
holes-digest r f g seat cards holes own all =
    let (hole, checked, is) = set_own_hole_inv seat cards r f own in
    let (shown, good, is') = set_all_holes_inv holes f g all in
    let first = ap state_digest is ∙ put_hole-digest seat hole r in
    (first, ap state_digest is' ∙ put_holes-digest shown f ∙ first)
