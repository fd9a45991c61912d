-- ===== src/Positions/Advance.antt =====
-- Lemmas on `_advance_positions` and what it changes.
use texas_holdem.Base.{
  ℕ, zero, suc, ◌+◌, ◌%◌, ◌≡◌, refl, ◌∙◌, subst, Bool, true, false, ◌&&◌, not, Option, none, some,
  List, ltb, ◌==◌, if◌then◌else◌, length, length-modify, get_elem?, keep, modify, total,
  total-modify, Result, ok, or_raise, >>=-eq-ok, ok-injective, inl, inr, Bool-cases,
}
use texas_holdem.Table.{Player, Engine, next_seat}
use texas_holdem.Table.Seats.{Seated, Seated-modify}
use texas_holdem.Positions.{
  Fault, no_seat, blind_eligible, is_dealt, scan_blind, place, first_positions, first_other,
  reached, miss_small, or_keep, later_positions, advance_positions,
}

-- The same seats with the same stacks.
pub record Sits (before after : List Player) : Type 0 where
  pub same_length : length after ≡ length before
  pub stays_seated : Seated before → Seated after
  pub stacks : total (λ (p : Player). p.stack) after ≡ total (λ (p : Player). p.stack) before

Sits-refl : (players : List Player) → Sits players players
Sits-refl players = record { same_length = refl; stays_seated = λ s. s; stacks = refl }

Sits-trans : {p q r : List Player} → Sits p q → Sits q r → Sits p r
Sits-trans a b = record {
  same_length = b.same_length ∙ a.same_length;
  stays_seated = λ s. b.stays_seated (a.stays_seated s);
  stacks = b.stacks ∙ a.stacks;
}

modify-Sits :
    (i : ℕ) (f : Player → Player) (players : List Player)
    → ((p : Player) → ((f p).stack ≡ p.stack) × ((f p).idx ≡ p.idx))
    → Sits players (modify i f players)
modify-Sits i f players keeps = record {
  same_length = length-modify i f players;
  stays_seated = Seated-modify i f players (λ p. (keeps p).1);
  stacks = total-modify (λ (p : Player). p.stack) f (λ p. (keeps p).0) i players;
}

mark-Sits :
    (test : Bool) (i : ℕ) (players : List Player)
    → Sits players (if test then modify i (λ p. record p { owes_bb = true }) players else players)
mark-Sits true i players =
    modify-Sits i (λ p. record p { owes_bb = true }) players (λ p. (refl, refl))
mark-Sits false i players = Sits-refl players

miss_small-keeps :
    (out : Bool) (p : Player)
    → ((miss_small out p).stack ≡ p.stack) × ((miss_small out p).idx ≡ p.idx)
miss_small-keeps out p = elim (Bool-cases (ltb 0 p.stack && p.sitting_out && not out)) [
  | inl due ↦ rw due (refl, refl)
  | inr paid ↦ rw paid (refl, refl)
]

scan_blind-Sits :
    (out : Bool) (n prev k rounds : ℕ) (players : List Player)
    → Sits players (scan_blind out n prev k rounds players).1
unfolding scan_blind
scan_blind-Sits out n prev k zero players = Sits-refl players
scan_blind-Sits out n prev k (suc rounds) players =
    seat (λ ps. scan_blind-Sits out n prev (k + 1) rounds ps) (get_elem? players ((prev + k) % n))
  where
    Later : Type 0
    Later = (ps : List Player) → Sits ps (scan_blind out n prev (k + 1) rounds ps).1

    skipped :
        (q : Player) (eligible : Bool) (later : Later)
        → Sits players
            (elim eligible as (λ _. Option ℕ × List Player) [
              | true ↦ (some ((prev + k) % n), players)
              | false ↦ scan_blind out n prev (k + 1) rounds (
                  if ltb 0 q.stack && q.sitting_out
                  then modify ((prev + k) % n) (λ p. record p { owes_bb = true }) players
                  else players)
            ]).1
    skipped q true later = Sits-refl players
    skipped q false later =
        Sits-trans (mark-Sits (ltb 0 q.stack && q.sitting_out) ((prev + k) % n) players) (later _)

    seat :
        (later : Later) (found : Option Player)
        → Sits players
            (elim found as (λ _. Option ℕ × List Player) [
              | none ↦ (none, players)
              | some q ↦ elim (blind_eligible out q) [
                | true ↦ (some ((prev + k) % n), players)
                | false ↦ scan_blind out n prev (k + 1) rounds (
                    if ltb 0 q.stack && q.sitting_out
                    then modify ((prev + k) % n) (λ p. record p { owes_bb = true }) players
                    else players)
              ]
            ]).1
    seat later none = Sits-refl players
    seat later (some q) = skipped q (blind_eligible out q) later

-- What `_advance_positions` keeps.
pub record Advances (e f : Engine) : Type 0 where
  pub sits : Sits e.players f.players
  pub same_config : f.config ≡ e.config

place-Advances :
    (e f : Engine) (players : List Player) (button : ℕ) (sb bb : Option ℕ)
    → Sits e.players players
    → ◌≡◌ {A = Result Fault Engine} (ok (place e players button sb bb)) (ok f)
    → Advances e f
place-Advances e f players button sb bb sits h =
    subst (Advances e) (ok-injective h) (record { sits = sits; same_config = refl })

first_positions-Advances : (e f : Engine) → first_positions e ≡ ok f → Advances e f
unfolding first_positions
first_positions-Advances e f h =
    let dealt = is_dealt e.deal_sitting_out in
    let (button, e_button, h₁) =
      >>=-eq-ok (or_raise (next_seat e.players e.button dealt) no_seat) _ h in
    elim (Bool-cases (length (keep dealt e.players) == 2)) [
      | inl two ↦
          place-Advances e f e.players button (some button) (next_seat e.players button dealt)
            (Sits-refl e.players) (rw two at h₁)
      | inr more ↦
          let (sb, e_sb, done) =
            >>=-eq-ok (or_raise (next_seat e.players button dealt) no_seat) _ (rw more at h₁) in
          place-Advances e f e.players button (some sb) (next_seat e.players sb dealt)
            (Sits-refl e.players) done
    ]

later_positions-Advances : (e f : Engine) (prev : ℕ) → later_positions e prev ≡ ok f → Advances e f
unfolding later_positions
later_positions-Advances e f prev h =
    let out = e.deal_sitting_out in
    let scan = scan_blind out (length e.players) prev 1 (length e.players) e.players in
    let (new_bb, found, h₁) = >>=-eq-ok (or_raise scan.0 no_seat) _ h in
    let players = modify new_bb reached scan.1 in
    let moved : Sits e.players players =
      Sits-trans (scan_blind-Sits out (length e.players) prev 1 (length e.players) e.players)
        (modify-Sits new_bb reached scan.1 (λ p. (refl, refl))) in
    elim (Bool-cases (length (keep (is_dealt out) players) == 2)) [
      | inl two ↦
          let (other, e_other, done) =
            >>=-eq-ok (or_raise (first_other new_bb (keep (is_dealt out) players)) no_seat) _
              (rw two at h₁) in
          place-Advances e f players other (some other) (some new_bb) moved done
      | inr more ↦
          place-Advances e f (modify prev (miss_small out) players) (or_keep e.sb_seat e.button)
            (some prev) (some new_bb)
            (Sits-trans moved (modify-Sits prev (miss_small out) players (miss_small-keeps out)))
            (rw more at h₁)
    ]

pub advance_positions-Advances : (e f : Engine) → advance_positions e ≡ ok f → Advances e f
unfolding advance_positions
advance_positions-Advances e f h = go e.bb_seat h
  where
    go :
        (bb_seat : Option ℕ)
        → elim bb_seat as (λ _. Result Fault Engine) [
          | none ↦ first_positions e
          | some prev ↦ later_positions e prev
        ]
          ≡ ok f
        → Advances e f
    go none g = first_positions-Advances e f g
    go (some prev) g = later_positions-Advances e f prev g
