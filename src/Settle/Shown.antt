-- ===== src/Settle/Shown.antt =====
-- Lemmas on step 6 of `settle`, the order of the showdown.
use texas_holdem.Base.{
  ℕ, zero, suc, ◌+◌, ◌%◌, ◌<◌, ◌≡◌, refl, sym, ap, subst, ◌∙◌, Bool, true, false, Option, none,
  some, List, [], ◌∷◌, map, ltb, ◌==◌, get_or, get_elem?, if◌then◌else◌, arith, Bool-cases, inl,
  inr, length, mem, ok, ==_refl,
}
use texas_holdem.Table.{Player, Engine, contested, is_contesting, holds_at, emit}
use texas_holdem.Table.Seats.{Seated, next_seat-some, mem-idx_where}
use texas_holdem.Evaluate.{Score}
use texas_holdem.Showdown.{
  Run, Hand, show_order, first_to_show, show_hands, must_show, raise_best, then_hand,
}
use texas_holdem.Showdown.Scores.{Scored, idxs}
use texas_holdem.Showdown.Winners.{Complete}
use texas_holdem.Settle.{hands_of, emit_hands, show_table}

holds_at-get_or :
    (players : List Player) (j : ℕ)
    → holds_at players is_contesting j ≡ get_or (map is_contesting players) j false
holds_at-get_or [] zero = refl
holds_at-get_or [] (suc j) = refl
holds_at-get_or (p ∷ players) zero = refl
holds_at-get_or (p ∷ players) (suc j) = holds_at-get_or players j

-- Players who stand as before are found in the same seats.
pub holds_at-same :
    (before after : List Player) (j : ℕ)
    → map is_contesting after ≡ map is_contesting before
    → holds_at after is_contesting j ≡ holds_at before is_contesting j
holds_at-same before after j same =
    holds_at-get_or after j
    ∙ ap (λ flags. get_or flags j false) same
    ∙ sym (holds_at-get_or before j)

-- A seat that contends has its place among the players that are left.
pub contending :
    (players : List Player) (j : ℕ)
    → Seated players
    → holds_at players is_contesting j ≡ true
    → mem j (idxs (contested players)) ≡ true
contending players j seated there = go (get_elem? players j) refl (holds_at-eq players j ∙ there)
  where
    stands : Option Player → Bool
    stands none = false
    stands (some p) = is_contesting p

    holds_at-eq : (ps : List Player) (k : ℕ) → stands (get_elem? ps k) ≡ holds_at ps is_contesting k
    holds_at-eq [] k = refl
    holds_at-eq (p ∷ ps) zero = refl
    holds_at-eq (p ∷ ps) (suc k) = holds_at-eq ps k

    go :
        (found : Option Player)
        → get_elem? players j ≡ found
        → stands found ≡ true
        → mem j (idxs (contested players)) ≡ true
    go none at on = cc
    go (some p) at on = rw (← seated j p at) (mem-idx_where is_contesting players j p at on)

show_order-contends :
    (players : List Player) (start k rounds j : ℕ)
    → mem j (show_order players start k rounds) ≡ true
    → holds_at players is_contesting j ≡ true
unfolding show_order
show_order-contends players start k zero j there = cc
show_order-contends players start k (suc rounds) j there =
    let seat = (start + k) % length players in
    elim (Bool-cases (holds_at players is_contesting seat)) [
      | inl on ↦
          here_or_later seat j (show_order players start (k + 1) rounds) on
            (rw (on, show_order) at there) (show_order-contends players start (k + 1) rounds j)
      | inr out ↦ show_order-contends players start (k + 1) rounds j (rw (out, show_order) at there)
    ]
  where
    here_or_later :
        (seat j : ℕ) (later : List ℕ)
        → holds_at players is_contesting seat ≡ true
        → mem j (seat ∷ later) ≡ true
        → (mem j later ≡ true → holds_at players is_contesting j ≡ true)
        → holds_at players is_contesting j ≡ true
    here_or_later seat j later on there rest = elim (Bool-cases (j == seat)) [
      | inl is ↦ let same : j ≡ seat = ground arith in rw same on
      | inr other ↦ rest (ground arith)
    ]

then_hand-some :
    (hand : Hand) (later : Option (List Hand))
    → (hands : List Hand) × (later ≡ some hands)
    → (hands : List Hand) × (then_hand hand later ≡ some hands)
then_hand-some hand later (hands, e) = (hand ∷ hands, rw e refl)

show_hands-some :
    (tabled : Bool) (winners : List ℕ) (scores : List (ℕ × Score)) (best : Option Score)
    (order : List ℕ)
    → ((j : ℕ) → mem j order ≡ true → Scored scores j)
    → (hands : List Hand) × (show_hands tabled winners scores best order ≡ some hands)
unfolding show_hands
show_hands-some tabled winners scores best [] scored = ([], refl)
show_hands-some tabled winners scores best (j ∷ order) scored =
    let (score, at) = scored j (ground (arith, ==_refl j)) in
    let shown = must_show tabled winners best j score in
    rw (at, show_hands)
      (then_hand-some (record { seat = j; score = score; shown = shown }) _
        (show_hands-some tabled winners scores (if shown then raise_best best score else best) order
          (λ k there. scored k (ground arith))))

emit_hands-players :
    (runs : List Run) (hands : List Hand) (e : Engine)
    → (emit_hands runs hands e).players ≡ e.players
unfolding emit_hands emit
emit_hands-players runs [] e = refl
emit_hands-players runs (h ∷ hands) e = emit_hands-players runs hands _

some_contending :
    (players : List Player)
    → 0 < length (contested players)
    → (s : ℕ) × (s < length players) × (holds_at players is_contesting s ≡ true)
some_contending [] some_left = absurd (omega arith)
some_contending (p ∷ players) some_left = elim (Bool-cases (is_contesting p)) [
  | inl on ↦ (0, omega arith, on)
  | inr out ↦
      let (s, inside, there) = some_contending players (rw out at some_left) in
      (suc s, omega (arith, inside), there)
]

first_to_show-some :
    (aggressor : Option ℕ) (tabled : Bool) (players : List Player) (button s : ℕ)
    → button < length players
    → s < length players
    → holds_at players is_contesting s ≡ true
    → (start : ℕ) × (first_to_show aggressor tabled players button ≡ some start)
unfolding first_to_show
first_to_show-some (some i) false players button s hb hs there = (i, refl)
first_to_show-some (some i) true players button s hb hs there =
    next_seat-some players button s is_contesting hb hs there
first_to_show-some none tabled players button s hb hs there =
    next_seat-some players button s is_contesting hb hs there

hands_of-ok :
    (tabled : Bool) (winners : List ℕ) (run : Run) (runs : List Run) (order : List ℕ)
    → ((j : ℕ) → mem j order ≡ true → Scored run.scores j)
    → (hands : List Hand) × (hands_of tabled winners (run ∷ runs) order ≡ ok hands)
unfolding hands_of
hands_of-ok tabled winners run runs order scored =
    let (hands, e) = show_hands-some tabled winners run.scores none order scored in
    (hands, rw e refl)

shows_from :
    (p q : Player) (left : List Player) (tabled : Bool) (winners : List ℕ) (runs : List Run)
    (e : Engine) (start : ℕ) (hands : List Hand)
    → first_to_show e.river_aggr tabled e.players e.button ≡ some start
    → hands_of tabled winners runs (show_order e.players start 0 (length e.players)) ≡ ok hands
    → show_table (p ∷ q ∷ left) tabled winners runs e
      ≡ ok (show_order e.players start 0 (length e.players), hands, emit_hands runs hands e)
unfolding show_table
shows_from p q left tabled winners runs e start hands begins shown =
    let several : ltb 1 (length (p ∷ q ∷ left)) ≡ true = ground arith in
    rw several (rw begins (rw shown refl))

-- A showdown after the players `left` of the table `before` have been scored, each in every run.
pub show_table-shows :
    (p q : Player) (left : List Player) (tabled : Bool) (winners : List ℕ) (runs : List Run)
    (before : List Player) (e : Engine)
    → contested before ≡ p ∷ q ∷ left
    → Seated before
    → map is_contesting e.players ≡ map is_contesting before
    → length e.players ≡ length before
    → e.button < length before
    → 0 < length runs
    → Complete (p ∷ q ∷ left) runs
    → (order : List ℕ) × (hands : List Hand) × (f : Engine) × (show_table
          (p ∷ q ∷ left)
          tabled
          winners
          runs
          e
        ≡ ok (order, hands, f))
      × (f.players ≡ e.players)
show_table-shows p q left tabled winners [] before e is seated stand same_length has_button some_run
      complete =
    absurd (omega arith)
show_table-shows p q left tabled winners (run ∷ runs) before e is seated stand same_length
      has_button some_run complete =
    let (s, inside, there) =
      some_contending before (omega (arith, ap (λ (ps : List Player). length ps) is)) in
    let (start, begins) =
      first_to_show-some e.river_aggr tabled e.players e.button s (omega arith) (omega arith)
        (holds_at-same before e.players s stand ∙ there) in
    let (first, found, scored) = complete 0 (omega arith) in
    let (hands, shown) =
      hands_of-ok tabled winners run runs (show_order e.players start 0 (length e.players))
        (λ j in_order.
          let on = show_order-contends e.players start 0 (length e.players) j in_order in
          let here =
            contending before j seated (sym (holds_at-same before e.players j stand) ∙ on) in
          let same : first ≡ run = cc in
          subst (λ (r : Run). Scored r.scores j) same
            (scored j (subst (λ (ps : List Player). mem j (idxs ps) ≡ true) is here))) in
    (
      show_order e.players start 0 (length e.players),
      hands,
      emit_hands (run ∷ runs) hands e,
      shows_from p q left tabled winners (run ∷ runs) e start hands begins shown,
      emit_hands-players (run ∷ runs) hands e,
    )
