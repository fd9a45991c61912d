-- ===== src/Evaluate/Ordering.antt =====
-- Lemmas on the order of scores, which is that of tuples in Python.
use texas_holdem.Base.{ℕ, ◌≡◌, refl, true, false, ◌||◌, List, [], ◌∷◌, arith}
use texas_holdem.Cards.{same_list}
use texas_holdem.Evaluate.{Score, lex_lt, score_lt, same_score}

lex_lt_trans : (a b c : List ℕ) → lex_lt a b ≡ true → lex_lt b c ≡ true → lex_lt a c ≡ true
unfolding lex_lt
lex_lt_trans a [] c h k = cc
lex_lt_trans a (y ∷ b) [] h k = cc
lex_lt_trans [] (y ∷ b) (z ∷ c) h k = refl
lex_lt_trans (x ∷ a) (y ∷ b) (z ∷ c) h k = ground (arith, lex_lt_trans a b c)

lex_lt_irrefl : (a : List ℕ) → lex_lt a a ≡ false
unfolding lex_lt
lex_lt_irrefl [] = refl
lex_lt_irrefl (x ∷ a) = ground (arith, lex_lt_irrefl a)

pub score_lt_trans :
    (a b c : Score) → score_lt a b ≡ true → score_lt b c ≡ true → score_lt a c ≡ true
unfolding score_lt
score_lt_trans a b c h k = ground (arith, lex_lt_trans a.tiebreak b.tiebreak c.tiebreak)

pub score_lt_irrefl : (a : Score) → score_lt a a ≡ false
unfolding score_lt
score_lt_irrefl a = ground (arith, lex_lt_irrefl a.tiebreak)

lex_lt-cotrans : (a b c : List ℕ) → lex_lt a c ≡ true → (lex_lt a b || lex_lt b c) ≡ true
unfolding lex_lt
lex_lt-cotrans a b [] h = cc
lex_lt-cotrans [] [] (z ∷ c) h = refl
lex_lt-cotrans [] (y ∷ b) (z ∷ c) h = refl
lex_lt-cotrans (x ∷ a) [] (z ∷ c) h = ground arith
lex_lt-cotrans (x ∷ a) (y ∷ b) (z ∷ c) h = ground (arith, lex_lt-cotrans a b c)

pub score_lt-cotrans : (a b c : Score) → score_lt a c ≡ true → (score_lt a b || score_lt b c) ≡ true
unfolding score_lt
score_lt-cotrans a b c h = ground (arith, lex_lt-cotrans a.tiebreak b.tiebreak c.tiebreak)

same_list_refl : (a : List ℕ) → same_list a a ≡ true
same_list_refl [] = refl
same_list_refl (x ∷ a) = ground (arith, same_list_refl a)

pub same_score_refl : (a : Score) → same_score a a ≡ true
same_score_refl a = ground (arith, same_list_refl a.tiebreak)

lex_lt-total : (a b : List ℕ) → lex_lt a b ≡ false → lex_lt b a ≡ false → same_list a b ≡ true
unfolding lex_lt
lex_lt-total [] [] h k = refl
lex_lt-total [] (y ∷ b) h k = cc
lex_lt-total (x ∷ a) [] h k = cc
lex_lt-total (x ∷ a) (y ∷ b) h k = ground (arith, lex_lt-total a b)

-- Two scores neither of which is lower are the same.
pub score_lt-total :
    (a b : Score) → score_lt a b ≡ false → score_lt b a ≡ false → same_score a b ≡ true
unfolding score_lt
score_lt-total a b h k = ground (arith, lex_lt-total a.tiebreak b.tiebreak)

same_list-eq : (a b : List ℕ) → same_list a b ≡ true → a ≡ b
same_list-eq [] [] h = refl
same_list-eq [] (y ∷ b) h = cc
same_list-eq (x ∷ a) [] h = cc
same_list-eq (x ∷ a) (y ∷ b) h = ground (arith, same_list-eq a b)

pub same_score-eq : (a b : Score) → same_score a b ≡ true → a ≡ b
same_score-eq a b h = ground (arith, same_list-eq a.tiebreak b.tiebreak)
