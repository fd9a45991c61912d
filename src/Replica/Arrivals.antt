-- ===== src/Replica/Arrivals.antt =====
-- A replica that receives the actions of a betting round as messages: late, early and repeated ones.
use texas_holdem.Base.{
  Distinct, ℕ, zero, suc, ◌+◌, ◌≤◌, ◌<◌, ◌≡◌, refl, sym, ap, subst, ◌∙◌, Bool, true, false, ◌||◌,
  Option, none, some, List, [], ◌∷◌, ltb, ◌==◌, if◌then◌else◌, length, take, get_elem?,
  lt-get_elem?, mem, All, arith, Bool-cases, ==_refl, inl, inr,
}
use texas_holdem.Replica.{Entry, Replica}
use texas_holdem.Replica.Actions.{get_pending, apply_action, max_pending}
use texas_holdem.Replica.Buffer.{keys}
use texas_holdem.Replica.Script.{play, AllApply, Applied, Held, known}
use texas_holdem.Replica.Order.{Took, action-Took}
use texas_holdem.Replica.Showdown.{Digest, state_digest}

-- Messages received one after the other.
unfoldable pub receive : List (ℕ × Entry) → Replica → Replica
receive [] r = r
receive ((seq, x) ∷ messages) r = receive messages (apply_action seq x r).1

-- How many of the first `n` numbers hold of `p` before the first that does not.
unfoldable pub leading : ℕ → (ℕ → Bool) → ℕ
leading zero p = 0
leading (suc n) p = let rest = leading n (λ i. p (suc i)) in if p 0 then suc rest else 0

-- Action `i` of a script is among the messages, when the first one has number `base`.
abbrev pub has_come : ℕ → List (ℕ × Entry) → ℕ → Bool
has_come base messages i = mem (base + i) (keys messages)

take-length {ℓ} : {A : Type ℓ} (xs : List A) → take (length xs) xs ≡ xs
take-length [] = refl
take-length (x ∷ xs) = ap (λ ys. x ∷ ys) (take-length xs)

leading-reach :
    (n : ℕ) (p : ℕ → Bool) (m : ℕ)
    → m ≤ n
    → ((j : ℕ) → j < m → p j ≡ true)
    → p m ≡ false
    → m ≡ leading n p
unfolding leading
leading-reach zero p m in_bound before after = omega arith
leading-reach (suc n) p zero in_bound before after = rw after refl
leading-reach (suc n) p (suc m) in_bound before after = rw (before 0 (omega arith)) (
    ap suc (
      leading-reach n (λ i. p (suc i)) m (omega arith) (λ j below. before (suc j) (omega arith))
        after))

module _ (script : List Entry) (r₀ : Replica) where
  -- A message of the script: its number counts on from the replica's next one.
  abbrev pub OfScript : ℕ × Entry → Type 0
  OfScript (seq, x) = (i : ℕ) × (seq ≡ r₀.next_seq + i) × (get_elem? script i ≡ some x)

  -- A replica after messages, when it had applied `m` actions and `p` says which were known.
  pub record Came (p : ℕ → Bool) (r : Replica) : Type 0 where
    pub upto : ℕ
    pub good : Applied script r₀ upto r
    pub idle : get_pending (r₀.next_seq + upto) r.pending ≡ none
    pub same_known : (j : ℕ) → known script r₀ upto r.pending j ≡ p j

  receive-Came :
      (messages : List (ℕ × Entry)) (p : ℕ → Bool) (r : Replica)
      → length script ≤ max_pending
      → AllApply script r₀.live
      → Came p r
      → All OfScript messages
      → Came (λ j. p j || has_come r₀.next_seq messages j) (receive messages r)
  unfolding receive
  receive-Came [] p r short all c of = record {
    upto = c.upto;
    good = c.good;
    idle = c.idle;
    same_known = λ j. ground (arith, c.same_known j);
  }
  receive-Came ((seq, x) ∷ messages) p r short all c ((i, is, at), of) =
      let t : Took script r₀ c.upto i r (apply_action seq x r).1 =
        subst (λ (k : ℕ). Took script r₀ c.upto i r (apply_action k x r).1) (sym is)
          (action-Took script r₀ c.upto i x r short all c.good c.idle at) in
      let d =
        receive-Came messages (λ j. p j || (j == i)) (apply_action seq x r).1 short all
          (record {
            upto = t.upto;
            good = t.good;
            idle = t.idle;
            same_known = λ j. t.same_known j ∙ ap (λ (b : Bool). b || (j == i)) (c.same_known j);
          })
          of in
      record {
        upto = d.upto;
        good = d.good;
        idle = d.idle;
        same_known = λ j. ground (arith, d.same_known j);
      }

  start-Came : r₀.pending ≡ [] → Came (λ j. false) r₀
  unfolding play
  start-Came clear = record {
    upto = 0;
    good = record {
      same_live = refl;
      seq = omega arith;
      bound = omega arith;
      held = λ k x at. absurd (never x (sym (ap (get_pending k) clear) ∙ at));
      distinct = subst (λ (w : List (ℕ × Entry)). Distinct (keys w)) (sym clear) tt;
      same_hand = refl;
      same_total = refl;
      same_result = refl;
      same_holes = refl;
    };
    idle = ap (get_pending (r₀.next_seq + 0)) clear;
    same_known = λ j. ap (λ (w : List (ℕ × Entry)). known script r₀ 0 w j) clear ∙ ground arith;
  }
    where
      never : (x : Entry) → ◌≡◌ {A = Option Entry} none (some x) → ⊥
      never x e = cc

  -- The messages of a script that come to a replica with nothing waiting.
  receive-Received :
      (messages : List (ℕ × Entry))
      → length script ≤ max_pending
      → AllApply script r₀.live
      → r₀.pending ≡ []
      → All OfScript messages
      → Came (has_come r₀.next_seq messages) (receive messages r₀)
  receive-Received messages short all clear of =
      let c = receive-Came messages (λ j. false) r₀ short all (start-Came clear) of in
      record { upto = c.upto; good = c.good; idle = c.idle; same_known = λ j. c.same_known j }

  -- What has been applied is as far as the messages go without a gap.
  upto-leading :
      (messages : List (ℕ × Entry)) (r : Replica)
      → (c : Came (has_come r₀.next_seq messages) r)
      → c.upto ≡ leading (length script) (has_come r₀.next_seq messages)
  upto-leading messages r c =
      leading-reach (length script) (has_come r₀.next_seq messages) c.upto c.good.bound
        (λ j below. sym (c.same_known j) ∙ ground arith)
        (sym (c.same_known c.upto) ∙ ground (arith, c.idle))

  -- A replica refines the script: let at most 64 actions be accepted when they are played in order,
  -- with numbers that count on from the replica's next one, and let nothing wait. Whatever messages
  -- of the script come, in whatever order and however often, the replica is where the actions that
  -- have come without a gap, played in order, take it, and expects the number after them.
  pub receive-leading :
      (messages : List (ℕ × Entry))
      → length script ≤ max_pending
      → AllApply script r₀.live
      → r₀.pending ≡ []
      → All OfScript messages
      → let n = leading (length script) (has_come r₀.next_seq messages) in
        ((receive messages r₀).live ≡ play (take n script) r₀.live)
        × ((receive messages r₀).next_seq ≡ r₀.next_seq + n)
  receive-leading messages short all clear of =
      let c = receive-Received messages short all clear of in
      let e = upto-leading messages (receive messages r₀) c in
      (
        c.good.same_live ∙ ap (λ (n : ℕ). play (take n script) r₀.live) e,
        c.good.seq ∙ ap (λ (n : ℕ). r₀.next_seq + n) e,
      )

  digest_at : ℕ → Digest
  digest_at m =
      state_digest (record r₀ { live = play (take m script) r₀.live; next_seq = r₀.next_seq + m })

  Applied-digest : (m : ℕ) (r : Replica) → Applied script r₀ m r → state_digest r ≡ digest_at m
  unfolding state_digest digest_at
  Applied-digest m r a = λ i. state_digest (record r {
    live = a.same_live i;
    next_seq = a.seq i;
    hand_no = a.same_hand i;
    result = a.same_result i;
  })

  held-none :
      (m : ℕ) (pending : List (ℕ × Entry))
      → Held script r₀ m pending
      → length script ≤ m
      → pending ≡ []
  held-none m [] held past = refl
  held-none m ((k, x) ∷ pending) held past =
      let (i, is, from, there) = held k x (rw (==_refl k) refl) in
      absurd (omega (arith, lt-get_elem? script i there))

  -- Two peers that start a betting round in the same state agree: if the messages that have come to
  -- them have the same numbers, in whatever order and however often each, their state digests are
  -- equal. The messages are of one script of at most 64 actions, accepted when played in order, and
  -- nothing waits at first.
  pub receive-agree :
      (messages others : List (ℕ × Entry))
      → length script ≤ max_pending
      → AllApply script r₀.live
      → r₀.pending ≡ []
      → All OfScript messages
      → All OfScript others
      → ((k : ℕ) → mem k (keys messages) ≡ mem k (keys others))
      → state_digest (receive messages r₀) ≡ state_digest (receive others r₀)
  receive-agree messages others short all clear of of' same =
      let c = receive-Received messages short all clear of in
      let d = receive-Received others short all clear of' in
      let e : c.upto ≡ d.upto =
        upto-leading messages (receive messages r₀) c
        ∙ (λ i. leading (length script) (λ j. same (r₀.next_seq + j) i))
        ∙ sym (upto-leading others (receive others r₀) d) in
      Applied-digest c.upto (receive messages r₀) c.good
      ∙ ap digest_at e
      ∙ sym (Applied-digest d.upto (receive others r₀) d.good)

  -- A replica does not get stuck: when every action of the script has come, in whatever order, all of
  -- them have been applied in order, the next number is the one after the script, and nothing waits.
  -- The script has at most 64 actions, all accepted when played in order, and nothing waits at first.
  pub receive-whole :
      (messages : List (ℕ × Entry))
      → length script ≤ max_pending
      → AllApply script r₀.live
      → r₀.pending ≡ []
      → All OfScript messages
      → ((i : ℕ) → i < length script → has_come r₀.next_seq messages i ≡ true)
      → ((receive messages r₀).live ≡ play script r₀.live)
        × ((receive messages r₀).next_seq ≡ r₀.next_seq + length script)
        × ((receive messages r₀).pending ≡ [])
  receive-whole messages short all clear of there =
      let c = receive-Received messages short all clear of in
      let e : c.upto ≡ length script = elim (Bool-cases (ltb c.upto (length script))) [
        | inl below ↦ absurd (ground (arith, c.same_known c.upto, c.idle, there c.upto))
        | inr at ↦ ground (arith, c.good.bound)
      ] in
      (
        c.good.same_live
            ∙ ap (λ (n : ℕ). play (take n script) r₀.live) e
            ∙ ap (λ (xs : List Entry). play xs r₀.live) (take-length script),
        c.good.seq ∙ ap (λ (n : ℕ). r₀.next_seq + n) e,
        held-none c.upto (receive messages r₀).pending c.good.held (omega (arith, e)),
      )
