-- ===== src/Replica/Script.antt =====
-- The actions of a betting round in order, and the replicas that have applied a part of them.
use texas_holdem.Base.{
  Distinct, ℕ, zero, suc, ◌+◌, ◌≤◌, ◌≡◌, refl, sym, ap, subst, ◌∙◌, Bool, false, ◌||◌, Option, none,
  some, List, [], ◌∷◌, ltb, ◌==◌, length, take, get_elem?, lt-get_elem?, arith, Bool-cases, inl,
  inr,
}
use texas_holdem.Replica.{Entry, Live, Replica}
use texas_holdem.Replica.Actions.{Verdict, applied, apply_now, get_pending, remove, drain_pending}
use texas_holdem.Replica.Buffer.{
  is_some, keys, remove-Distinct, get_pending-remove_ne, get_pending-remove_self, length-remove,
}

-- A script played in order.
unfoldable pub play : List Entry → Live → Live
play [] l = l
play (x ∷ script) l = play script (apply_now x l).1

-- Every action of the script is accepted in its turn.
abbrev pub AllApply : List Entry → Live → Type 0
AllApply [] l = Unit
AllApply (x ∷ script) l = ((apply_now x l).0 ≡ applied) × AllApply script (apply_now x l).1

pub play-next :
    (script : List Entry) (l : Live) (m : ℕ) (x : Entry)
    → AllApply script l
    → get_elem? script m ≡ some x
    → apply_now x (play (take m script) l) ≡ (applied, play (take (suc m) script) l)
unfolding play
play-next [] l m x all at = cc
play-next (y ∷ script) l zero x (first, all) at =
    let same : y ≡ x = cc in
    subst (λ (z : Entry). apply_now z l ≡ (applied, (apply_now y l).1)) same
      (λ i. (first i, (apply_now y l).1))
play-next (y ∷ script) l (suc m) x (first, all) at = play-next script (apply_now y l).1 m x all at

-- A replica after its buffered action has been applied.
abbrev popped : Live → Replica → Replica
popped l r = record r { live = l; pending = remove r.next_seq r.pending; next_seq = r.next_seq + 1 }

drain_pending-popped :
    (fuel : ℕ) (r : Replica) (x : Entry) (l : Live)
    → get_pending r.next_seq r.pending ≡ some x
    → apply_now x r.live ≡ (applied, l)
    → drain_pending (suc fuel) r ≡ drain_pending fuel (popped l r)
unfolding drain_pending
drain_pending-popped fuel r x l at done =
    let verdict : (apply_now x r.live).0 ≡ applied = ap (λ (p : Verdict × Live). p.0) done in
    let same : (apply_now x r.live).1 ≡ l = ap (λ (p : Verdict × Live). p.1) done in
    rw (at, drain_pending)
      (rw (verdict, drain_pending) (ap (λ (now : Live). drain_pending fuel (popped now r)) same))

drain_pending-idle :
    (fuel : ℕ) (r : Replica) → get_pending r.next_seq r.pending ≡ none → drain_pending fuel r ≡ r
unfolding drain_pending
drain_pending-idle zero r at = refl
drain_pending-idle (suc fuel) r at = rw (at, drain_pending) refl

empty : (k : ℕ) (p : List (ℕ × Entry)) → length p ≤ 0 → get_pending k p ≡ none
empty k [] h = refl
empty k (x ∷ p) h = absurd (omega arith)

module _ (script : List Entry) (r₀ : Replica) where
  -- What waits is of the script, and not before action `m`.
  abbrev pub Held : ℕ → List (ℕ × Entry) → Type 0
  Held m pending =
      (k : ℕ) (x : Entry)
      → get_pending k pending ≡ some x
      → (i : ℕ) × (k ≡ r₀.next_seq + i) × (m ≤ i) × (get_elem? script i ≡ some x)

  -- A replica that started as `r₀` and has applied the first `m` actions of the script.
  pub record Applied (m : ℕ) (r : Replica) : Type 0 where
    pub same_live : r.live ≡ play (take m script) r₀.live
    pub seq : r.next_seq ≡ r₀.next_seq + m
    pub bound : m ≤ length script
    pub held : Held m r.pending
    pub distinct : Distinct (keys r.pending)
    pub same_hand : r.hand_no ≡ r₀.hand_no
    pub same_total : r.start_total ≡ r₀.start_total
    pub same_result : r.result ≡ r₀.result
    pub same_holes : r.real_holes ≡ r₀.real_holes

  -- Action `i` has been applied or waits.
  abbrev pub known : ℕ → List (ℕ × Entry) → ℕ → Bool
  known m pending i = ltb i m || is_some (get_pending (r₀.next_seq + i) pending)

  pub record Drained (m : ℕ) (pending : List (ℕ × Entry)) (r : Replica) : Type 0 where
    pub upto : ℕ
    pub more : m ≤ upto
    pub good : Applied upto r
    pub idle : get_pending (r₀.next_seq + upto) r.pending ≡ none
    pub same_known : (i : ℕ) → known upto r.pending i ≡ known m pending i

  popped-Held :
      (m : ℕ) (pending : List (ℕ × Entry))
      → Distinct (keys pending)
      → Held m pending
      → Held (suc m) (remove (r₀.next_seq + m) pending)
  popped-Held m pending distinct held k x at = elim (Bool-cases (k == r₀.next_seq + m)) [
    | inl is ↦
        let same : k ≡ r₀.next_seq + m = ground arith in
        let gone = get_pending-remove_self (r₀.next_seq + m) pending distinct in
        absurd (
          absent (get_pending (r₀.next_seq + m) (remove (r₀.next_seq + m) pending)) gone
            (subst (λ (j : ℕ). get_pending j (remove (r₀.next_seq + m) pending) ≡ some x) same at))
    | inr other ↦
        let (i, is, from, there) =
          held k x (sym (get_pending-remove_ne k (r₀.next_seq + m) pending other) ∙ at) in
        (i, is, ground arith, there)
  ]
    where
      absent : (o : Option Entry) → is_some o ≡ false → o ≡ some x → ⊥
      absent none h e = cc
      absent (some y) h e = cc

  popped-known :
      (m : ℕ) (pending : List (ℕ × Entry)) (x : Entry) (i : ℕ)
      → Distinct (keys pending)
      → get_pending (r₀.next_seq + m) pending ≡ some x
      → known (suc m) (remove (r₀.next_seq + m) pending) i ≡ known m pending i
  popped-known m pending x i distinct at = elim (Bool-cases (i == m)) [
    | inl is ↦ let same : i ≡ m = ground arith in rw (same, at) (ground arith)
    | inr other ↦
        let apart : (r₀.next_seq + i == r₀.next_seq + m) ≡ false = ground arith in
        rw (get_pending-remove_ne (r₀.next_seq + i) (r₀.next_seq + m) pending apart) (ground arith)
  ]

  -- One more action applied, with what waits after it.
  pub next-Applied :
      (m : ℕ) (r : Replica) (x : Entry) (pending : List (ℕ × Entry))
      → Applied m r
      → get_elem? script m ≡ some x
      → Held (suc m) pending
      → Distinct (keys pending)
      → Applied (suc m) (record r {
        live = play (take (suc m) script) r₀.live;
        pending = pending;
        next_seq = r.next_seq + 1;
      })
  next-Applied m r x pending a turn held distinct = record {
    same_live = refl;
    seq = omega (arith, a.seq);
    bound = omega (arith, lt-get_elem? script m turn);
    held = held;
    distinct = distinct;
    same_hand = a.same_hand;
    same_total = a.same_total;
    same_result = a.same_result;
    same_holes = a.same_holes;
  }

  stays :
      (fuel m : ℕ) (r : Replica)
      → Applied m r
      → get_pending r.next_seq r.pending ≡ none
      → Drained m r.pending (drain_pending fuel r)
  stays fuel m r a at = subst (Drained m r.pending) (sym (drain_pending-idle fuel r at)) (record {
    upto = m;
    more = omega arith;
    good = a;
    idle = ap (λ (k : ℕ). get_pending k r.pending) (sym a.seq) ∙ at;
    same_known = λ i. refl;
  })

  pub drain_pending-Drained :
      (fuel m : ℕ) (r : Replica)
      → AllApply script r₀.live
      → Applied m r
      → length r.pending ≤ fuel
      → Drained m r.pending (drain_pending fuel r)
  drain_pending-Drained zero m r all a enough = stays zero m r a (empty r.next_seq r.pending enough)
  drain_pending-Drained (suc fuel) m r all a enough =
      go (get_pending r.next_seq r.pending) refl
        (λ next b few. drain_pending-Drained fuel (suc m) next all b few)
    where
      go :
          (found : Option Entry)
          → get_pending r.next_seq r.pending ≡ found
          → ((next : Replica)
              → Applied (suc m) next
              → length next.pending ≤ fuel
              → Drained (suc m) next.pending (drain_pending fuel next))
          → Drained m r.pending (drain_pending (suc fuel) r)
      go none at later = stays (suc fuel) m r a at
      go (some x) at later =
          let here : get_pending (r₀.next_seq + m) r.pending ≡ some x =
            ap (λ (k : ℕ). get_pending k r.pending) (sym a.seq) ∙ at in
          let (i, is, from, there) = a.held (r₀.next_seq + m) x here in
          let same : i ≡ m = omega arith in
          let turn : get_elem? script m ≡ some x =
            subst (λ (j : ℕ). get_elem? script j ≡ some x) same there in
          let done = ap (apply_now x) a.same_live ∙ play-next script r₀.live m x all turn in
          let b =
            next-Applied m r x (remove r.next_seq r.pending) a turn
              (subst (λ (k : ℕ). Held (suc m) (remove k r.pending)) (sym a.seq)
                (popped-Held m r.pending a.distinct a.held))
              (remove-Distinct r.next_seq r.pending a.distinct) in
          let d =
            later (popped (play (take (suc m) script) r₀.live) r) b
              (omega (arith, length-remove r.next_seq r.pending x at)) in
          subst (Drained m r.pending)
            (sym (drain_pending-popped fuel r x (play (take (suc m) script) r₀.live) at done))
            (record {
              upto = d.upto;
              more = omega (arith, d.more);
              good = d.good;
              idle = d.idle;
              same_known = λ j.
                  d.same_known j
                  ∙ ap (λ (k : ℕ). known (suc m) (remove k r.pending) j) a.seq
                  ∙ popped-known m r.pending x j a.distinct here;
            })
