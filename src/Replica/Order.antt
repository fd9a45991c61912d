-- ===== src/Replica/Order.antt =====
-- One message of a round that reaches a replica: early, late, repeated or in its turn.
use texas_holdem.Base.{
  length-Distinct, ℕ, suc, ◌+◌, ◌-◌, ◌≤◌, ◌<◌, ◌≡◌, refl, sym, ap, subst, ◌∙◌, Bool, true, false,
  ◌||◌, Option, none, some, List, [], ◌∷◌, ◌++◌, ltb, leb, ◌==◌, if◌then◌else◌, length, take,
  get_elem?, lt-get_elem?, arith, Bool-cases, inl, inr,
}
use texas_holdem.Replica.{Entry, Live, Replica}
use texas_holdem.Replica.Actions.{
  Verdict, applied, apply_now, get_pending, drain_pending, buffer, apply_next, apply_action,
  max_pending,
}
use texas_holdem.Replica.Buffer.{
  is_some, keys, get_pending-mem, get_pending-append, append-Distinct,
}
use texas_holdem.Replica.Script.{
  play, AllApply, play-next, Applied, Held, known, next-Applied, drain_pending-Drained,
}

module _ (script : List Entry) (r₀ : Replica) where
  -- What a message does to a replica that has applied `m` actions.
  pub record Took (m i : ℕ) (r r' : Replica) : Type 0 where
    pub upto : ℕ
    pub good : Applied script r₀ upto r'
    pub idle : get_pending (r₀.next_seq + upto) r'.pending ≡ none
    pub same_known :
        (j : ℕ) → known script r₀ upto r'.pending j ≡ (known script r₀ m r.pending j || (j == i))

  Took-none :
      (m i : ℕ) (r : Replica)
      → Applied script r₀ m r
      → get_pending (r₀.next_seq + m) r.pending ≡ none
      → known script r₀ m r.pending i ≡ true
      → Took m i r r
  Took-none m i r a idle already = record {
    upto = m;
    good = a;
    idle = idle;
    same_known = λ j. elim (Bool-cases (j == i)) [
      | inl is ↦
          let same : j ≡ i = ground arith in
          let there : known script r₀ m r.pending j ≡ true =
            ap (known script r₀ m r.pending) same ∙ already in
          ground arith
      | inr other ↦ ground arith
    ];
  }

  -- What waits is after the action whose turn it is.
  past-Held :
      (m : ℕ) (pending : List (ℕ × Entry))
      → Held script r₀ m pending
      → get_pending (r₀.next_seq + m) pending ≡ none
      → Held script r₀ (suc m) pending
  past-Held m pending held idle k x at =
      let (i, is, from, there) = held k x at in
      elim (Bool-cases (i == m)) [
        | inl same ↦
            let e : k ≡ r₀.next_seq + m = ground arith in
            absurd (never x (sym idle ∙ ap (λ (j : ℕ). get_pending j pending) (sym e) ∙ at))
        | inr other ↦ (i, is, ground arith, there)
      ]
    where
      never : (x : Entry) → ◌≡◌ {A = Option Entry} none (some x) → ⊥
      never x e = cc

  append-Held :
      (m i : ℕ) (x : Entry) (pending : List (ℕ × Entry))
      → Held script r₀ m pending
      → get_pending (r₀.next_seq + i) pending ≡ none
      → m ≤ i
      → get_elem? script i ≡ some x
      → Held script r₀ m (pending ++ (r₀.next_seq + i, x) ∷ [])
  append-Held m i x pending held fresh from there k y at =
      elim (Bool-cases (k == r₀.next_seq + i)) [
        | inl new ↦
            let same : some x ≡ some y =
              sym (get_pending-append k (r₀.next_seq + i) x pending fresh ∙ rw new refl) ∙ at in
            (i, ground arith, from, there ∙ same)
        | inr old ↦
            held k y
              (sym (get_pending-append k (r₀.next_seq + i) x pending fresh ∙ rw old refl) ∙ at)
      ]

  -- The buffer of a script of 64 actions at most never overflows.
  few_held :
      (m : ℕ) (r : Replica)
      → Applied script r₀ m r
      → get_pending (r₀.next_seq + m) r.pending ≡ none
      → m < length script
      → length r.pending < length script
  few_held m r a idle below =
      let few =
        length-Distinct (r₀.next_seq + suc m) (length script - suc m) (keys r.pending) a.distinct
          (λ k there.
            between k (get_pending k r.pending) refl (get_pending-mem k r.pending ∙ there)) in
      omega (arith, few, length-keys r.pending)
    where
      length-keys : (p : List (ℕ × Entry)) → length (keys p) ≡ length p
      length-keys [] = refl
      length-keys (x ∷ p) = ap suc (length-keys p)

      between :
          (k : ℕ) (found : Option Entry)
          → get_pending k r.pending ≡ found
          → is_some (get_pending k r.pending) ≡ true
          → (r₀.next_seq + suc m ≤ k) × (k < r₀.next_seq + suc m + (length script - suc m))
      between k none at on = absurd (never (sym (ap is_some at) ∙ on))
        where
          never : ◌≡◌ {A = Bool} false true → ⊥
          never e = cc
      between k (some x) at on =
          let (i, is, from, there) = past-Held m r.pending a.held idle k x at in
          let within = lt-get_elem? script i there in (omega arith, omega arith)

  buffered-Took :
      (m i : ℕ) (x : Entry) (r : Replica)
      → length script ≤ max_pending
      → Applied script r₀ m r
      → get_pending (r₀.next_seq + m) r.pending ≡ none
      → get_elem? script i ≡ some x
      → m < i
      → Took m i r (buffer (r₀.next_seq + i) x r).1
  unfolding buffer
  buffered-Took m i x r short a idle at later = go (get_pending (r₀.next_seq + i) r.pending) refl
    where
      waits :
          (j : ℕ)
          → get_pending (r₀.next_seq + j) (r.pending ++ (r₀.next_seq + i, x) ∷ []) ≡ (
              if r₀.next_seq + j == r₀.next_seq + i
              then some x
              else get_pending (r₀.next_seq + j) r.pending)
          → known script r₀ m (r.pending ++ (r₀.next_seq + i, x) ∷ []) j
            ≡ (known script r₀ m r.pending j || (j == i))
      waits j e = rw e (ground arith)

      go :
          (found : Option Entry)
          → get_pending (r₀.next_seq + i) r.pending ≡ found
          → Took m i r (buffer (r₀.next_seq + i) x r).1
      go (some old) there = rw (there, buffer) (Took-none m i r a idle (rw there (ground arith)))
      go none there =
          let within = lt-get_elem? script i at in
          let few = few_held m r a idle (omega arith) in
          let near : ltb max_pending (r₀.next_seq + i - r.next_seq) ≡ false =
            ground (arith, a.seq) in
          let room : leb max_pending (length r.pending) ≡ false = ground arith in
          let apart : (r₀.next_seq + m == r₀.next_seq + i) ≡ false = ground arith in
          rw (there, buffer)
            (rw (near, room)
              record {
                upto = m;
                good = record {
                  same_live = a.same_live;
                  seq = a.seq;
                  bound = a.bound;
                  held = append-Held m i x r.pending a.held there (omega arith) at;
                  distinct = append-Distinct (r₀.next_seq + i) x r.pending there a.distinct;
                  same_hand = a.same_hand;
                  same_total = a.same_total;
                  same_result = a.same_result;
                  same_holes = a.same_holes;
                };
                idle =
                    get_pending-append (r₀.next_seq + m) (r₀.next_seq + i) x r.pending there
                    ∙ rw apart idle;
                same_known = λ j.
                    waits j
                      (get_pending-append (r₀.next_seq + j) (r₀.next_seq + i) x r.pending there);
              })

  -- The action whose turn it is, and what waits after it.
  next-Took :
      (m : ℕ) (x : Entry) (r : Replica)
      → AllApply script r₀.live
      → Applied script r₀ m r
      → get_pending (r₀.next_seq + m) r.pending ≡ none
      → get_elem? script m ≡ some x
      → Took m m r (apply_next x r).1
  unfolding apply_next
  next-Took m x r all a idle at =
      let done = ap (apply_now x) a.same_live ∙ play-next script r₀.live m x all at in
      let verdict : (apply_now x r.live).0 ≡ applied = ap (λ (p : Verdict × Live). p.0) done in
      let same : (apply_now x r.live).1 ≡ play (take (suc m) script) r₀.live =
        ap (λ (p : Verdict × Live). p.1) done in
      let stepped : Replica = record r {
        live = play (take (suc m) script) r₀.live;
        next_seq = r.next_seq + 1;
      } in
      let d =
        drain_pending-Drained script r₀ (length r.pending) (suc m) stepped all
          (next-Applied script r₀ m r x r.pending a at (past-Held m r.pending a.held idle)
            a.distinct)
          (omega arith) in
      rw (verdict, apply_next)
        (subst
          (λ (l : Live).
            Took m m r
              (drain_pending (length r.pending) (record r { live = l; next_seq = r.next_seq + 1 })))
          (sym same)
          (record {
            upto = d.upto;
            good = d.good;
            idle = d.idle;
            same_known = λ j. d.same_known j ∙ ground arith;
          }))

  pub action-Took :
      (m i : ℕ) (x : Entry) (r : Replica)
      → length script ≤ max_pending
      → AllApply script r₀.live
      → Applied script r₀ m r
      → get_pending (r₀.next_seq + m) r.pending ≡ none
      → get_elem? script i ≡ some x
      → Took m i r (apply_action (r₀.next_seq + i) x r).1
  unfolding apply_action
  action-Took m i x r short all a idle at = elim (Bool-cases (ltb (r₀.next_seq + i) r.next_seq)) [
    | inl past ↦ rw past (Took-none m i r a idle (ground (arith, a.seq)))
    | inr not_past ↦ elim (Bool-cases (ltb r.next_seq (r₀.next_seq + i))) [
      | inl ahead ↦
          rw (not_past, ahead) (buffered-Took m i x r short a idle at (ground (arith, a.seq)))
      | inr now ↦
          let same : i ≡ m = ground (arith, a.seq) in
          rw (not_past, now)
            (subst (λ (j : ℕ). Took m j r (apply_next x r).1) (sym same)
              (next-Took m x r all a idle (ap (get_elem? script) (sym same) ∙ at)))
    ]
  ]
