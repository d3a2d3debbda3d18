-- ===== src/BufRing/Driver/Tracks.antt =====
-- buf_ring/test.c: the steps of the program keep track of the messages.
use benchamel.Base.{
  ℕ, ◌+◌, ◌<◌, ◌≤◌, ◌≡◌, ◌≢◌, ap, sym, ◌∙◌, true, false, Option, none, some, arith, Bool-cases, inl,
  inr,
}
use mathlib.Core.Path.{subst}
use native.Mathlib.Decide.{dec_lt, ℕ_discrete}
use benchamel.BufRing.Threads.{
  update, Pc, idle, enq, enq_claimed, deq, deq_claimed, deq_loaded, dequeued,
}
use benchamel.BufRing.Driver.{message}
use benchamel.BufRing.Driver.Invariant.{
  unsent, is_early, received, Tracks, message_unique, unsent-is_early,
}

module _ {n : ℕ} {pc : ℕ → Pc} {log : ℕ → ℕ} {claims : ℕ} {taken : ℕ → Option ℕ}
    {round consumed : ℕ → ℕ} (v : Tracks n pc log claims taken round consumed) (i : ℕ) where
  pub active : pc i ≢ idle → i < n
  active ne = elim (dec_lt i n) [ yes lt ↦ lt | no ge ↦ absurd (ne (v.few i (omega (arith, ge)))) ]

  -- A step of a thread that neither takes up a message nor hands one on.
  pub quiet-Tracks :
      (p : Pc)
      → pc i ≢ idle
      → p ≢ idle
      → ((b : ℕ) → unsent p ≡ some b → unsent (pc i) ≡ some b)
      → (is_early p ≡ true → is_early (pc i) ≡ true)
      → received p ≡ received (pc i)
      → Tracks n (update pc i p) log claims taken round consumed
  quiet-Tracks p ne ne' keep early same = record {
    few = λ j le. ground (arith, v.few j le, ne);
    start = λ j q. ground (arith, v.start j, q, ne');
    own = λ j b q. ground (arith, keep b, v.own j b, q);
    sent = λ t lt.
        let (r, j, a, b, c, d) = v.sent t lt in (r, j, a, b, c, λ q. d (ground (arith, early, q)));
    distinct = v.distinct;
    from_ring = λ j b q. v.from_ring j b (ground (arith, same, q));
    one_receives =
        λ j l b q r. v.one_receives j l b (ground (arith, same, q)) (ground (arith, same, r));
    counted = λ b lt. let w = v.counted b lt in (w.0, w.1, λ j q. w.2 j (ground (arith, same, q)));
  }

  -- A thread takes up the message of round `r`, which it has not sent.
  pub send-Tracks :
      (r : ℕ)
      → i < n
      → (pc i ≡ idle → r ≡ 0)
      → (round i ≤ r)
      → (is_early (pc i) ≡ false → round i < r)
      → Tracks n (update pc i (enq (message n r i))) log claims taken (update round i r) consumed
  send-Tracks r lt at_start le late = record {
    few = λ j ge. ground (arith, v.few j ge, ge, lt);
    start = λ j q. ground (arith, v.start j, q);
    own = λ j b q. ground (arith, v.own j b, q);
    sent = λ t before.
        let (x, j, a, b, c, d) = v.sent t before in
        (
          x,
          j,
          a,
          b,
          ground (arith, le, c),
          λ q. elim (Bool-cases (is_early (pc i))) [
            | inl early ↦ ground (arith, early, d, c, le, q)
            | inr other ↦ ground (arith, late other, d, c, le, q)
          ],
        );
    distinct = v.distinct;
    from_ring = λ j b q. v.from_ring j b (ground (arith, q));
    one_receives = λ j l b q x. v.one_receives j l b (ground (arith, q)) (ground (arith, x));
    counted =
        λ b before. let w = v.counted b before in (w.0, w.1, λ j q. w.2 j (ground (arith, q)));
  }

  -- A thread counts what it has received.
  pub consume-Tracks :
      (b : ℕ)
      → pc i ≡ dequeued (some b)
      → Tracks n (update pc i deq) log claims taken round (update consumed b (consumed b + 1))
  consume-Tracks b e = record {
    few = λ j ge. ground (arith, v.few j ge, e);
    start = λ j q. ground (arith, v.start j, q);
    own = λ j x q. ground (arith, v.own j x, q);
    sent = λ t before.
        let (x, j, a, y, c, d) = v.sent t before in (x, j, a, y, c, λ q. d (ground (arith, q)));
    distinct = v.distinct;
    from_ring = λ j x q. v.from_ring j x (ground (arith, q));
    one_receives = λ j l x q y. v.one_receives j l x (ground (arith, q)) (ground (arith, y));
    counted = λ x before. elim (ℕ_discrete x b) [
      | yes same ↦ (
        elim (ℕ_discrete (consumed b) 0) [
          | yes none_yet ↦ ground (arith, none_yet, same)
          | no some_ ↦ absurd ((v.counted b (omega (arith, some_))).2 i (ap received e))
        ],
        subst (λ y. (t : ℕ) × (taken t ≡ some y)) (sym same) (v.from_ring i b (ap received e)),
        λ j q. elim (ℕ_discrete i j) [
          | yes mine ↦ ground (arith, mine, q)
          | no other ↦ other (v.one_receives i j b (ap received e) (ground (arith, other, q, same)))
        ],
      )
      | no other ↦
          let w = v.counted x (ground (arith, other, before)) in
          (ground (arith, other, w.0), w.1, λ j q. w.2 j (ground (arith, q)))
    ];
  }

  never_sent : (b : ℕ) → unsent (pc i) ≡ some b → (t : ℕ) → t < claims → log t ≢ b
  never_sent b e t lt q =
      let (x, j, small, put, c, d) = v.sent t lt in
      let mine = v.own i b e in
      let early = unsent-is_early (pc i) b e in
      let (same, round_same) =
        message_unique n x j (round i) i small (active (λ z. cc (z, e))) (sym put ∙ (q ∙ mine)) in
      let before = d (ap (λ k. is_early (pc k)) same ∙ early) in
      omega (arith, before, round_same, ap round same)

  -- A thread claims a cell for its message.
  pub claim-Tracks :
      (b h nx : ℕ)
      → unsent (pc i) ≡ some b
      → Tracks n
          (update pc i (enq_claimed b h nx))
          (update log claims b)
          (claims + 1)
          taken
          round
          consumed
  claim-Tracks b h nx e = record {
    few = λ j ge. ground (arith, v.few j ge, e);
    start = λ j q. ground (arith, v.start j, q);
    own = λ j x q. ground (arith, v.own j x, q);
    sent = λ t before. elim (ℕ_discrete t claims) [
      | yes last ↦ (
        round i,
        i,
        active (λ z. cc (z, e)),
        ground (arith, last, v.own i b e),
        omega arith,
        λ q. ground (arith, q),
      )
      | no old ↦
          let (x, j, a, y, c, d) = v.sent t (omega (arith, before, old)) in
          (x, j, a, ground (arith, old, y), c, λ q. d (ground (arith, q)))
    ];
    distinct = λ t u lt lt' q. elim (ℕ_discrete t claims) [
      | yes t_last ↦ elim (ℕ_discrete u claims) [
        | yes u_last ↦ omega (arith, t_last, u_last)
        | no u_old ↦
            absurd (never_sent b e u (omega (arith, lt', u_old)) (ground (arith, q, t_last, u_old)))
      ]
      | no t_old ↦ elim (ℕ_discrete u claims) [
        | yes u_last ↦
            absurd (never_sent b e t (omega (arith, lt, t_old)) (ground (arith, q, t_old, u_last)))
        | no u_old ↦
            v.distinct t u (omega (arith, lt, t_old)) (omega (arith, lt', u_old))
              (ground (arith, q, t_old, u_old))
      ]
    ];
    from_ring = λ j x q. v.from_ring j x (ground (arith, q));
    one_receives = λ j l x q y. v.one_receives j l x (ground (arith, q)) (ground (arith, y));
    counted =
        λ x before. let w = v.counted x before in (w.0, w.1, λ j q. w.2 j (ground (arith, q)));
  }

  -- A thread reads its cell out, which nobody has done before.
  module _ (b h nx : ℕ) (e : pc i ≡ deq_claimed h nx) (lt : h < claims) (put : log h ≡ b)
      (free : taken h ≡ none)
      (read : (t c : ℕ) → taken t ≡ some c → (log t ≡ c) × (t < claims)) where
    unread : (t : ℕ) → taken t ≢ some b
    unread t q =
        let (same_log, small) = read t b q in
        let same = v.distinct t h small lt (same_log ∙ sym put) in
        cc (sym q ∙ (ap taken same ∙ free))

    unreceived : (j : ℕ) → received (pc j) ≢ some b
    unreceived j q = let (t, w) = v.from_ring j b q in unread t w

    kept_taken :
        (x : ℕ) → (t : ℕ) × (taken t ≡ some x) → (t : ℕ) × (update taken h (some b) t ≡ some x)
    kept_taken x (t, w) = elim (ℕ_discrete h t) [
      | yes same ↦ absurd (cc (sym w ∙ (ap taken (sym same) ∙ free)))
      | no other ↦ (t, ground (arith, other, w))
    ]

    pub load-Tracks :
        Tracks n
          (update pc i (deq_loaded h nx b))
          log
          claims
          (update taken h (some b))
          round
          consumed
    load-Tracks = record {
      few = λ j ge. ground (arith, v.few j ge, e);
      start = λ j q. ground (arith, v.start j, q);
      own = λ j x q. ground (arith, v.own j x, q);
      sent = λ t before.
          let (x, j, a, y, c, d) = v.sent t before in (x, j, a, y, c, λ q. d (ground (arith, q)));
      distinct = v.distinct;
      from_ring = λ j x q. elim (ℕ_discrete i j) [
        | yes mine ↦ (h, ground (arith, mine, q))
        | no other ↦ kept_taken x (v.from_ring j x (ground (arith, other, q)))
      ];
      one_receives = λ j l x q y. elim (ℕ_discrete i j) [
        | yes mine ↦ elim (ℕ_discrete i l) [
          | yes mine' ↦ omega (arith, mine, mine')
          | no other ↦ absurd (unreceived l (ground (arith, mine, other, q, y)))
        ]
        | no other ↦ elim (ℕ_discrete i l) [
          | yes mine ↦ absurd (unreceived j (ground (arith, mine, other, q, y)))
          | no other' ↦ v.one_receives j l x (ground (arith, other, q)) (ground (arith, other', y))
        ]
      ];
      counted = λ x before.
          let w = v.counted x before in
          (
            w.0,
            kept_taken x w.1,
            λ j q. elim (ℕ_discrete i j) [
              | yes mine ↦ unread w.1.0 (w.1.1 ∙ ground (arith, mine, q))
              | no other ↦ w.2 j (ground (arith, other, q))
            ],
          );
    }
