-- ===== src/Exporter/Counting.antt =====
-- exporter/exporter.go: countingChan, whose forwarder counts what a collector sends.
pub mod Ends
use pgxporter.Prelude.{
  ℕ, suc, ◌≤◌, ◌<◌, ◌≡◌, refl, sym, ap, ◌∙◌, ◌⊎◌, inl, inr, Bool, true, false, Option, none, some,
  List, [], ◌∷◌, ◌++◌, arith, length, length-append, append-nil, append_assoc,
}

-- countingChan between the collector, which has the metrics `todo` to send, its forwarder, which may
-- hold a metric, and the receiver of `dst`, an unbuffered channel, which may be at its receive: the
-- buffer of `in`, whether `in` is closed, what was received from `dst`, the count, and what `done`
-- holds.
pub record CountingChan (M : Type 0) : Type 0 where
  pub todo : List M
  pub buffer : List M
  pub closed : Bool
  pub held : Option M
  pub receiving : Bool
  pub dst : List M
  pub n : ℕ
  pub done : Option ℕ

-- make(chan prometheus.Metric, 64)
abbrev pub capacity : ℕ
capacity = 64

unfoldable pub new_counting_chan : {M : Type 0} → List M → CountingChan M
new_counting_chan todo = record {
  todo = todo;
  buffer = [];
  closed = false;
  held = none;
  receiving = false;
  dst = [];
  n = 0;
  done = none;
}

abbrev pub held_metrics : {M : Type 0} → Option M → List M
held_metrics none = []
held_metrics (some m) = m ∷ []

module _ {M : Type 0} where
  -- Steps of the collector, of the forwarder and of the receiver.
  pub data Step : CountingChan M → CountingChan M → Type 0 where
    -- c.in <- m, which waits while the buffer is full
    send :
        (c : CountingChan M) (m : M) (rest : List M)
        → c.todo ≡ m ∷ rest
        → c.closed ≡ false
        → length c.buffer < capacity
        → Step c (record c { todo = rest; buffer = c.buffer ++ m ∷ [] })
    -- the loop over `in` takes the next metric
    take :
        (c : CountingChan M) (m : M) (rest : List M)
        → c.buffer ≡ m ∷ rest
        → c.held ≡ none
        → c.done ≡ none
        → Step c (record c { buffer = rest; held = some m })
    -- dst <- m; n++, which waits until the receiver is at its receive
    forward :
        (c : CountingChan M) (m : M)
        → c.held ≡ some m
        → c.receiving ≡ true
        → Step c (record c { held = none; receiving = false; dst = c.dst ++ m ∷ []; n = suc c.n })
    -- the receiver comes to its next receive
    receive : (c : CountingChan M) → c.receiving ≡ false → Step c (record c { receiving = true })
    -- close(c.in), after Scrape has returned
    close :
        (c : CountingChan M) → c.todo ≡ [] → c.closed ≡ false → Step c (record c { closed = true })
    -- the loop over `in` ends, and c.done <- n
    finish :
        (c : CountingChan M)
        → c.buffer ≡ []
        → c.held ≡ none
        → c.closed ≡ true
        → c.done ≡ none
        → Step c (record c { done = some c.n })

  -- What a step puts into `in`.
  unfoldable pub input : {c d : CountingChan M} → Step c d → List M
  input (send c m rest t o s) = m ∷ []
  input (take c m rest b h n) = []
  input (forward c m h r) = []
  input (receive c r) = []
  input (close c t o) = []
  input (finish c b h o n) = []

  -- The states that are reached from a new channel, with what has been sent into it.
  pub data Reached : List M → CountingChan M → Type 0 where
    fresh : (todo : List M) → Reached [] (new_counting_chan todo)
    after :
        {sent : List M} {c d : CountingChan M}
        → Reached sent c
        → (s : Step c d) → Reached (sent ++ input s) d

  -- The forwarder has left its loop, having sent the count.
  pub record HasFinished (c : CountingChan M) : Type 0 where
    pub count : c.done ≡ some c.n
    pub buffer : c.buffer ≡ []
    pub held : c.held ≡ none
    pub closed : c.closed ≡ true

  pub record IsCounting (sent : List M) (c : CountingChan M) : Type 0 where
    pub all_there : c.dst ++ (held_metrics c.held ++ c.buffer) ≡ sent
    pub counted : c.n ≡ length c.dst
    pub bounded : length c.buffer ≤ capacity
    pub settled : (c.done ≡ none) ⊎ HasFinished c
    pub sent_all : c.closed ≡ true → c.todo ≡ []

  pub step-IsCounting :
      (sent : List M) {c d : CountingChan M} (s : Step c d)
      → IsCounting sent c
      → IsCounting (sent ++ input s) d
  unfolding input
  step-IsCounting sent (send c m rest t o s) q = record {
    all_there =
        ap (λ x. c.dst ++ x) (sym (append_assoc (held_metrics c.held) c.buffer (m ∷ [])))
        ∙ sym (append_assoc c.dst (held_metrics c.held ++ c.buffer) (m ∷ []))
        ∙ ap (λ x. x ++ m ∷ []) q.all_there;
    counted = q.counted;
    bounded = ground (arith, length-append c.buffer (m ∷ []));
    settled = elim q.settled [ inl e ↦ inl e | inr f ↦ absurd (ground (arith, f.closed, o)) ];
    sent_all = λ z. absurd (ground (arith, z, o));
  }
  step-IsCounting sent (take c m rest b h n) q = record {
    all_there =
        ap (λ x. c.dst ++ x) (sym b ∙ ap (λ y. held_metrics y ++ c.buffer) (sym h))
        ∙ q.all_there
        ∙ sym (append-nil sent);
    counted = q.counted;
    bounded = ground (arith, q.bounded, ap length b);
    settled = inl n;
    sent_all = q.sent_all;
  }
  step-IsCounting sent (forward c m h r) q = record {
    all_there =
        append_assoc c.dst (m ∷ []) c.buffer
        ∙ ap (λ y. c.dst ++ (held_metrics y ++ c.buffer)) (sym h)
        ∙ q.all_there
        ∙ sym (append-nil sent);
    counted = ground (arith, length-append c.dst (m ∷ []), q.counted);
    bounded = q.bounded;
    settled = elim q.settled [ inl e ↦ inl e | inr f ↦ absurd (cc (h, f.held)) ];
    sent_all = q.sent_all;
  }
  step-IsCounting sent (receive c r) q = record {
    all_there = q.all_there ∙ sym (append-nil sent);
    counted = q.counted;
    bounded = q.bounded;
    settled = elim q.settled [
      | inl e ↦ inl e
      | inr f ↦
          inr (record { count = f.count; buffer = f.buffer; held = f.held; closed = f.closed })
    ];
    sent_all = q.sent_all;
  }
  step-IsCounting sent (close c t o) q = record {
    all_there = q.all_there ∙ sym (append-nil sent);
    counted = q.counted;
    bounded = q.bounded;
    settled = elim q.settled [ inl e ↦ inl e | inr f ↦ absurd (ground (arith, f.closed, o)) ];
    sent_all = λ z. t;
  }
  step-IsCounting sent (finish c b h o n) q = record {
    all_there = q.all_there ∙ sym (append-nil sent);
    counted = q.counted;
    bounded = q.bounded;
    settled = inr (record { count = refl; buffer = b; held = h; closed = o });
    sent_all = q.sent_all;
  }

  pub reached-IsCounting : {sent : List M} {c : CountingChan M} → Reached sent c → IsCounting sent c
  unfolding new_counting_chan
  reached-IsCounting (fresh todo) = record {
    all_there = refl;
    counted = refl;
    bounded = ground arith;
    settled = inl refl;
    sent_all = λ z. cc z;
  }
  reached-IsCounting (after {sent} r s) = step-IsCounting sent s (reached-IsCounting r)

  pub finished-forwarded :
      (sent : List M) (c : CountingChan M)
      → IsCounting sent c
      → HasFinished c
      → (c.dst ≡ sent) × (c.n ≡ length sent)
  finished-forwarded sent c q f =
      let all : c.dst ≡ sent =
        sym (append-nil c.dst)
        ∙ ap (λ x. c.dst ++ x) (sym f.buffer ∙ ap (λ y. held_metrics y ++ c.buffer) (sym f.held))
        ∙ q.all_there in
      (all, q.counted ∙ ap length all)

  -- In every state that countingChan and its forwarder can reach, if close returns a count,
  -- everything sent into the channel has been forwarded, in its order, and the count is the number
  -- of metrics sent.
  pub counting_complete :
      (sent : List M) (c : CountingChan M) (k : ℕ)
      → Reached sent c
      → c.done ≡ some k
      → (c.dst ≡ sent) × (k ≡ length sent)
  counting_complete sent c k r h =
      let q = reached-IsCounting r in
      elim q.settled [
        | inl e ↦ cc (e, h)
        | inr f ↦
            let (all, n) = finished-forwarded sent c q f in
            let same_count : k ≡ c.n = cc (f.count, h) in (all, same_count ∙ n)
      ]
