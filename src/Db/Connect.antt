-- ===== src/Db/Connect.antt =====
-- exporter/db/db.go: the loop of New over MaxConnectionRetries.
use pgxporter.Prelude.{
  ℕ, suc, zero, ◌+◌, ◌≤◌, ◌<◌, String, ◌≡◌, refl, ap, subst, ◌∙◌, Bool, true, false, Option, none,
  some, arith, if◌then◌else◌,
}
use pgxporter.Prelude.Int.{ℤ, pos, negsuc}
use pgxporter.Collectors.{Fetched}
use pgxporter.Db.{
  Opts, Attempt, opened, refused, client, error, is_zero, is_minus_one, goes_on, waits, new_client,
  last_error, retry, new,
}

-- The attempts from `i` on, as many as `n`, fail with an error that is not that of the context.
abbrev pub AreRefused : (ℕ → Attempt) → ℕ → ℕ → Type 0
AreRefused attempts i n = (j : ℕ) → j < n → (e : String) × (attempts (i + j) ≡ refused e)

AreRefused-head :
    (attempts : ℕ → Attempt) (i n : ℕ)
    → AreRefused attempts i (suc n)
    → (e : String) × (attempts i ≡ refused e)
AreRefused-head attempts i n h =
    subst (λ k. (e : String) × (attempts k ≡ refused e)) (ground arith) (h 0 (ground arith))

AreRefused-tail :
    (attempts : ℕ → Attempt) (i n : ℕ)
    → AreRefused attempts i (suc n)
    → AreRefused attempts (suc i) n
AreRefused-tail attempts i n h j k =
    subst (λ l. (e : String) × (attempts l ≡ refused e)) (ground arith) (h (suc j) (ground arith))

goes_on-pos : (i m : ℕ) → i ≤ m → goes_on i (pos m) ≡ true
unfolding goes_on is_minus_one
goes_on-pos i m h = ground arith

stops-pos : (i m : ℕ) → m < i → goes_on i (pos m) ≡ false
unfolding goes_on is_minus_one
stops-pos i m h = ground arith

waits-pos : (i m : ℕ) → i < m → waits i (pos m) ≡ true
unfolding waits is_zero
waits-pos i zero h = ground arith
waits-pos i (suc m) h = ground arith

waits-last : (m : ℕ) → waits m (pos m) ≡ false
unfolding waits is_zero
waits-last m = ground arith

module _ (opts : Opts) (attempts : ℕ → Attempt) where
  abbrev max : ℤ
  max = opts.max_connection_retries

  retry-refused :
      (fuel i : ℕ) (e : String) (err : Option String) (sleeps : ℕ)
      → goes_on i max ≡ true
      → attempts i ≡ refused e
      → retry opts attempts (suc fuel) i err sleeps
        ≡ retry opts attempts fuel (suc i) (some e) (if waits i max then suc sleeps else sleeps)
  unfolding retry
  retry-refused fuel i e err sleeps h a = rw (h, a) refl

  retry-opened :
      (fuel i : ℕ) (answer : Fetched ℤ) (err : Option String) (sleeps : ℕ)
      → goes_on i max ≡ true
      → attempts i ≡ opened answer
      → retry opts attempts (suc fuel) i err sleeps
        ≡ some (record { result = client (new_client opts answer); sleeps = sleeps })
  unfolding retry
  retry-opened fuel i answer err sleeps h a = rw (h, a) refl

  retry-stops :
      (fuel i : ℕ) (err : Option String) (sleeps : ℕ)
      → goes_on i max ≡ false
      → retry opts attempts (suc fuel) i err sleeps
        ≡ some (record { result = last_error err; sleeps = sleeps })
  unfolding retry
  retry-stops fuel i err sleeps h = rw h refl

  -- Rounds that fail below the maximum: a Sleep in each of them.
  retry-AreRefused :
      (m n fuel i f j : ℕ) (err : Option String) (sleeps s : ℕ)
      → max ≡ pos m
      → i + n ≤ m
      → AreRefused attempts i n
      → f ≡ n + fuel
      → j ≡ i + n
      → s ≡ sleeps + n
      → (err' : Option String) × (retry opts attempts f i err sleeps
          ≡ retry opts attempts fuel j err' s)
  retry-AreRefused m zero fuel i f j err sleeps s h k r ef ej es =
      let f_is : f ≡ fuel = ground arith in
      let j_is : j ≡ i = ground arith in
      let s_is : s ≡ sleeps = ground arith in (err, rw (f_is, j_is, s_is) refl)
  retry-AreRefused m (suc n) fuel i zero j err sleeps s h k r ef ej es = ground arith
  retry-AreRefused m (suc n) fuel i (suc f) j err sleeps s h k r ef ej es =
      let (e, a) = AreRefused-head attempts i n r in
      let (err', q) =
        retry-AreRefused m n fuel (suc i) f j (some e) (suc sleeps) s h (ground arith)
          (AreRefused-tail attempts i n r) (ground arith) (ground arith) (ground arith) in
      (
        err',
        retry-refused f i e err sleeps (ap (goes_on i) h ∙ goes_on-pos i m (ground arith)) a
            ∙ ap
                (λ (b : Bool).
                  retry opts attempts f (suc i) (some e) (if b then suc sleeps else sleeps))
                (ap (waits i) h ∙ waits-pos i m (ground arith))
            ∙ q,
      )

  -- The same with a maximum of -1: no round sleeps.
  retry-forever :
      (n fuel i f j : ℕ) (err : Option String) (sleeps : ℕ)
      → max ≡ negsuc 0
      → AreRefused attempts i n
      → f ≡ n + fuel
      → j ≡ i + n
      → (err' : Option String) × (retry opts attempts f i err sleeps
          ≡ retry opts attempts fuel j err' sleeps)
  unfolding goes_on waits is_minus_one
  retry-forever zero fuel i f j err sleeps h r ef ej =
      let f_is : f ≡ fuel = ground arith in
      let j_is : j ≡ i = ground arith in (err, rw (f_is, j_is) refl)
  retry-forever (suc n) fuel i zero j err sleeps h r ef ej = ground arith
  retry-forever (suc n) fuel i (suc f) j err sleeps h r ef ej =
      let (e, a) = AreRefused-head attempts i n r in
      let (err', q) =
        retry-forever n fuel (suc i) f j (some e) sleeps h (AreRefused-tail attempts i n r)
          (ground arith) (ground arith) in
      let on : goes_on i (negsuc 0) ≡ true = ground arith in
      let off : waits i (negsuc 0) ≡ false = ground arith in
      (
        err',
        retry-refused f i e err sleeps (ap (goes_on i) h ∙ on) a
            ∙ ap
                (λ (b : Bool).
                  retry opts attempts f (suc i) (some e) (if b then suc sleeps else sleeps))
                (ap (waits i) h ∙ off)
            ∙ q,
      )

  -- With MaxConnectionRetries m, at most m refused attempts and then a pool, New returns a client
  -- of that pool; it has slept once for each refusal, and fuel for that many rounds and one is
  -- enough.
  pub new-opened :
      (m n : ℕ) (answer : Fetched ℤ)
      → max ≡ pos m
      → n ≤ m
      → AreRefused attempts 0 n
      → attempts n ≡ opened answer
      → new opts attempts (n + 1)
        ≡ some (record { result = client (new_client opts answer); sleeps = n })
  unfolding new
  new-opened m n answer h k r a =
      let (err', q) =
        retry-AreRefused m n 1 0 (n + 1) n none 0 n h (ground arith) r refl (ground arith)
          (ground arith) in
      q ∙ retry-opened 0 n answer err' n (ap (goes_on n) h ∙ goes_on-pos n m k) a

  -- With MaxConnectionRetries m and attempts that are all refused, New makes m + 1 of them, sleeps
  -- m times and returns the last error; fuel m + 2 is enough.
  pub new-gives_up :
      (m : ℕ) (e : String)
      → max ≡ pos m
      → AreRefused attempts 0 m
      → attempts m ≡ refused e
      → new opts attempts (m + 2) ≡ some (record { result = error e; sleeps = m })
  unfolding new last_error
  new-gives_up m e h r a =
      let (err', q) =
        retry-AreRefused m m 2 0 (m + 2) m none 0 m h (ground arith) r refl (ground arith)
          (ground arith) in
      q
      ∙ retry-refused 1 m e err' m (ap (goes_on m) h ∙ goes_on-pos m m (ground arith)) a
      ∙ ap (λ (b : Bool). retry opts attempts 1 (suc m) (some e) (if b then suc m else m))
          (ap (waits m) h ∙ waits-last m)
      ∙ retry-stops 0 (suc m) (some e) m
          (ap (goes_on (suc m)) h ∙ stops-pos (suc m) m (ground arith))

  -- With MaxConnectionRetries -1, any number of refused attempts and then a pool give a client, and
  -- New has not slept between the attempts.
  pub new-forever :
      (n : ℕ) (answer : Fetched ℤ)
      → max ≡ negsuc 0
      → AreRefused attempts 0 n
      → attempts n ≡ opened answer
      → new opts attempts (n + 1)
        ≡ some (record { result = client (new_client opts answer); sleeps = 0 })
  unfolding new goes_on is_minus_one
  new-forever n answer h r a =
      let (err', q) = retry-forever n 1 0 (n + 1) n none 0 h r refl (ground arith) in
      let on : goes_on n (negsuc 0) ≡ true = ground arith in
      q ∙ retry-opened 0 n answer err' 0 (ap (goes_on n) h ∙ on) a
