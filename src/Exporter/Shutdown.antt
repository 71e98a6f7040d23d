-- ===== src/Exporter/Shutdown.antt =====
-- exporter/exporter.go: Collect and Shutdown on the exporter's mutex.
use pgxporter.Prelude.{ℕ, zero, suc, ◌+◌, ◌≡◌, ◌≢◌, refl, ◌∙◌, Bool, true, false, arith}

-- Who holds the mutex; `leaked` is a goroutine of a Shutdown that has returned ctx.Err().
pub data Holder : Type 0 where
  free collecting shutting leaked : Holder

-- The goroutines in Lock, by whether their Shutdown still waits, whether the pools are closed, and how
-- many calls of Shutdown have returned nil.
pub record Mutex : Type 0 where
  pub holder : Holder
  pub waiting : ℕ
  pub abandoned : ℕ
  pub closed : Bool
  pub returned : ℕ

abbrev pub unlocked : Mutex
unlocked = record { holder = free; waiting = 0; abandoned = 0; closed = false; returned = 0 }

-- The steps of the calls of Collect and of Shutdown.
pub data Step : Mutex → Mutex → Type 0 where
  collect_locks : (s : Mutex) → s.holder ≡ free → Step s (record s { holder = collecting })
  collect_returns : (s : Mutex) → s.holder ≡ collecting → Step s (record s { holder = free })
  -- Shutdown starts its goroutine and waits
  shutdown_starts : (s : Mutex) → Step s (record s { waiting = suc s.waiting })
  -- the goroutine locks and closes `locked`
  shutdown_locks :
      (s : Mutex) (n : ℕ)
      → s.waiting ≡ suc n
      → s.holder ≡ free
      → Step s (record s { holder = shutting; waiting = n })
  -- the pools are closed, and the deferred Unlock runs
  shutdown_returns :
      (s : Mutex)
      → s.holder ≡ shutting
      → Step s (record s { holder = free; closed = true; returned = suc s.returned })
  -- the context ends before `locked`
  shutdown_gives_up :
      (s : Mutex) (n : ℕ)
      → s.waiting ≡ suc n
      → Step s (record s { waiting = n; abandoned = suc s.abandoned })
  -- the context has ended and `locked` is closed: the select may take either
  shutdown_gives_up_late : (s : Mutex) → s.holder ≡ shutting → Step s (record s { holder = leaked })
  -- the goroutine of a Shutdown that has returned locks
  abandoned_locks :
      (s : Mutex) (n : ℕ)
      → s.abandoned ≡ suc n
      → s.holder ≡ free
      → Step s (record s { holder = leaked; abandoned = n })

pub data Steps : Mutex → Mutex → Type 0 where
  here : {s : Mutex} → Steps s s
  then : {s t u : Mutex} → Steps s t → Step t u → Steps s u

step-leaked : {s t : Mutex} → Step s t → s.holder ≡ leaked → t.holder ≡ leaked
step-leaked (collect_locks s h) l = absurd (ground (arith, h, l))
step-leaked (collect_returns s h) l = absurd (ground (arith, h, l))
step-leaked (shutdown_starts s) l = l
step-leaked (shutdown_locks s n w h) l = absurd (ground (arith, h, l))
step-leaked (shutdown_returns s h) l = absurd (ground (arith, h, l))
step-leaked (shutdown_gives_up s n w) l = l
step-leaked (shutdown_gives_up_late s h) l = refl
step-leaked (abandoned_locks s n a h) l = refl

-- Once the goroutine of a Shutdown that has returned holds the mutex, it holds it after any steps.
pub leaked-for_ever : (s t : Mutex) → Steps s t → s.holder ≡ leaked → t.holder ≡ leaked
leaked-for_ever s t here l = l
leaked-for_ever s t (then before x) l = step-leaked x (leaked-for_ever s _ before l)

-- The step is not that of a Shutdown whose context ends.
unfoldable pub is_patient : {s t : Mutex} → Step s t → Bool
is_patient (shutdown_gives_up s n w) = false
is_patient (shutdown_gives_up_late s h) = false
is_patient _ = true

-- Steps from the unlocked mutex in which no context ends.
pub data Patient : Mutex → Type 0 where
  unlocked_first : Patient unlocked
  and_then : {s t : Mutex} → Patient s → (x : Step s t) → is_patient x ≡ true → Patient t

patient-step :
    {s t : Mutex} (x : Step s t)
    → is_patient x ≡ true
    → (s.holder ≢ leaked) × (s.abandoned ≡ 0)
    → (t.holder ≢ leaked) × (t.abandoned ≡ 0)
unfolding is_patient
patient-step (collect_locks s h) p q = ((λ e. cc e), q.1)
patient-step (collect_returns s h) p q = ((λ e. cc e), q.1)
patient-step (shutdown_starts s) p q = q
patient-step (shutdown_locks s n w h) p q = ((λ e. cc e), q.1)
patient-step (shutdown_returns s h) p q = ((λ e. cc e), q.1)
patient-step (shutdown_gives_up s n w) p q = cc p
patient-step (shutdown_gives_up_late s h) p q = cc p
patient-step (abandoned_locks s n a h) p q = ground (arith, a, q.1)

Patient-sound : {s : Mutex} → Patient s → (s.holder ≢ leaked) × (s.abandoned ≡ 0)
Patient-sound unlocked_first = ((λ e. cc e), refl)
Patient-sound (and_then before x p) = patient-step x p (Patient-sound before)

-- The calls of Shutdown that have the mutex.
abbrev pub in_progress : Holder → ℕ
in_progress shutting = 1
in_progress _ = 0

-- No Shutdown waits, those that have waited or had the mutex have returned nil, and the pools are
-- closed, with the mutex free.
pub record IsShutDown (s t : Mutex) : Type 0 where
  pub holder : t.holder ≡ free
  pub waiting : t.waiting ≡ 0
  pub returned : t.returned ≡ s.returned + (s.waiting + in_progress s.holder)
  pub closed : t.closed ≡ true

behind : {s t u : Mutex} → Steps s t → Steps t u → Steps s u
behind st here = st
behind st (then tu x) = then (behind st tu) x

-- With the mutex free, every Shutdown that waits returns.
free-IsShutDown :
    (n : ℕ) (s : Mutex)
    → s.holder ≡ free
    → s.waiting ≡ suc n
    → (t : Mutex) × Steps s t × IsShutDown s t
free-IsShutDown zero s e w = (
  _,
  then (then here (shutdown_locks s 0 w e)) (shutdown_returns _ refl),
  record { holder = refl; waiting = refl; returned = rw (e, w) (omega arith); closed = refl },
)
free-IsShutDown (suc n) s e w =
    let steps = then (then here (shutdown_locks s (suc n) w e)) (shutdown_returns _ refl) in
    let (t, more, d) = free-IsShutDown n _ refl refl in
    (
      t,
      behind steps more,
      record {
        holder = d.holder;
        waiting = d.waiting;
        returned = d.returned ∙ rw (e, w) (omega arith);
        closed = d.closed;
      },
    )

-- If no context has ended so far and a Shutdown waits for the mutex, steps are possible after which
-- all calls of Shutdown that wait for the mutex or hold it have returned, the mutex is free and the
-- pools are closed, whoever holds the mutex.
pub shutdown-IsShutDown :
    (s : Mutex) (n : ℕ) → Patient s → s.waiting ≡ suc n → (t : Mutex) × Steps s t × IsShutDown s t
shutdown-IsShutDown s n p w = go s.holder refl
  where
    go : (h : Holder) → s.holder ≡ h → (t : Mutex) × Steps s t × IsShutDown s t
    go free e = free-IsShutDown n s e w
    go collecting e =
        let (t, more, d) = free-IsShutDown n (record s { holder = free }) refl w in
        (
          t,
          behind (then here (collect_returns s e)) more,
          record {
            holder = d.holder;
            waiting = d.waiting;
            returned = d.returned ∙ rw e refl;
            closed = d.closed;
          },
        )
    go shutting e =
        let (t, more, d) =
          free-IsShutDown n (record s { holder = free; closed = true; returned = suc s.returned })
            refl w in
        (
          t,
          behind (then here (shutdown_returns s e)) more,
          record {
            holder = d.holder;
            waiting = d.waiting;
            returned = d.returned ∙ rw e (omega arith);
            closed = d.closed;
          },
        )
    go leaked e = absurd ((Patient-sound p).0 e)
