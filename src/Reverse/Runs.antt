-- ===== src/Reverse/Runs.antt =====
-- The runs of the device from `reverse_init` on: the invariant, and that no reader misses a wake-up.
use hodgepodge.Prelude.{
  Option-cases, arith, zero, suc, ℕ, ◌≡◌, ◌⊎◌, inl, inr, refl, sym, ap, ◌∙◌, Bool, true, false,
  List, [], ◌∷◌, none, some, bind_some, subst, Bool-cases, replicate, length, ◌==◌,
}
use mathlib.Core.Option.{some-injective}
use hodgepodge.Reverse.{
  Buffer, Thread, idle, locking, checking, waiting, asleep, entering, filling, ending, rewinding,
  waking, leaving, returned, Event, System, wakes, after, is_empty, step, run, reverse_init,
}
use hodgepodge.Reverse.Lock.{Settled, Fits, holds, After, Holding}
use hodgepodge.Reverse.Invariant.{
  IsSound, update-cases, maybe_awake, after-IsSound, step-after, step-IsSound,
}
use hodgepodge.Reverse.Wakeups.{
  sleeps, announces, Notice, thread_step-Notice, maybe_awake-sleeps, announces-maybe_awake,
  announces-holds,
}

-- Who is asleep has nothing to read, but for a writer that is about to wake it.
abbrev pub IsAlert : System → Type 0
IsAlert s =
    (j : ℕ)
    → sleeps (s.threads j) ≡ true
    → (is_empty s.buffer ≡ true)
      ⊎ ((i : ℕ) × (s.buffer.lock ≡ some i) × (announces (s.threads i) ≡ true))

module _ (limit i : ℕ) (s : System) (sound : IsSound limit s) (alert : IsAlert s) (t : Thread)
    (b : Buffer) (a : After limit i (s.threads i) s.buffer t b)
    (notice : Notice (s.threads i) s.buffer t b) where
  others : ℕ → Thread
  others j = maybe_awake (wakes (s.threads i)) (s.threads j)

  -- The step's own thread announces.
  self_announces :
      announces t ≡ true
      → (k : ℕ) × (b.lock ≡ some k) × (announces ((after s i t b).threads k) ≡ true)
  unfolding others
  self_announces h = elim (update-cases others i t i) [
    | inl (e, p) ↦ (
      i,
      (after-IsSound limit i s sound t b a).mutex i (ap holds p ∙ announces-holds t h),
      ap announces p ∙ h,
    )
    | inr (n, p) ↦ absurd (n refl)
  ]

  -- Another thread that announced still does.
  other_announces :
      (k : ℕ)
      → announces (s.threads i) ≡ false
      → announces (s.threads k) ≡ true
      → (l : ℕ) × (b.lock ≡ some l) × (announces ((after s i t b).threads l) ≡ true)
  unfolding others
  other_announces k h h' = elim (update-cases others i t k) [
    | inl (e, p) ↦ absurd (cc (ap (λ x. announces (s.threads x)) e))
    | inr (n, p) ↦
        let q = ap announces p ∙ announces-maybe_awake (wakes (s.threads i)) (s.threads k) ∙ h' in
        (k, (after-IsSound limit i s sound t b a).mutex k (announces-holds _ q), q)
  ]

  after-IsAlert : IsAlert (after s i t b)
  unfolding others
  after-IsAlert j h = elim (update-cases others i t j) [
    | inl (e, p) ↦ inl (notice.sleeping (sym (ap sleeps p) ∙ h))
    | inr (n, p) ↦
        let (w, q) =
          maybe_awake-sleeps (wakes (s.threads i)) (s.threads j) (sym (ap sleeps p) ∙ h) in
        elim notice.keeps [
          | inl (k, keep) ↦ elim (alert j q) [
            | inl e ↦ inl (keep e)
            | inr (l, o, u) ↦ inr (other_announces l k u)
          ]
          | inr (inl k) ↦ inr (self_announces k)
          | inr (inr k) ↦ absurd (cc)
        ]
  ]

step-IsAlert :
    (limit i : ℕ) (event : Event) (s s' : System)
    → IsSound limit s
    → IsAlert s
    → step limit i event s ≡ some s'
    → IsAlert s'
step-IsAlert limit i event s s' sound alert e =
    let (t, b, p, a, q) = step-after limit i event s s' sound e in
    let notice =
      subst (λ o. Holding o (Notice (s.threads i) s.buffer)) p
        (thread_step-Notice limit i event (s.threads i) s.buffer) in
    subst IsAlert (sym q) (after-IsAlert limit i s sound alert t b a notice)

run-invariant :
    (limit : ℕ) (events : List (ℕ × Event)) (s s' : System)
    → IsSound limit s
    → IsAlert s
    → run limit events s ≡ some s'
    → IsSound limit s' × IsAlert s'
unfolding run
run-invariant limit [] s s' sound alert e =
    let p = some-injective s s' e in (subst (IsSound limit) p sound, subst IsAlert p alert)
run-invariant limit ((i, event) ∷ events) s s' sound alert e =
    let (t, p, q) = bind_some (step limit i event s) (run limit events) s' e in
    run-invariant limit events t s' (step-IsSound limit i event s t sound p)
      (step-IsAlert limit i event s t sound alert p) q

-- The device after `reverse_init`.
abbrev pub loaded_system : ℕ → System
loaded_system limit = record {
  buffer = record {
    data_bytes = replicate limit 0;
    end = none;
    read_ptr = none;
    size = limit;
    lock = none;
  };
  threads = λ i. idle;
}

pub reverse_init_lem :
    (got got_data : Bool) (limit : ℕ) (s : System)
    → reverse_init got got_data limit ≡ some s
    → loaded_system limit ≡ s
reverse_init_lem true true limit s e = elim (Bool-cases (limit == 0)) [
  | inl z ↦ cc
  | inr z ↦ some-injective (loaded_system limit) s (rw z at e)
]
reverse_init_lem true false limit s e = elim (Bool-cases (limit == 0)) [ inl z ↦ cc | inr z ↦ cc ]
reverse_init_lem false got_data limit s e = elim (Bool-cases (limit == 0)) [
  | inl z ↦ cc
  | inr z ↦ cc
]

length-replicate : (n x : ℕ) → length (replicate n x) ≡ n
length-replicate zero x = refl
length-replicate (suc n) x = ap suc (length-replicate n x)

pub loaded_system-IsSound : (limit : ℕ) → IsSound limit (loaded_system limit)
loaded_system-IsSound limit = record {
  size_kept = length-replicate limit 0;
  mutex = λ j h. cc;
  owner = λ j h. cc;
  free = λ h. tt;
  fits = λ j. tt;
}

-- What holds in every run.
reached :
    (limit : ℕ) (got got_data : Bool) (events : List (ℕ × Event)) (s s' : System)
    → reverse_init got got_data limit ≡ some s
    → run limit events s ≡ some s'
    → IsSound limit s' × IsAlert s'
reached limit got got_data events s s' e r =
    let loaded = reverse_init_lem got got_data limit s e in
    run-invariant limit events s s' (subst (IsSound limit) loaded (loaded_system-IsSound limit))
      (subst IsAlert loaded (λ j h. cc)) r

-- A writer that has moved `end` and not `read_ptr`.
abbrev pub is_between : Thread → Bool
is_between (rewinding xs) = true
is_between t = false

-- With the mutex, the pointers are right but for that writer.
holder-Settled :
    (limit : ℕ) (t : Thread) (b : Buffer)
    → holds t ≡ true
    → is_between t ≡ false
    → Fits limit t b
    → Settled limit b
holder-Settled limit (checking size nonblock) b h k f = f
holder-Settled limit (filling xs) b h k f = f.0
holder-Settled limit (ending xs) b h k f = f.0
holder-Settled limit (rewinding xs) b h k f = cc
holder-Settled limit (waking xs) b h k (p, q, l, e) = rw (p, q) (omega arith, l)
holder-Settled limit (leaving r) b h k f = f
holder-Settled limit idle b h k f = cc
holder-Settled limit (locking size nonblock) b h k f = cc
holder-Settled limit (waiting size nonblock) b h k f = cc
holder-Settled limit (asleep size nonblock) b h k f = cc
holder-Settled limit (entering xs) b h k f = cc
holder-Settled limit (returned r) b h k f = cc

between-Settled :
    (limit : ℕ) (s : System)
    → IsSound limit s
    → ((j : ℕ) → is_between (s.threads j) ≡ false)
    → Settled limit s.buffer
between-Settled limit s sound none_between = elim (Option-cases s.buffer.lock) [
  | inl e ↦ sound.free e
  | inr (i, e) ↦
      holder-Settled limit (s.threads i) s.buffer (sound.owner i e) (none_between i) (sound.fits i)
]

-- In every run from the load of the module on, of any number of threads and with signals and faults anywhere:
-- at most one thread is between taking the mutex and giving it back, and the mutex says which; the thread that
-- has it finds what it relies on; and but for the moment in which a writer has moved `end` and not
-- `read_ptr`, both pointers are NULL or the unread bytes are inside the buffer.
pub run-IsSound :
    (got got_data : Bool) (limit : ℕ) (events : List (ℕ × Event)) (s s' : System)
    → reverse_init got got_data limit ≡ some s
    → run limit events s ≡ some s'
    → IsSound limit s' × (((j : ℕ) → is_between (s'.threads j) ≡ false) → Settled limit s'.buffer)
run-IsSound got got_data limit events s s' e r =
    let sound = reached limit got got_data events s s' e r in
    (sound.0, between-Settled limit s' sound.0)

-- In every run from the load of the module on no reader misses a wake-up: where a thread is asleep in a read,
-- either there is nothing to read, or a writer that has the mutex has moved `end`, or both pointers, and
-- is about to wake it.
pub run-IsAlert :
    (got got_data : Bool) (limit : ℕ) (events : List (ℕ × Event)) (s s' : System)
    → reverse_init got got_data limit ≡ some s
    → run limit events s ≡ some s'
    → IsAlert s'
run-IsAlert got got_data limit events s s' e r = (reached limit got got_data events s s' e r).1
