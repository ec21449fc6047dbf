-- ===== src/Reverse/Invariant.antt =====
-- The invariant of the device: one holder of the mutex, unread bytes inside the buffer, and nobody asleep
-- beside bytes to read but for the moment before the wake-up.
use hodgepodge.Prelude.{
  ℕ, ◌≡◌, ◌≢◌, ◌⊎◌, inl, inr, refl, sym, ap, ◌∙◌, Bool, true, false, none, some, ◌==◌, ==_iff,
  bind_some, if◌then◌else◌, length, Bool-cases, subst,
}
use mathlib.Core.Option.{some-injective}
use hodgepodge.Reverse.{
  Buffer, Thread, idle, locking, checking, waiting, asleep, entering, filling, ending, rewinding,
  waking, leaving, returned, Event, System, update, awake, wakes, after, thread_step, step,
}
use hodgepodge.Reverse.Steps.{thread_step-After}
use hodgepodge.Reverse.Lock.{holds, Settled, Fits, quiet, takes, works, frees, After, Holding}

pub record IsSound (limit : ℕ) (s : System) : Type 0 where
  pub size_kept : length s.buffer.data_bytes ≡ limit
  pub mutex : (j : ℕ) → holds (s.threads j) ≡ true → s.buffer.lock ≡ some j
  pub owner : (j : ℕ) → s.buffer.lock ≡ some j → holds (s.threads j) ≡ true
  pub free : s.buffer.lock ≡ none → Settled limit s.buffer
  pub fits : (j : ℕ) → Fits limit (s.threads j) s.buffer

-- A step does to the thread that takes it what it does, and wakes the others or leaves them.
pub update-cases :
    (threads : ℕ → Thread) (i : ℕ) (t : Thread) (j : ℕ)
    → ((i ≡ j) × (update threads i t j ≡ t)) ⊎ ((i ≢ j) × (update threads i t j ≡ threads j))
update-cases threads i t j = elim (Bool-cases (i == j)) [
  | inl e ↦ inl ((==_iff i j).0 e, rw e refl)
  | inr n ↦ inr ((λ e. absurd (cc (n, (==_iff i j).1 e))), rw n refl)
]

pub update-same : (threads : ℕ → Thread) (i : ℕ) (t : Thread) → update threads i t i ≡ t
update-same threads i t = elim (update-cases threads i t i) [
  | inl (e, p) ↦ p
  | inr (n, p) ↦ absurd (n refl)
]

-- Only a thread that is asleep notices the wake-up.
pub awake-cases :
    (t : Thread)
    → (awake t ≡ t)
      ⊎ ((size : ℕ) × (nonblock : Bool) × (t ≡ asleep size nonblock)
          × (awake t ≡ waiting size nonblock))
awake-cases idle = inl refl
awake-cases (locking size nonblock) = inl refl
awake-cases (checking size nonblock) = inl refl
awake-cases (waiting size nonblock) = inl refl
awake-cases (asleep size nonblock) = inr (size, nonblock, refl, refl)
awake-cases (entering xs) = inl refl
awake-cases (filling xs) = inl refl
awake-cases (ending xs) = inl refl
awake-cases (rewinding xs) = inl refl
awake-cases (waking xs) = inl refl
awake-cases (leaving r) = inl refl
awake-cases (returned r) = inl refl

-- Without the lock a thread relies on nothing in the buffer.
holds-Fits :
    (limit : ℕ) (t : Thread) (b b' : Buffer) → holds t ≡ false → Fits limit t b → Fits limit t b'
holds-Fits limit idle b b' h f = tt
holds-Fits limit (locking size nonblock) b b' h f = tt
holds-Fits limit (checking size nonblock) b b' h f = cc
holds-Fits limit (waiting size nonblock) b b' h f = tt
holds-Fits limit (asleep size nonblock) b b' h f = tt
holds-Fits limit (entering xs) b b' h f = f
holds-Fits limit (filling xs) b b' h f = cc
holds-Fits limit (ending xs) b b' h f = cc
holds-Fits limit (rewinding xs) b b' h f = cc
holds-Fits limit (waking xs) b b' h f = cc
holds-Fits limit (leaving r) b b' h f = cc
holds-Fits limit (returned r) b b' h f = tt

abbrev pub maybe_awake : Bool → Thread → Thread
maybe_awake woken t = if woken then awake t else t

pub holds-maybe_awake : (woken : Bool) (t : Thread) → holds (maybe_awake woken t) ≡ holds t
holds-maybe_awake false t = refl
holds-maybe_awake true t = elim (awake-cases t) [
  | inl e ↦ rw e refl
  | inr (n, m, e, e') ↦ rw (e', e) refl
]

maybe_awake-Fits :
    (limit : ℕ) (woken : Bool) (t : Thread) (b : Buffer)
    → Fits limit t b
    → Fits limit (maybe_awake woken t) b
maybe_awake-Fits limit false t b f = f
maybe_awake-Fits limit true t b f = elim (awake-cases t) [
  | inl e ↦ rw e f
  | inr (n, m, e, e') ↦ rw e' tt
]

module _ (limit i : ℕ) (s : System) (sound : IsSound limit s) (t : Thread) (b : Buffer)
    (a : After limit i (s.threads i) s.buffer t b) where
  after-mutex_other : (j : ℕ) → i ≢ j → holds (s.threads j) ≡ true → b.lock ≡ some j
  after-mutex_other j n h = elim a.move [
    | quiet u v e ↦ ap (λ c. c.lock) e ∙ sound.mutex j h
    | takes u v l e ↦ cc (sound.mutex j h)
    | works u v e ↦ absurd (n (some-injective i j (sym (sound.mutex i u) ∙ sound.mutex j h)))
    | frees u v e ↦ absurd (n (some-injective i j (sym (sound.mutex i u) ∙ sound.mutex j h)))
  ]

  after-mutex_self : holds t ≡ true → b.lock ≡ some i
  after-mutex_self h = elim a.move [
    | quiet u v e ↦ cc
    | takes u v l e ↦ ap (λ c. c.lock) e
    | works u v e ↦ e ∙ sound.mutex i u
    | frees u v e ↦ cc
  ]

  after-owner_other : (j : ℕ) → i ≢ j → b.lock ≡ some j → holds (s.threads j) ≡ true
  after-owner_other j n h = elim a.move [
    | quiet u v e ↦ sound.owner j (sym (ap (λ c. c.lock) e) ∙ h)
    | takes u v l e ↦ absurd (n (some-injective i j (sym (ap (λ c. c.lock) e) ∙ h)))
    | works u v e ↦ sound.owner j (sym e ∙ h)
    | frees u v e ↦ cc (ap (λ c. c.lock) e)
  ]

  after-owner_self : b.lock ≡ some i → holds t ≡ true
  after-owner_self h = elim a.move [
    | quiet u v e ↦ cc (sound.owner i (sym (ap (λ c. c.lock) e) ∙ h))
    | takes u v l e ↦ v
    | works u v e ↦ v
    | frees u v e ↦ cc (ap (λ c. c.lock) e)
  ]

  after-free : b.lock ≡ none → Settled limit b
  after-free h = elim a.move [
    | quiet u v e ↦ subst (Settled limit) (sym e) (sound.free (sym (ap (λ c. c.lock) e) ∙ h))
    | takes u v l e ↦ cc (ap (λ c. c.lock) e)
    | works u v e ↦ cc (sym e ∙ h, sound.mutex i u)
    | frees u v e ↦ a.settled u v
  ]

  after-Fits_other : (j : ℕ) → i ≢ j → Fits limit (s.threads j) b
  after-Fits_other j n = elim (Bool-cases (holds (s.threads j))) [
    | inr h ↦ holds-Fits limit (s.threads j) s.buffer b h (sound.fits j)
    | inl h ↦ elim a.move [
      | quiet u v e ↦ subst (Fits limit (s.threads j)) (sym e) (sound.fits j)
      | takes u v l e ↦ cc (sound.mutex j h)
      | works u v e ↦ absurd (n (some-injective i j (sym (sound.mutex i u) ∙ sound.mutex j h)))
      | frees u v e ↦ absurd (n (some-injective i j (sym (sound.mutex i u) ∙ sound.mutex j h)))
    ]
  ]

  pub after-IsSound : IsSound limit (after s i t b)
  after-IsSound =
      let woken = wakes (s.threads i) in
      let others : ℕ → Thread = λ j. maybe_awake woken (s.threads j) in
      record {
        size_kept = a.size_kept ∙ sound.size_kept;
        mutex = λ j h. elim (update-cases others i t j) [
          | inl (e, p) ↦ after-mutex_self (sym (ap holds p) ∙ h) ∙ ap some e
          | inr (n, p) ↦
              after-mutex_other j n
                (sym (holds-maybe_awake woken (s.threads j)) ∙ sym (ap holds p) ∙ h)
        ];
        owner = λ j h. elim (update-cases others i t j) [
          | inl (e, p) ↦ ap holds p ∙ after-owner_self (h ∙ ap some (sym e))
          | inr (n, p) ↦
              ap holds p ∙ holds-maybe_awake woken (s.threads j) ∙ after-owner_other j n h
        ];
        free = after-free;
        fits = λ j. elim (update-cases others i t j) [
          | inl (e, p) ↦ rw p a.fits
          | inr (n, p) ↦ rw p (maybe_awake-Fits limit woken (s.threads j) b (after-Fits_other j n))
        ];
      }

-- What a step is: one of the thread, from what it relies on.
pub step-after :
    (limit i : ℕ) (event : Event) (s s' : System)
    → IsSound limit s
    → step limit i event s ≡ some s'
    → (t : Thread) × (b : Buffer) × (thread_step limit i event (s.threads i) s.buffer ≡ some (t, b))
      × After limit i (s.threads i) s.buffer t b
      × (s' ≡ after s i t b)
unfolding step
step-after limit i event s s' sound e =
    let (r, p, q) =
      bind_some (thread_step limit i event (s.threads i) s.buffer)
        (λ result. some (after s i result.0 result.1)) s' e in
    let a =
      thread_step-After limit i event (s.threads i) s.buffer (sound.fits i) sound.free
        sound.size_kept in
    (
      r.0,
      r.1,
      p,
      subst (λ o. Holding o (After limit i (s.threads i) s.buffer)) p a,
      sym (some-injective (after s i r.0 r.1) s' q),
    )

pub step-IsSound :
    (limit i : ℕ) (event : Event) (s s' : System)
    → IsSound limit s
    → step limit i event s ≡ some s'
    → IsSound limit s'
step-IsSound limit i event s s' sound e =
    let (t, b, p, a, q) = step-after limit i event s s' sound e in
    subst (IsSound limit) (sym q) (after-IsSound limit i s sound t b a)
