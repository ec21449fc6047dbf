-- ===== src/Reverse/Release.antt =====
-- The holder of the mutex gives it back.
use hodgepodge.Prelude.{
  ◌>>=◌, ℕ, zero, suc, ◌≤◌, ◌<◌, ◌≡◌, ◌⊎◌, inl, inr, refl, ◌∙◌, Bool, true, false, List, Option,
  none, some, Bool-cases, replicate, arith, if◌then◌else◌,
}
use hodgepodge.Reverse.{
  Buffer, Thread, idle, locking, checking, waiting, asleep, entering, filling, ending, rewinding,
  waking, leaving, returned, failed, again, Event, go, System, wakes, after, is_empty, thread_step,
  step, run, check, copy_out, with_lock, same_pointer,
}
use hodgepodge.Reverse.{reverse_init}
use hodgepodge.Reverse.Runs.{run-IsSound}
use hodgepodge.Reverse.Lock.{holds, Fits, Settled, Pointers}
use hodgepodge.Reverse.Invariant.{IsSound, update-same, maybe_awake, step-IsSound}

-- The steps that a holder of the mutex has left at most.
abbrev left : Thread → ℕ
left (checking size nonblock) = 2
left (filling xs) = 5
left (ending xs) = 4
left (rewinding xs) = 3
left (waking xs) = 2
left (leaving r) = 1
left t = 0

-- A result of a step of the holder.
abbrev Nearer : Thread → Buffer → Thread → Buffer → Type 0
Nearer t b t' b' = ((b'.lock ≡ none) × (0 < left t)) ⊎ ((b'.lock ≡ b.lock) × (left t' < left t))

copy_out-some :
    (limit size : ℕ) (nonblock : Bool) (b : Buffer) (r e : Option ℕ)
    → Pointers limit r e
    → same_pointer r e ≡ false
    → (t' : Thread) × (b' : Buffer) × (copy_out size go r e b ≡ some (t', b'))
      × Nearer (checking size nonblock) b t' b'
unfolding copy_out
copy_out-some limit size nonblock b none none p h = cc
copy_out-some limit size nonblock b none (some e) p h = absurd p
copy_out-some limit size nonblock b (some r) none p h = absurd p
copy_out-some limit size nonblock b (some r) (some e) p h = (_, _, refl, inr (refl, omega arith))

check-some :
    (limit size : ℕ) (nonblock : Bool) (b : Buffer)
    → Settled limit b
    → (t' : Thread) × (b' : Buffer) × (check size nonblock go b ≡ some (t', b'))
      × Nearer (checking size nonblock) b t' b'
unfolding check
check-some limit size nonblock b p = elim (Bool-cases (is_empty b)) [
  | inl e ↦ (
    if nonblock then returned (failed again) else waiting size nonblock,
    with_lock none b,
    rw e refl,
    inl (refl, omega arith),
  )
  | inr e ↦
      let (t', b', q, n) = copy_out-some limit size nonblock b b.read_ptr b.end p e in
      (t', b', rw e q, n)
]

-- With the lock, a thread always has a step.
holder_steps :
    (limit i : ℕ) (t : Thread) (b : Buffer)
    → holds t ≡ true
    → Fits limit t b
    → (t' : Thread) × (b' : Buffer) × (thread_step limit i go t b ≡ some (t', b'))
      × Nearer t b t' b'
unfolding thread_step
holder_steps limit i (checking size nonblock) b h f = check-some limit size nonblock b f
holder_steps limit i (filling xs) b h f = (_, _, refl, inr (refl, omega arith))
holder_steps limit i (ending xs) b h f = (_, _, refl, inr (refl, omega arith))
holder_steps limit i (rewinding xs) b h f = (_, _, refl, inr (refl, omega arith))
holder_steps limit i (waking xs) b h f = (_, _, refl, inr (refl, omega arith))
holder_steps limit i (leaving r) b h f = (_, _, refl, inl (refl, omega arith))
holder_steps limit i idle b h f = cc
holder_steps limit i (locking size nonblock) b h f = cc
holder_steps limit i (waiting size nonblock) b h f = cc
holder_steps limit i (asleep size nonblock) b h f = cc
holder_steps limit i (entering xs) b h f = cc
holder_steps limit i (returned r) b h f = cc

left-bound : (t : Thread) → left t ≤ 5
left-bound t = ground arith

step-after-go :
    (limit i : ℕ) (s : System) (t : Thread) (b : Buffer)
    → thread_step limit i go (s.threads i) s.buffer ≡ some (t, b)
    → step limit i go s ≡ some (after s i t b)
unfolding step
step-after-go limit i s t b e = rw e refl

-- The run of the holder alone, with at most so many steps left.
release :
    (limit i most : ℕ) (s : System)
    → IsSound limit s
    → s.buffer.lock ≡ some i
    → left (s.threads i) ≤ most
    → (n : ℕ) × (s' : System) × (n ≤ most)
      × (run limit (replicate n (i, go)) s ≡ some s')
      × (s'.buffer.lock ≡ none)
unfolding run
release limit i zero s sound l h =
    let (t, b, e, near) =
      holder_steps limit i (s.threads i) s.buffer (sound.owner i l) (sound.fits i) in
    absurd (elim near [ inl (u, v) ↦ omega (arith, v, h) | inr (u, v) ↦ omega (arith, v, h) ])
release limit i (suc most) s sound l h =
    let (t, b, e, near) =
      holder_steps limit i (s.threads i) s.buffer (sound.owner i l) (sound.fits i) in
    let s1 = after s i t b in
    let st : step limit i go s ≡ some s1 = step-after-go limit i s t b e in
    elim near [
      | inl (u, v) ↦ (1, s1, omega arith, rw (st, ◌>>=◌) refl, u)
      | inr (u, v) ↦
          let self : s1.threads i ≡ t =
            update-same (λ j. maybe_awake (wakes (s.threads i)) (s.threads j)) i t in
          let fewer : left (s1.threads i) ≤ most = rw self (omega (arith, v, h)) in
          let (n, s', k, r, f) =
            release limit i most s1 (step-IsSound limit i go s s1 sound st) (u ∙ l) fewer in
          (suc n, s', omega arith, rw (st, ◌>>=◌) r, f)
    ]

-- In every run from the load of the module on, where a thread has the mutex, five steps of its own at most
-- in a row give it back, whatever the other threads were doing.
pub release_in_five :
    (got got_data : Bool) (limit i : ℕ) (events : List (ℕ × Event)) (s s' : System)
    → reverse_init got got_data limit ≡ some s
    → run limit events s ≡ some s'
    → s'.buffer.lock ≡ some i
    → (n : ℕ) × (freed : System) × (n ≤ 5)
      × (run limit (replicate n (i, go)) s' ≡ some freed)
      × (freed.buffer.lock ≡ none)
release_in_five got got_data limit i events s s' e r l =
    release limit i 5 s' (run-IsSound got got_data limit events s s' e r).0 l
      (left-bound (s'.threads i))
