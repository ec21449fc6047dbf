-- ===== src/Reverse/Queue.antt =====
-- Every run of the device is a run of a queue of bytes.
use hodgepodge.Prelude.{
  bind_some, ℕ, ◌≡◌, ◌≢◌, inl, inr, refl, sym, ap, ◌∙◌, Bool, true, false, List, [], ◌∷◌, ◌++◌,
  some, subst, Bool-cases, All, drop, ◌==◌, ==_iff,
}
use mathlib.Core.Option.{some-injective}
use hodgepodge.Reverse.{
  Buffer, Thread, idle, Event, System, wakes, after, reverse_init, thread_step, step, run,
}
use hodgepodge.Reverse.Lock.{holds, quiet, takes, works, frees, After}
use hodgepodge.Reverse.Invariant.{
  IsSound, update-cases, update-same, maybe_awake, awake-cases, step-IsSound, step-after,
}
use hodgepodge.Reverse.Runs.{loaded_system-IsSound, reverse_init_lem}
use hodgepodge.Reverse.Stream.{
  Deed, put, took, Replays, deed, log, unread, is_busy, NoFault, thread_step-Effect, without_lock,
}

-- While no writer is between its two pointers, the unread bytes are the queue.
abbrev pub Tracks : System → List ℕ → Type 0
Tracks s q = ((j : ℕ) → is_busy (s.threads j) ≡ false) → unread s.buffer ≡ q

Replays-append :
    (deeds more : List Deed) (q q' q'' : List ℕ)
    → Replays deeds q q'
    → Replays more q' q''
    → Replays (deeds ++ more) q q''
Replays-append [] more q q' q'' r r' = subst (λ x. Replays more x q'') (sym r) r'
Replays-append (put xs ∷ deeds) more q q' q'' r r' = Replays-append deeds more xs q' q'' r r'
Replays-append (took size xs ∷ deeds) more q q' q'' (e, r) r' =
    (e, Replays-append deeds more (drop size q) q' q'' r r')

is_busy-maybe_awake : (woken : Bool) (t : Thread) → is_busy (maybe_awake woken t) ≡ is_busy t
is_busy-maybe_awake false t = refl
is_busy-maybe_awake true t = elim (awake-cases t) [
  | inl e ↦ ap is_busy e
  | inr (n, m, e, e') ↦ rw (e', e) refl
]

module _ (limit i : ℕ) (event : Event) (s : System) (sound : IsSound limit s) (q : List ℕ)
    (tracks : Tracks s q) (t : Thread) (b : Buffer)
    (a : After limit i (s.threads i) s.buffer t b) where
  others : ℕ → Thread
  others j = maybe_awake (wakes (s.threads i)) (s.threads j)

  -- Another thread is busy after the step just when it was before.
  other_busy : (j : ℕ) → i ≢ j → is_busy ((after s i t b).threads j) ≡ is_busy (s.threads j)
  unfolding others
  other_busy j n = elim (update-cases others i t j) [
    | inl (e, p) ↦ absurd (n e)
    | inr (n', p) ↦ ap is_busy p ∙ is_busy-maybe_awake (wakes (s.threads i)) (s.threads j)
  ]

  -- While the thread has the mutex, no other one is busy.
  alone :
      holds (s.threads i) ≡ true
      → is_busy (s.threads i) ≡ false
      → (j : ℕ) → is_busy (s.threads j) ≡ false
  alone h k j = elim (Bool-cases (holds (s.threads j))) [
    | inl h' ↦
        let e : j ≡ i = some-injective j i (sym (sound.mutex j h') ∙ sound.mutex i h) in
        ap (λ x. is_busy (s.threads x)) e ∙ k
    | inr h' ↦ (without_lock (s.threads j) idle h').0
  ]

  after-Tracks_outside :
      holds (s.threads i) ≡ false
      → (q' : List ℕ) × Replays (deed (s.threads i) t) q q' × Tracks (after s i t b) q'
  after-Tracks_outside h =
      let (k, d) = without_lock (s.threads i) t h in
      let same : unread b ≡ unread s.buffer = elim a.move [
        | quiet u v e ↦ ap unread e
        | takes u v l e ↦ ap unread e
        | works u v e ↦ cc
        | frees u v e ↦ cc
      ] in
      (
        q,
        rw d refl,
        λ free.
            same
            ∙ tracks (λ j. elim (Bool-cases (i == j)) [
              | inl e ↦ ap (λ x. is_busy (s.threads x)) (sym ((==_iff i j).0 e)) ∙ k
              | inr n ↦ sym (other_busy j (λ e. absurd (cc (n, (==_iff i j).1 e)))) ∙ free j
            ]),
      )

  after-Tracks_holder :
      holds (s.threads i) ≡ true
      → NoFault (i, event)
      → thread_step limit i event (s.threads i) s.buffer ≡ some (t, b)
      → (q' : List ℕ) × Replays (deed (s.threads i) t) q q' × Tracks (after s i t b) q'
  unfolding others
  after-Tracks_holder h n e =
      let (q', r, p) =
        thread_step-Effect limit i event (s.threads i) s.buffer t b n e h (sound.fits i) q
          (λ k. tracks (alone h k)) in
      (q', r, λ free. p (sym (ap is_busy (update-same others i t)) ∙ free i))

  after-Tracks :
      NoFault (i, event)
      → thread_step limit i event (s.threads i) s.buffer ≡ some (t, b)
      → (q' : List ℕ) × Replays (deed (s.threads i) t) q q' × Tracks (after s i t b) q'
  after-Tracks n e = elim (Bool-cases (holds (s.threads i))) [
    | inl h ↦ after-Tracks_holder h n e
    | inr h ↦ after-Tracks_outside h
  ]

step-Tracks :
    (limit i : ℕ) (event : Event) (s s' : System)
    → IsSound limit s
    → NoFault (i, event)
    → step limit i event s ≡ some s'
    → (q : List ℕ) → Tracks s q
    → (q' : List ℕ) × Replays (deed (s.threads i) (s'.threads i)) q q' × Tracks s' q'
step-Tracks limit i event s s' sound n e q tracks =
    let (t, b, p, a, o) = step-after limit i event s s' sound e in
    let (q', r, tracks') = after-Tracks limit i event s sound q tracks t b a n p in
    let at : t ≡ s'.threads i =
      sym (update-same (λ j. maybe_awake (wakes (s.threads i)) (s.threads j)) i t)
      ∙ ap (λ x. x.threads i) (sym o) in
    (
      q',
      subst (λ x. Replays (deed (s.threads i) x) q q') at r,
      subst (λ x. Tracks x q') (sym o) tracks',
    )

run-Tracks :
    (limit : ℕ) (events : List (ℕ × Event)) (s s' : System)
    → IsSound limit s
    → All NoFault events
    → run limit events s ≡ some s'
    → (q : List ℕ) → Tracks s q
    → (q' : List ℕ) × Replays (log limit events s) q q' × Tracks s' q'
unfolding run log
run-Tracks limit [] s s' sound n e q tracks =
    (q, refl, subst (λ x. Tracks x q) (some-injective s s' e) tracks)
run-Tracks limit ((i, event) ∷ events) s s' sound (n, ns) e q tracks =
    let (t, p, e') = bind_some (step limit i event s) (run limit events) s' e in
    let (q1, r1, tracks1) = step-Tracks limit i event s t sound n p q tracks in
    let (q2, r2, tracks2) =
      run-Tracks limit events t s' (step-IsSound limit i event s t sound p) ns e' q1 tracks1 in
    (
      q2,
      rw p (Replays-append (deed (s.threads i) (t.threads i)) (log limit events t) q q1 q2 r1 r2),
      tracks2,
    )

-- In every run from the load of the module on in which no copy from a writer fails, whatever the number of
-- the threads, the order of their steps, the signals and the failed copies to readers: what the calls do is
-- a run of a queue of bytes that is empty at first, that a write replaces by its bytes, and from whose front
-- a read of a size takes as many bytes as there are, at most the size. The unread bytes are the queue
-- whenever no writer has begun to fill the buffer and not moved both pointers.
pub run-Replays :
    (got got_data : Bool) (limit : ℕ) (events : List (ℕ × Event)) (s s' : System)
    → reverse_init got got_data limit ≡ some s
    → All NoFault events
    → run limit events s ≡ some s'
    → (q : List ℕ) × Replays (log limit events s) [] q × Tracks s' q
run-Replays got got_data limit events s s' e n r =
    let loaded = reverse_init_lem got got_data limit s e in
    run-Tracks limit events s s' (subst (IsSound limit) loaded (loaded_system-IsSound limit)) n r []
      (subst (λ x. Tracks x []) loaded (λ free. refl))
