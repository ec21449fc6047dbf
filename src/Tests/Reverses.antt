-- ===== src/Tests/Reverses.antt =====
-- Runs of the device: a reader that waits for a writer, and the theorems on them.
use hodgepodge.Prelude.{
  ℕ, ◌≡◌, ◌≤◌, refl, true, false, List, [], ◌∷◌, Option, none, some, replicate, All,
}
use hodgepodge.Reverse.{
  idle, asleep, returned, bytes, failed, again, too_big, Event, read, write, go, fault_out, System,
  run,
}
use hodgepodge.Reverse.Invariant.{IsSound}
use hodgepodge.Reverse.Lock.{Settled}
use hodgepodge.Reverse.Runs.{is_between, IsAlert, loaded_system, run-IsSound, run-IsAlert}
use hodgepodge.Reverse.Release.{release_in_five}
use hodgepodge.Reverse.Stream.{Replays, log, put, took, NoFault}
use hodgepodge.Reverse.Queue.{Tracks, run-Replays}

abbrev loaded : System
loaded = loaded_system 8

-- Thread 0 reads two bytes and falls asleep; thread 1 writes three, up to the wake-up.
abbrev until_wake_up : List (ℕ × Event)
until_wake_up =
    (0, read 2 false)
    ∷ (0, go)
    ∷ (0, go)
    ∷ (0, go)
    ∷ (1, write (5 ∷ 6 ∷ 7 ∷ []))
    ∷ (1, go)
    ∷ (1, go)
    ∷ (1, go)
    ∷ (1, go)
    ∷ []

abbrev empty_system : System
empty_system = record {
  buffer = record { data_bytes = []; end = none; read_ptr = none; size = 0; lock = none };
  threads = λ i. idle;
}

abbrev result_of : Option System → System
result_of none = empty_system
result_of (some s) = s

abbrev before_wake_up : System
before_wake_up = result_of (run 8 until_wake_up loaded)

abbrev to_the_end : List (ℕ × Event)
to_the_end =
    (0, read 2 false)
    ∷ (0, go)
    ∷ (0, go)
    ∷ (0, go)
    ∷ (1, write (5 ∷ 6 ∷ 7 ∷ []))
    ∷ (1, go)
    ∷ (1, go)
    ∷ (1, go)
    ∷ (1, go)
    ∷ (1, go)
    ∷ (1, go)
    ∷ (0, go)
    ∷ (0, go)
    ∷ (0, go)
    ∷ (0, go)
    ∷ (2, read 9 true)
    ∷ (2, go)
    ∷ (2, fault_out)
    ∷ (2, go)
    ∷ (2, read 9 true)
    ∷ (2, go)
    ∷ (2, go)
    ∷ (2, go)
    ∷ (1, read 1 true)
    ∷ (1, go)
    ∷ (1, go)
    ∷ []

abbrev at_the_end : System
at_the_end = result_of (run 8 to_the_end loaded)

asleep_before : before_wake_up.threads 0 ≡ asleep 2 false
unfolding run
asleep_before = refl

reader_result : at_the_end.threads 0 ≡ returned (bytes (5 ∷ 6 ∷ []))
unfolding run
reader_result = refl

third_result : at_the_end.threads 2 ≡ returned (bytes (7 ∷ []))
unfolding run
third_result = refl

empty_again : at_the_end.threads 1 ≡ returned (failed again)
unfolding run
empty_again = refl

deeds_to_the_end :
    log 8 to_the_end loaded ≡ put (5 ∷ 6 ∷ 7 ∷ []) ∷ took 2 (5 ∷ 6 ∷ []) ∷ took 9 (7 ∷ []) ∷ []
unfolding log
deeds_to_the_end = refl

write_too_big :
    (result_of (run 8 ((0, write (replicate 9 0)) ∷ []) loaded)).threads 0
    ≡ returned (failed too_big)
unfolding run
write_too_big = refl

run-IsSound_example :
    IsSound 8 before_wake_up
    × (((j : ℕ) → is_between (before_wake_up.threads j) ≡ false) → Settled 8 before_wake_up.buffer)
unfolding run
run-IsSound_example = run-IsSound true true 8 until_wake_up loaded before_wake_up refl refl

run-IsAlert_example : IsAlert before_wake_up
unfolding run
run-IsAlert_example = run-IsAlert true true 8 until_wake_up loaded before_wake_up refl refl

release_in_five_example :
    (n : ℕ) × (freed : System) × (n ≤ 5)
    × (run 8 (replicate n (1, go)) before_wake_up ≡ some freed)
    × (freed.buffer.lock ≡ none)
unfolding run
release_in_five_example =
    release_in_five true true 8 1 until_wake_up loaded before_wake_up refl refl refl

no_fault : All NoFault to_the_end
no_fault = (
  tt,
  (
    tt,
    (
      tt,
      (
        tt,
        (
          tt,
          (
            tt,
            (
              tt,
              (
                tt,
                (
                  tt,
                  (
                    tt,
                    (
                      tt,
                      (
                        tt,
                        (
                          tt,
                          (
                            tt,
                            (
                              tt,
                              (tt, (tt, (tt, (tt, (tt, (tt, (tt, (tt, (tt, (tt, (tt, tt))))))))))),
                            ),
                          ),
                        ),
                      ),
                    ),
                  ),
                ),
              ),
            ),
          ),
        ),
      ),
    ),
  ),
)

run-Replays_example : (q : List ℕ) × Replays (log 8 to_the_end loaded) [] q × Tracks at_the_end q
unfolding run
run-Replays_example = run-Replays true true 8 to_the_end loaded at_the_end refl no_fault refl
