-- ===== src/Demo/Totals.antt =====
-- The counts of the readers add up.
use hodgepodge.Prelude.{
  ℕ, zero, suc, ◌<◌, ◌^◌, ◌≡◌, refl, sym, ap, ◌∙◌, Bool, true, false, List, [], ◌∷◌, map, some,
  get_elem?, arith, All, All-get_elem?, subst, length, length-append, sum_by, Option-cases, inl,
  inr,
}
use mathlib.Core.Option.{some-injective}
use hodgepodge.Prelude.{Perm-length}
use hodgepodge.BlockingQueue.History.{queue-IsSound}
use hodgepodge.BlockingQueue.Order.{TakesAny}
use hodgepodge.BlockingQueue.Threads.{Pc, idle, run, start}
use hodgepodge.Demo.{Reader, Demo, go, action_of, step, run_demo, start_demo}
use hodgepodge.Demo.Counts.{on_way, IsMain, Linked, Linked-get_elem?, Done}
use hodgepodge.Demo.Filling.{Holds, main_goes-Holds}
use hodgepodge.Demo.Reading.{reader_goes-Holds}

module _ {A : Type 0} (item : ℕ → A) (total limit : ℕ) (small : limit < 2 ^ 31) where
  step-Holds :
      (d : Demo A) (s : ℕ × Bool) → Holds total limit d → Holds total limit (step item total d s)
  unfolding step
  step-Holds d (i, b) h = elim (Option-cases (get_elem? d.queue.threads i)) [
    | inl missing ↦ rw (missing, step) h
    | inr (p, there) ↦ rw (there, step) (goes i p (sym (ap (λ t. get_elem? t i) h.shape) ∙ there))
  ]
    where
      goes :
          (k : ℕ) (p : Pc A)
          → get_elem? (h.main ∷ h.others) k ≡ some p
          → Holds total limit (go item total k p (action_of b) d)
      goes zero p e =
          let same = some-injective h.main p e in
          main_goes-Holds item total limit small d p b h same (subst IsMain same h.fills)
      goes (suc j) p e =
          let (r, there, fits) = Linked-get_elem? h.others d.readers j p e h.linked in
          reader_goes-Holds item total limit small d j p r b there fits h

  run_demo-Holds :
      (d : Demo A) (hist : List (ℕ × Bool))
      → Holds total limit d
      → Holds total limit (run_demo item total d hist)
  unfolding run_demo
  run_demo-Holds d [] h = h
  run_demo-Holds d (s ∷ hist) h = run_demo-Holds (step item total d s) hist (step-Holds d s h)

  start-Linked :
      (filters : List (A → Bool))
      → Linked
          (map (λ t. idle) (map (λ f. tt {0}) filters))
          (map (λ f. record { filter = f; count = 0; returned = false }) filters)
  start-Linked [] = tt
  start-Linked (f ∷ fs) = (tt, start-Linked fs)

  start_demo-Holds : (filters : List (A → Bool)) → Holds total limit (start_demo limit filters)
  unfolding start_demo start run
  start_demo-Holds filters = record {
    main = idle;
    others = map (λ t. idle) (map (λ f. tt) filters);
    shape = refl;
    fills = tt;
    linked = start-Linked filters;
    sound = queue-IsSound limit (tt ∷ map (λ f. tt) filters) [] small;
    counted = no_counts filters;
    entered = omega arith;
    bounded = omega arith;
    at_end = λ over. absurd (cc over);
    finished = none_returned filters;
  }
    where
      no_counts :
          (fs : List (A → Bool))
          → 0
            ≡ sum_by
                (λ (r : Reader A). r.count)
                (map (λ f. record { filter = f; count = 0; returned = false }) fs)
      no_counts [] = refl
      no_counts (f ∷ fs) = omega (arith, no_counts fs)

      none_returned :
          (fs : List (A → Bool))
          → All
              (Done (start_demo limit filters).queue.queue)
              (map (λ f. record { filter = f; count = 0; returned = false }) fs)
      none_returned [] = tt
      none_returned (f ∷ fs) = ((λ ret any. absurd (cc ret)), none_returned fs)

  -- Where a reader that takes anything has left its loop, after any steps of `main` and the readers, with a
  -- limit of the queue that an `int` can hold, the queue is empty and the counts add up to
  -- the number of the elements.
  pub run_demo-count :
      (filters : List (A → Bool)) (hist : List (ℕ × Bool)) (j : ℕ) (r : Reader A)
      → get_elem? (run_demo item total (start_demo limit filters) hist).readers j ≡ some r
      → TakesAny r.filter
      → r.returned ≡ true
      → ((run_demo item total (start_demo limit filters) hist).queue.queue.q ≡ [])
        × (sum_by (λ s. s.count) (run_demo item total (start_demo limit filters) hist).readers
            ≡ total)
  run_demo-count filters hist j r there any over =
      let h = run_demo-Holds (start_demo limit filters) hist (start_demo-Holds filters) in
      let (closed, empty) = All-get_elem? _ _ j h.finished there over any in
      let (all_made, still) = h.at_end closed in
      (
        empty,
        omega (
          arith,
          h.counted,
          h.entered,
          all_made,
          ap on_way still,
          Perm-length h.sound.conserved,
          length-append (run_demo item total (start_demo limit filters) hist).queue.delivered
              (run_demo item total (start_demo limit filters) hist).queue.queue.q,
          ap length empty,
        ),
      )
