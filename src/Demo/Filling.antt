-- ===== src/Demo/Filling.antt =====
-- What holds of the queue and its threads, and that the thread that fills the queue keeps it.
use hodgepodge.Prelude.{
  ℕ, suc, ◌+◌, ◌≤◌, ◌<◌, ◌^◌, ◌≡◌, refl, ap, ◌∙◌, Bool, true, false, List, [], ◌∷◌, map, ltb,
  ltb→lt, if◌then◌else◌, set, arith, All, All-imp, length, length-append, sum_by, Bool-cases, inl,
  inr,
}
use hodgepodge.BlockingQueue.{put, close, can_put, refuses}
use hodgepodge.BlockingQueue.History.{IsSound, act-IsSound}
use hodgepodge.BlockingQueue.Threads.{
  Pc, idle, getting, waiting_get, putting, waiting_put, calls_put, calls_close, runs, wakes,
  wake_getter, act, move, run_put, run_close, finish_put,
}
use hodgepodge.Demo.{Demo, call_main, go, action_of}
use hodgepodge.Demo.Counts.{on_way, IsMain, Linked, Linked-wake_getter, Done}

-- A property of both branches holds of the choice.
pub branch :
    {B : Type 0} (P : B → Type 0) (b : Bool) (x y : B)
    → (b ≡ true → P x)
    → (b ≡ false → P y)
    → P (if b then x else y)
branch P true x y t f = t refl
branch P false x y t f = f refl

module _ {A : Type 0} (total limit : ℕ) where
  -- What holds after any number of steps.
  pub record Holds (d : Demo A) : Type 0 where
    pub main : Pc A
    pub others : List (Pc A)
    pub shape : d.queue.threads ≡ main ∷ others
    pub fills : IsMain main
    pub linked : Linked others d.readers
    pub sound : IsSound limit d.queue
    pub counted : length d.queue.delivered ≡ sum_by (λ r. r.count) d.readers
    pub entered : length d.queue.accepted + on_way main ≡ d.made
    pub bounded : d.made ≤ total
    pub at_end : d.queue.queue.closed ≡ true → (d.made ≡ total) × (main ≡ idle)
    pub finished : All (Done d.queue.queue) d.readers

module _ {A : Type 0} (item : ℕ → A) (total limit : ℕ) (small : limit < 2 ^ 31) where
  open_queue : (d : Demo A) → d.made < total → Holds total limit d → d.queue.queue.closed ≡ false
  open_queue d m h = elim (Bool-cases d.queue.queue.closed) [
    | inl over ↦ absurd (omega (arith, (h.at_end over).0))
    | inr on ↦ on
  ]

  call_put-Holds :
      (d : Demo A)
      → (h : Holds total limit d) → h.main ≡ idle
      → d.made < total
      → Holds total limit (record d {
        queue = act d.queue 0 idle (calls_put true (item d.made));
        made = suc d.made;
      })
  unfolding act move
  call_put-Holds d h i left = record {
    main = putting true (item d.made);
    others = h.others;
    shape = ap (λ t. set t 0 (putting true (item d.made))) h.shape;
    fills = refl;
    linked = h.linked;
    sound = act-IsSound limit d.queue 0 idle (calls_put true (item d.made)) small h.sound;
    counted = h.counted;
    entered = omega (arith, h.entered, ap on_way i);
    bounded = left;
    at_end = λ over. absurd (cc (over, open_queue d left h));
    finished = h.finished;
  }

  call_close-Holds :
      (d : Demo A)
      → (h : Holds total limit d) → h.main ≡ idle
      → total ≤ d.made
      → Holds total limit (record d { queue = act d.queue 0 idle calls_close })
  unfolding act run_close close
  call_close-Holds d h i done = record {
    main = idle;
    others = map wake_getter h.others;
    shape = ap (map wake_getter) h.shape ∙ ap (λ p. wake_getter p ∷ map wake_getter h.others) i;
    fills = tt;
    linked = Linked-wake_getter h.others d.readers h.linked;
    sound = act-IsSound limit d.queue 0 idle calls_close small h.sound;
    counted = h.counted;
    entered = omega (arith, h.entered, ap on_way i);
    bounded = h.bounded;
    at_end = λ over. (omega (arith, h.bounded), refl);
    finished =
        All-imp (Done d.queue.queue) (Done (close d.queue.queue))
          (λ r k ret any. (refl, (k ret any).1)) d.readers h.finished;
  }

  call_main-Holds :
      (d : Demo A)
      → (h : Holds total limit d) → h.main ≡ idle
      → Holds total limit (call_main item total d)
  unfolding call_main
  call_main-Holds d h i =
      branch (Holds total limit) (ltb d.made total) _ _
        (λ more. call_put-Holds d h i (ltb→lt d.made total more))
        (λ done.
          branch (Holds total limit) d.queue.queue.closed _ _ (λ over. h)
            (λ on. call_close-Holds d h i (ground (arith, done))))

  -- `put` in the thread that fills the queue.
  main_puts-Holds :
      (d : Demo A) (x : A)
      → (h : Holds total limit d) → h.main ≡ putting true x
      → Holds total limit (record d { queue = act d.queue 0 (putting true x) runs })
  unfolding act run_put move finish_put put refuses
  main_puts-Holds d x h i =
      branch (λ q. IsSound limit q → Holds total limit (record d { queue = q }))
        (can_put d.queue.queue) _ _
        (λ now v. record {
          main = idle;
          others = map wake_getter h.others;
          shape = ap (λ t. map wake_getter (set t 0 idle)) h.shape;
          fills = tt;
          linked = Linked-wake_getter h.others d.readers h.linked;
          sound = v;
          counted = h.counted;
          entered = omega (arith, h.entered, ap on_way i, length-append d.queue.accepted (x ∷ []));
          bounded = h.bounded;
          at_end = λ over. absurd (cc (at_idle h over, i));
          finished =
              All-imp (Done d.queue.queue) (Done (put x d.queue.queue))
                (λ r k ret any. absurd (cc (at_idle h (k ret any).0, i))) d.readers h.finished;
        })
        (λ later v. record {
          main = waiting_put x;
          others = h.others;
          shape = ap (λ t. set t 0 (waiting_put x)) h.shape;
          fills = tt;
          linked = h.linked;
          sound = v;
          counted = h.counted;
          entered = omega (arith, h.entered, ap on_way i);
          bounded = h.bounded;
          at_end = λ over. absurd (cc (at_idle h over, i));
          finished = h.finished;
        })
        (act-IsSound limit d.queue 0 (putting true x) runs small h.sound)
    where
      at_idle : (h : Holds total limit d) → d.queue.queue.closed ≡ true → h.main ≡ idle
      at_idle h over = (h.at_end over).1

  pub main_goes-Holds :
      (d : Demo A) (p : Pc A) (spurious : Bool)
      → (h : Holds total limit d) → h.main ≡ p
      → IsMain p
      → Holds total limit (go item total 0 p (action_of spurious) d)
  unfolding go act move
  main_goes-Holds d idle b h i f = call_main-Holds d h i
  main_goes-Holds d (putting true x) false h i f = main_puts-Holds d x h i
  main_goes-Holds d (putting false x) b h i f = absurd (cc f)
  main_goes-Holds d (putting true x) true h i f = h
  main_goes-Holds d (waiting_put x) false h i f = h
  main_goes-Holds d (waiting_put x) true h i f = record {
    main = putting true x;
    others = h.others;
    shape = ap (λ t. set t 0 (putting true x)) h.shape;
    fills = refl;
    linked = h.linked;
    sound = act-IsSound limit d.queue 0 (waiting_put x) wakes small h.sound;
    counted = h.counted;
    entered = omega (arith, h.entered, ap on_way i);
    bounded = h.bounded;
    at_end = λ over. absurd (cc ((h.at_end over).1, i));
    finished = h.finished;
  }
  main_goes-Holds d (getting g) b h i f = absurd f
  main_goes-Holds d (waiting_get g) b h i f = absurd f
