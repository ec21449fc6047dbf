-- ===== src/Demo/Reading.antt =====
-- What the readers do keeps what holds of the queue and its threads.
use hodgepodge.Prelude.{
  ℕ, suc, ◌<◌, ◌^◌, ◌≡◌, ◌≢◌, refl, sym, ap, ◌∙◌, Bool, true, false, List, [], ◌∷◌, map, some,
  if◌then◌else◌, get_elem?, set, arith, length-append, Option-cases, inl, inr,
}
use hodgepodge.BlockingQueue.{can_get, get}
use hodgepodge.BlockingQueue.History.{IsSound, act-IsSound}
use hodgepodge.BlockingQueue.Threads.{
  Pc, idle, getting, waiting_get, putting, waiting_put, calls_get, runs, wakes, outgoing,
  wake_putter, act, move, run_get, finish_get,
}
use hodgepodge.Demo.{Reader, Demo, note_at, call_reader, go_on, go, action_of}
use hodgepodge.Demo.Counts.{
  get-closed, get-ended, get-empty, on_way, IsMain, Fits, Linked, Linked-wake_putter, Linked-set,
  Linked-note_at, note_at-count, Done-note_at,
}
use hodgepodge.Demo.Filling.{Holds, branch}

module _ {A : Type 0} where
  wake_putter-IsMain :
      (p : Pc A)
      → IsMain p
      → (IsMain (wake_putter p))
        × (on_way (wake_putter p) ≡ on_way p)
        × (p ≡ idle → wake_putter p ≡ idle)
  wake_putter-IsMain idle h = (tt, refl, λ e. refl)
  wake_putter-IsMain (putting b x) h = (h, refl, λ e. e)
  wake_putter-IsMain (waiting_put x) h = (refl, refl, λ e. absurd (waiting_not_idle e))
    where
      waiting_not_idle : {y : A} → waiting_put y ≢ idle
      waiting_not_idle e = cc
  wake_putter-IsMain (getting f) h = absurd h
  wake_putter-IsMain (waiting_get f) h = absurd h

module _ {A : Type 0} (item : ℕ → A) (total limit : ℕ) (small : limit < 2 ^ 31) where
  call_reader-Holds :
      (d : Demo A) (j : ℕ) → Holds total limit d → Holds total limit (call_reader item total j d)
  unfolding call_reader act move
  call_reader-Holds d j h = elim (Option-cases (get_elem? d.readers j)) [
    | inl missing ↦ rw (missing, call_reader) h
    | inr (r, there) ↦
        rw (there, call_reader)
          (branch (Holds total limit) r.returned _ _ (λ over. h)
            (λ on. record {
              main = h.main;
              others = set h.others j (getting r.filter);
              shape = ap (λ t. set t (suc j) (getting r.filter)) h.shape;
              fills = h.fills;
              linked = Linked-set h.others d.readers j r (getting r.filter) there refl h.linked;
              sound = act-IsSound limit d.queue (suc j) idle (calls_get r.filter) small h.sound;
              counted = h.counted;
              entered = h.entered;
              bounded = h.bounded;
              at_end = h.at_end;
              finished = h.finished;
            }))
  ]

  -- A reader that sleeps, or is woken, or does not get the mutex.
  reader_moves-Holds :
      (d : Demo A) (j : ℕ) (q : Pc A) (r : Reader A)
      → get_elem? d.readers j ≡ some r
      → Fits q r
      → IsSound limit (move d.queue (suc j) q)
      → Holds total limit d
      → Holds total limit (record d { queue = move d.queue (suc j) q })
  unfolding move
  reader_moves-Holds d j q r there fits v h = record {
    main = h.main;
    others = set h.others j q;
    shape = ap (λ t. set t (suc j) q) h.shape;
    fills = h.fills;
    linked = Linked-set h.others d.readers j r q there fits h.linked;
    sound = v;
    counted = h.counted;
    entered = h.entered;
    bounded = h.bounded;
    at_end = h.at_end;
    finished = h.finished;
  }

  -- The threads after a step of a reader, with the first as it was, or woken.
  record Placed (threads : List (Pc A)) (readers : List (Reader A)) (was : Pc A) : Type 0 where
    front : Pc A
    rest : List (Pc A)
    split : threads ≡ front ∷ rest
    stands : IsMain front
    same_way : on_way front ≡ on_way was
    stays : was ≡ idle → front ≡ idle
    tied : Linked rest readers

  readers_back :
      (d : Demo A) (j : ℕ) (r : Reader A) (h : Holds total limit d)
      → get_elem? d.readers j ≡ some r
      → (b : Bool)
      → Placed
          (if b
            then map wake_putter (set d.queue.threads (suc j) idle)
            else set d.queue.threads (suc j) idle)
          d.readers
          h.main
  readers_back d j r h there b =
      let tied = Linked-set h.others d.readers j r idle there tt h.linked in
      let woken = wake_putter-IsMain h.main h.fills in
      branch (λ t. Placed t d.readers h.main) b _ _
        (λ notified. record {
          front = wake_putter h.main;
          rest = map wake_putter (set h.others j idle);
          split = ap (λ t. map wake_putter (set t (suc j) idle)) h.shape;
          stands = woken.0;
          same_way = woken.1;
          stays = woken.2;
          tied = Linked-wake_putter (set h.others j idle) d.readers tied;
        })
        (λ quiet. record {
          front = h.main;
          rest = set h.others j idle;
          split = ap (λ t. set t (suc j) idle) h.shape;
          stands = h.fills;
          same_way = refl;
          stays = λ e. e;
          tied = tied;
        })

  -- `get` in a reader.
  reader_gets-Holds :
      (d : Demo A) (j : ℕ) (f : A → Bool) (r : Reader A)
      → get_elem? d.readers j ≡ some r
      → f ≡ r.filter
      → IsSound limit (finish_get d.queue (suc j) (get f d.queue.queue))
      → Holds total limit d
      → Holds total limit (record d {
        queue = finish_get d.queue (suc j) (get f d.queue.queue);
        readers = note_at j (get f d.queue.queue).1 d.readers;
      })
  unfolding finish_get
  reader_gets-Holds d j f r there fits v h =
      let q = d.queue.queue in
      let out = (get f q).1 in
      let place = readers_back d j r h there (get f q).2 in
      record {
        main = place.front;
        others = place.rest;
        shape = place.split;
        fills = place.stands;
        linked = Linked-note_at place.rest d.readers j out place.tied;
        sound = v;
        counted = omega (
          arith,
          length-append d.queue.delivered (outgoing out),
          h.counted,
          note_at-count d.readers j r out there,
        );
        entered = omega (arith, h.entered, place.same_way);
        bounded = h.bounded;
        at_end = λ over.
            let (all_made, still) = h.at_end (sym (get-closed f q) ∙ over) in
            (all_made, place.stays still);
        finished =
            Done-note_at q (get f q).0 d.readers j r out there
              (λ e any. last (get-ended f q (λ x. ap (λ g. g x) fits ∙ any x) e))
              (λ t k ret any. last (k ret any)) h.finished;
      }
    where
      last :
          (d.queue.queue.closed ≡ true) × (d.queue.queue.q ≡ [])
          → ((get f d.queue.queue).0.closed ≡ true) × ((get f d.queue.queue).0.q ≡ [])
      last (over, e) = (get-closed f d.queue.queue ∙ over, get-empty f d.queue.queue e)

  go_on-Holds :
      (d : Demo A) (j : ℕ) (f : A → Bool) (r : Reader A)
      → get_elem? d.readers j ≡ some r
      → f ≡ r.filter
      → Holds total limit d
      → Holds total limit (go_on item total j f runs d)
  unfolding go_on act run_get
  go_on-Holds d j f r there fits h =
      branch
        (λ q.
          IsSound limit q
          → Holds total limit (
              if can_get f d.queue.queue
              then record d { queue = q; readers = note_at j (get f d.queue.queue).1 d.readers }
              else record d { queue = q }))
        (can_get f d.queue.queue) _ _ (λ now v. rw now (reader_gets-Holds d j f r there fits v h))
        (λ later v. rw later (reader_moves-Holds d j (waiting_get f) r there fits v h))
        (act-IsSound limit d.queue (suc j) (getting f) runs small h.sound)

  pub reader_goes-Holds :
      (d : Demo A) (j : ℕ) (p : Pc A) (r : Reader A) (spurious : Bool)
      → get_elem? d.readers j ≡ some r
      → Fits p r
      → Holds total limit d
      → Holds total limit (go item total (suc j) p (action_of spurious) d)
  unfolding go act
  reader_goes-Holds d j idle r b there f h = call_reader-Holds d j h
  reader_goes-Holds d j (getting g) r false there f h = go_on-Holds d j g r there f h
  reader_goes-Holds d j (getting g) r true there f h = unfold go_on in h
  reader_goes-Holds d j (waiting_get g) r false there f h = h
  reader_goes-Holds d j (waiting_get g) r true there f h =
      reader_moves-Holds d j (getting g) r there f
        (act-IsSound limit d.queue (suc j) (waiting_get g) wakes small h.sound) h
  reader_goes-Holds d j (putting c x) r b there f h = absurd f
  reader_goes-Holds d j (waiting_put x) r b there f h = absurd f
