-- ===== src/Channel/Stream.antt =====
-- The bytes of a pipe reach the user in their order, each once, and a notification is never lost.
use mathlib.Core.List.{append_assoc}
use hodgepodge.Prelude.{
  ℕ, ◌≡◌, refl, ap, ◌∙◌, Bool, true, false, List, [], ◌∷◌, ◌++◌, none, some, if◌then◌else◌,
}
use hodgepodge.Channel.{
  cache_read, Channel, Step, next, blocked, assert_fails, broken_pipe, Action, writes, breaks,
  completes, runs, complete, act, run, opened,
}
use hodgepodge.Channel.Reads.{Fine}
use hodgepodge.Channel.Sound.{IsSound, waiting, has_byte, has_end, has_error, is_closed}
use hodgepodge.Channel.Serving.{Reads, serve-IsSound}

possible :
    (P : Channel → Type 0) (b : Bool) (s : Step) → Fine P s → Fine P (if b then s else blocked)
possible P true s h = h
possible P false s h = tt

possible_if :
    (P : Channel → Type 0) (b : Bool) (s : Step)
    → (b ≡ true → Fine P s)
    → Fine P (if b then s else blocked)
possible_if P true s h = h refl
possible_if P false s h = tt

impossible :
    (P : Channel → Type 0) (b : Bool) (s : Step) → Fine P s → Fine P (if b then blocked else s)
impossible P true s h = tt
impossible P false s h = h

complete-IsSound :
    (c : Channel) (bytes : List ℕ)
    → c.incoming ≡ bytes
    → c.outstanding ≡ true
    → IsSound c
    → Fine IsSound (complete bytes c)
unfolding complete
complete-IsSound c [] i b (waiting o p m l a) =
    possible IsSound c.broken _
      (has_end refl (ap (λ ps. ps ++ cache_read 0 broken_pipe ∷ []) p) m l a)
complete-IsSound c (x ∷ xs) i b (waiting o p m l a) =
    has_byte refl (ap (λ ps. ps ++ cache_read 1 0 ∷ []) p) m l (a ∙ ap (λ z. c.delivered ++ z) i)
complete-IsSound c bytes i b (has_byte o p m l a) = cc
complete-IsSound c bytes i b (has_end o p m l a) = cc
complete-IsSound c bytes i b (has_error o p m l a) = cc
complete-IsSound c bytes i b (is_closed o p l a) = cc

arrive : (a d i bs : List ℕ) → a ≡ d ++ i → a ++ bs ≡ d ++ (i ++ bs)
arrive a d i bs h = rw h (append_assoc d i bs)

write-IsSound :
    (c : Channel) (bs : List ℕ)
    → IsSound c
    → IsSound (record c { incoming = c.incoming ++ bs; arrived = c.arrived ++ bs })
write-IsSound c bs (waiting o p m l a) =
    waiting o p m l (arrive c.arrived c.delivered c.incoming bs a)
write-IsSound c bs (has_byte o p m l a) =
    has_byte o p m l (arrive c.arrived c.delivered (c.cache_byte0 ∷ c.incoming) bs a)
write-IsSound c bs (has_end o p m l a) =
    has_end o p m l (arrive c.arrived c.delivered c.incoming bs a)
write-IsSound c bs (has_error o p m l a) =
    has_error o p m l (arrive c.arrived c.delivered c.incoming bs a)
write-IsSound c bs (is_closed o p l a) =
    is_closed o p l (arrive c.arrived c.delivered c.incoming bs a)

break-IsSound : (c : Channel) → IsSound c → IsSound (record c { broken = true })
break-IsSound c (waiting o p m l a) = waiting o p m l a
break-IsSound c (has_byte o p m l a) = has_byte o p m l a
break-IsSound c (has_end o p m l a) = has_end o p m l a
break-IsSound c (has_error o p m l a) = has_error o p m l a
break-IsSound c (is_closed o p l a) = is_closed o p l a

act-IsSound :
    (on_close : Bool) (a : Action) (c : Channel)
    → Reads c a
    → IsSound c
    → Fine IsSound (act true on_close a c)
unfolding act
act-IsSound on_close (writes bs) c r s = impossible IsSound c.broken _ (write-IsSound c bs s)
act-IsSound on_close breaks c r s = break-IsSound c s
act-IsSound on_close completes c r s =
    possible_if IsSound c.outstanding _ (λ b. complete-IsSound c c.incoming refl b s)
act-IsSound on_close (runs us start) c r s = serve-IsSound on_close us start c c.posted refl s r

-- Along a run, every callback for a byte makes a read.
abbrev pub Follows : (Channel → Type 0) → Step → Channel → Type 0
Follows P (next c') c = P c'
Follows P blocked c = P c
Follows P assert_fails c = Unit

abbrev pub AllRead : Bool → List Action → Channel → Type 0
AllRead on_close [] c = Unit
AllRead on_close (a ∷ rest) c =
    Reads c a × Follows (AllRead on_close rest) (act true on_close a c) c

abbrev Ends : Bool → List Action → Channel → Type 0
Ends on_close rest c = (d : Channel) × (run true on_close rest c ≡ some d) × IsSound d

go_on :
    (on_close : Bool) (rest : List Action) (c : Channel) (s : Step)
    → ((e : Channel) → AllRead on_close rest e → IsSound e → Ends on_close rest e)
    → Follows (AllRead on_close rest) s c
    → Fine IsSound s
    → IsSound c
    → (d : Channel) × ((elim s [
      | next c' ↦ run true on_close rest c'
      | blocked ↦ run true on_close rest c
      | assert_fails ↦ none
    ])
        ≡ some d)
      × IsSound d
go_on on_close rest c (next e) ih r f i = ih e r f
go_on on_close rest c blocked ih r f i = ih c r i
go_on on_close rest c assert_fails ih r f i = absurd f

run-IsSound :
    (on_close : Bool) (actions : List Action) (c : Channel)
    → AllRead on_close actions c
    → IsSound c
    → (d : Channel) × (run true on_close actions c ≡ some d) × IsSound d
unfolding run
run-IsSound on_close [] c r s = (c, refl, s)
run-IsSound on_close (a ∷ rest) c r s =
    go_on on_close rest c (act true on_close a c) (run-IsSound on_close rest) r.1
      (act-IsSound on_close a c r.0 s) s

opened-IsSound : IsSound opened
unfolding opened
opened-IsSound = waiting refl refl refl refl refl

-- A new connection with `on_read` set, after any sequence of steps in which every callback for a byte
-- makes a read: no assertion fails; a read into the cache is in flight, or one completion waits, or the
-- connection is closed; and the bytes that arrived are those delivered, the byte in the cache that the
-- user has not been told of, and those still in the pipe, in this order.
pub channel-IsSound :
    (on_close : Bool) (actions : List Action)
    → AllRead on_close actions opened
    → (d : Channel) × (run true on_close actions opened ≡ some d) × IsSound d
channel-IsSound on_close actions r = run-IsSound on_close actions opened r opened-IsSound
