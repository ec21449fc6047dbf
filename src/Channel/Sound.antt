-- ===== src/Channel/Sound.antt =====
-- What can be on its way on a pipe, and that a read that starts leaves one thing on its way.
use hodgepodge.Prelude.{
  ◌≡◌, refl, sym, ap, ◌∙◌, Bool, true, false, List, [], ◌∷◌, ◌++◌, arith, if◌then◌else◌, not, ◌&&◌,
}
use hodgepodge.Channel.{
  cache_read, cache_error, Channel, Step, assert_fails, Start, started, start_fails, Use,
  broken_pipe, trigger, use_all, call_user,
}
use hodgepodge.Pipe.{cached}
use hodgepodge.Channel.Reads.{held, Kept, Fine, Read, Fine-bind, use_all-Read}

-- What can be on its way: a read in flight, a byte, the end of the pipe or an error that the user has not
-- been told of; or the connection is closed. The bytes that arrived are those delivered, the byte on its
-- way, and those still in the pipe.
pub data IsSound (c : Channel) : Type 0 where
  waiting :
      c.outstanding ≡ true
      → c.posted ≡ []
      → c.cache_empty ≡ true
      → c.closed ≡ false
      → c.arrived ≡ c.delivered ++ c.incoming
      → IsSound c
  has_byte :
      c.outstanding ≡ false
      → c.posted ≡ cache_read 1 0 ∷ []
      → c.cache_empty ≡ true
      → c.closed ≡ false
      → c.arrived ≡ c.delivered ++ c.cache_byte0 ∷ c.incoming
      → IsSound c
  has_end :
      c.outstanding ≡ false
      → c.posted ≡ cache_read 0 broken_pipe ∷ []
      → c.cache_empty ≡ true
      → c.closed ≡ false
      → c.arrived ≡ c.delivered ++ c.incoming
      → IsSound c
  has_error :
      c.outstanding ≡ false
      → c.posted ≡ cache_error ∷ []
      → c.cache_empty ≡ true
      → c.closed ≡ false
      → c.arrived ≡ c.delivered ++ c.incoming
      → IsSound c
  is_closed :
      c.outstanding ≡ false
      → c.posted ≡ []
      → c.closed ≡ true
      → c.arrived ≡ c.delivered ++ c.incoming
      → IsSound c

-- Nothing is on its way: `notify` has taken the completion.
pub record IsTaken (c : Channel) : Type 0 where
  pub not_outstanding : c.outstanding ≡ false
  pub none_posted : c.posted ≡ []
  pub not_closed : c.closed ≡ false
  pub all_held : c.arrived ≡ c.delivered ++ held c

IsTaken-Kept : (c c' : Channel) → Kept c c' → IsTaken c → IsTaken c'
IsTaken-Kept c c' k t = record {
  not_outstanding = k.same_outstanding ∙ t.not_outstanding;
  none_posted = k.same_posted ∙ t.none_posted;
  not_closed = k.same_closed ∙ t.not_closed;
  all_held = k.same_arrived ∙ t.all_held ∙ sym k.same_bytes;
}

-- An assertion that holds.
asserted :
    (P : Channel → Type 0) (b : Bool) (s : Step)
    → b ≡ true
    → Fine P s
    → Fine P (if b then s else assert_fails)
asserted P b s e h = ground arith

asserted_not :
    (P : Channel → Type 0) (b : Bool) (s : Step)
    → b ≡ true
    → Fine P s
    → Fine P (if not b && not b then assert_fails else s)
asserted_not P b s e h = ground (arith, e)

-- All that is held is in the pipe.
empty_held :
    (c : Channel) → c.cache_empty ≡ true → IsTaken c → c.arrived ≡ c.delivered ++ c.incoming
empty_held c e t = t.all_held ∙ ap (λ b. c.delivered ++ (cached b c.cache_byte0 ++ c.incoming)) e

trigger-IsSound :
    (start : Start) (c : Channel)
    → IsTaken c
    → c.cache_empty ≡ true
    → Fine IsSound (trigger start c)
unfolding trigger
trigger-IsSound started c t e =
    asserted IsSound c.cache_empty _ e
      (waiting refl t.none_posted e t.not_closed (empty_held c e t))
trigger-IsSound (start_fails x) c t e = asserted IsSound c.cache_empty _ e (
    has_error t.not_outstanding (ap (λ ps. ps ++ cache_error ∷ []) t.none_posted) e t.not_closed
      (empty_held c e t))

-- The user makes a read where a byte has come.
pub call_user-IsSound :
    (on_close : Bool) (u : Use) (us : List Use) (start : Start) (c : Channel)
    → IsTaken c
    → Fine IsSound (call_user true on_close (u ∷ us) start c)
unfolding call_user
call_user-IsSound on_close u us start c t =
    Fine-bind (Read c) IsSound (use_all (u ∷ us) c) _ (use_all-Read u us c)
      (λ after r. kept after r (trigger-IsSound start after (IsTaken-Kept c after r.0 t) r.1))
  where
    kept :
        (after : Channel)
        → Read c after
        → Fine IsSound (trigger start after)
        → Fine IsSound (
            if not c.cache_empty && not after.cache_empty
            then assert_fails
            else trigger start after)
    kept after r h = ground (arith, r.1)

-- The user is told of the end of the pipe or of an error, and need not read.
pub call_user_empty-IsSound :
    (on_close : Bool) (us : List Use) (start : Start) (c : Channel)
    → IsTaken c
    → c.cache_empty ≡ true
    → Fine IsSound (call_user true on_close us start c)
unfolding call_user use_all
call_user_empty-IsSound on_close [] start c t e =
    asserted_not IsSound c.cache_empty _ e (trigger-IsSound start c t e)
call_user_empty-IsSound on_close (u ∷ us) start c t e =
    unfold call_user in call_user-IsSound on_close u us start c t
