-- ===== src/Channel/Serving.antt =====
-- What the service's thread does with a posted notification.
use hodgepodge.Prelude.{
  zero, suc, ◌≡◌, refl, sym, ap, subst, ◌∙◌, Bool, true, false, List, [], ◌∷◌, ◌++◌, arith,
}
use hodgepodge.Channel.{
  Post, cache_read, cache_error, Channel, Start, Use, broken_pipe, notify, Action, writes, breaks,
  completes, runs, serve,
}
use hodgepodge.Pipe.{cached}
use hodgepodge.Channel.Reads.{Fine}
use hodgepodge.Channel.Sound.{
  IsSound, IsTaken, call_user-IsSound, call_user_empty-IsSound, waiting, has_byte, has_end,
  has_error, is_closed,
}

-- A completion that tells of a byte.
abbrev pub is_byte : List Post → Bool
is_byte (cache_read (suc zero) e ∷ ps) = true
is_byte ps = false

-- A callback for a byte makes a read.
abbrev pub ReadsFor : List Post → List Use → Type 0
ReadsFor ps [] = is_byte ps ≡ false
ReadsFor ps (u ∷ us) = Unit

abbrev pub Reads : Channel → Action → Type 0
Reads c (writes bs) = Unit
Reads c breaks = Unit
Reads c completes = Unit
Reads c (runs us start) = ReadsFor c.posted us

serve_byte :
    (on_close : Bool) (us : List Use) (start : Start) (c : Channel)
    → c.outstanding ≡ false
    → c.closed ≡ false
    → c.arrived ≡ c.delivered ++ c.cache_byte0 ∷ c.incoming
    → ReadsFor (cache_read 1 0 ∷ []) us
    → Fine IsSound (serve true on_close (cache_read 1 0 ∷ []) us start c)
unfolding serve notify
serve_byte on_close [] start c o l a r = cc
serve_byte true (u ∷ us) start c o l a r =
    call_user-IsSound true u us start _
      (record { not_outstanding = o; none_posted = refl; not_closed = l; all_held = a })
serve_byte false (u ∷ us) start c o l a r =
    call_user-IsSound false u us start _
      (record { not_outstanding = o; none_posted = refl; not_closed = l; all_held = a })

IsTaken-empty :
    (c : Channel)
    → c.outstanding ≡ false
    → c.closed ≡ false
    → c.cache_empty ≡ true
    → c.arrived ≡ c.delivered ++ c.incoming
    → IsTaken (record c { posted = [] })
IsTaken-empty c o l e a = record {
  not_outstanding = o;
  none_posted = refl;
  not_closed = l;
  all_held = a ∙ ap (λ b. c.delivered ++ (cached b c.cache_byte0 ++ c.incoming)) (sym e);
}

serve_end :
    (on_close : Bool) (us : List Use) (start : Start) (c : Channel)
    → c.outstanding ≡ false
    → c.closed ≡ false
    → c.cache_empty ≡ true
    → c.arrived ≡ c.delivered ++ c.incoming
    → Fine IsSound (serve true on_close (cache_read 0 broken_pipe ∷ []) us start c)
unfolding serve notify
serve_end true us start c o l e a = is_closed o refl refl a
serve_end false us start c o l e a =
    call_user_empty-IsSound false us start _ (IsTaken-empty c o l e a) e

serve_error :
    (on_close : Bool) (us : List Use) (start : Start) (c : Channel)
    → c.outstanding ≡ false
    → c.closed ≡ false
    → c.cache_empty ≡ true
    → c.arrived ≡ c.delivered ++ c.incoming
    → Fine IsSound (serve true on_close (cache_error ∷ []) us start c)
unfolding serve notify
serve_error on_close us start c o l e a = ground (
  arith,
  call_user_empty-IsSound on_close us start (record c { posted = [] }) (IsTaken-empty c o l e a) e,
)

pub serve-IsSound :
    (on_close : Bool) (us : List Use) (start : Start) (c : Channel) (ps : List Post)
    → c.posted ≡ ps
    → IsSound c
    → ReadsFor ps us
    → Fine IsSound (serve true on_close ps us start c)
serve-IsSound on_close us start c ps e (waiting o p m l a) r = rw (sym e ∙ p) (unfold serve in tt)
serve-IsSound on_close us start c ps e (has_byte o p m l a) r =
    rw (sym e ∙ p) (serve_byte on_close us start c o l a (subst (λ z. ReadsFor z us) (sym e ∙ p) r))
serve-IsSound on_close us start c ps e (has_end o p m l a) r =
    rw (sym e ∙ p) (serve_end on_close us start c o l m a)
serve-IsSound on_close us start c ps e (has_error o p m l a) r =
    rw (sym e ∙ p) (serve_error on_close us start c o l m a)
serve-IsSound on_close us start c ps e (is_closed o p l a) r = rw (sym e ∙ p) (unfold serve in tt)
