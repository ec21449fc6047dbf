-- ===== src/HLog/Line.antt =====
-- What the buffer of `HLogInner` holds, and that nothing is written past its end.
use hodgepodge.Prelude.{
  ℕ, zero, suc, ◌+◌, ◌-◌, ◌≤◌, ◌≡◌, refl, sym, ap, ◌∙◌, Bool-cases, inl, inr, List, [], ◌∷◌, ◌++◌,
  Option, none, some, if◌then◌else◌, ◌==◌, length, take, drop, replicate, arith, size_of_int,
  length-append, length-drop,
}
use mathlib.Core.List.{append_assoc, append-nil}
use hodgepodge.Uds.Strings.{IsText}
use hodgepodge.HLog.{
  Level, and_bits, debug_level, level_of, text_of, write_at, print_at, max_log_size, add_message,
  empty_buffer, put_header, log_line,
}

text_of-append : (text rest : List ℕ) → IsText text → text_of (text ++ 0 ∷ rest) ≡ some text
unfolding text_of
text_of-append [] rest h = refl
text_of-append (zero ∷ text) rest h = absurd (omega (arith, h.0))
text_of-append (suc c ∷ text) rest h = ground (arith, text_of-append text rest h.1)

write_at-start :
    (array cs : List ℕ)
    → length cs ≤ length array
    → write_at array 0 cs ≡ some (cs ++ drop (length cs) array)
unfolding write_at
write_at-start array [] h = refl
write_at-start [] (c ∷ cs) h = absurd (omega arith)
write_at-start (x ∷ array) (c ∷ cs) h = ground (arith, write_at-start array cs (omega arith))

write_at-append :
    (start array cs : List ℕ)
    → length cs ≤ length array
    → write_at (start ++ array) (length start) cs ≡ some (start ++ (cs ++ drop (length cs) array))
unfolding write_at
write_at-append [] array cs h = write_at-start array cs h
write_at-append (x ∷ start) array [] h = refl
write_at-append (x ∷ start) array (c ∷ cs) h =
    ground (arith, write_at-append start array (c ∷ cs) h)

length-take-le : (n : ℕ) (cs : List ℕ) → length (take n cs) ≤ n
length-take-le zero cs = omega arith
length-take-le (suc n) [] = omega arith
length-take-le (suc n) (c ∷ cs) = omega (arith, length-take-le n cs)

IsText-take : (n : ℕ) (cs : List ℕ) → IsText cs → IsText (take n cs)
IsText-take zero cs h = tt
IsText-take (suc n) [] h = tt
IsText-take (suc n) (c ∷ cs) h = (h.0, IsText-take n cs h.1)

IsText-append : (cs ds : List ℕ) → IsText cs → IsText ds → IsText (cs ++ ds)
IsText-append [] ds h k = k
IsText-append (c ∷ cs) ds h k = (h.0, IsText-append cs ds h.1 k)

-- A text printed behind another, where the array has room.
print_at-append :
    (start array text : List ℕ) (n : ℕ)
    → suc n ≤ length array
    → print_at (start ++ array) (length start) (suc n) text
      ≡ some ((start ++ take n text) ++ 0 ∷ drop (length (take n text ++ 0 ∷ [])) array)
unfolding print_at
print_at-append start array text n h =
    write_at-append start array (take n text ++ 0 ∷ [])
      (omega (arith, length-append (take n text) (0 ∷ []), length-take-le n text))
    ∙ ap some (
        ap (λ z. start ++ z) (append_assoc (take n text) (0 ∷ []) _)
        ∙ sym (append_assoc start (take n text) (0 ∷ drop (length (take n text ++ 0 ∷ [])) array)))

length-empty_buffer : length empty_buffer ≡ 4096
length-empty_buffer = refl

-- The buffer with a text and room for more.
pub record HoldsText (buffer text : List ℕ) : Type 0 where
  room : List ℕ
  holds : buffer ≡ text ++ 0 ∷ room
  whole : length text + suc (length room) ≡ 4096
  no_zero : IsText text

abbrev pub header_of : (Level → List ℕ) → Option Level → List ℕ
header_of header none = []
header_of header (some level) = take 4095 (header level)

pub put_header-HoldsText :
    (header : Level → List ℕ) (level : Option Level)
    → ((l : Level) → IsText (header l))
    → (buffer : List ℕ) × (put_header header level ≡ some buffer)
      × HoldsText buffer (header_of header level)
unfolding put_header
put_header-HoldsText header none h = (
  empty_buffer,
  refl,
  record { room = replicate 4095 0; holds = refl; whole = refl; no_zero = tt },
)
put_header-HoldsText header (some level) h =
    let text = take 4095 (header level) in
    (
      text ++ 0 ∷ drop (length (text ++ 0 ∷ [])) empty_buffer,
      print_at-append [] empty_buffer (header level) 4095 (omega (arith, length-empty_buffer)),
      record {
        room = drop (length (text ++ 0 ∷ [])) empty_buffer;
        holds = refl;
        whole = omega (
          arith,
          length-drop (length (text ++ 0 ∷ [])) empty_buffer,
          length-append text (0 ∷ []),
          length-take-le 4095 (header level),
          length-empty_buffer,
        );
        no_zero = IsText-take 4095 (header level) (h level);
      },
    )

print_rest :
    (start room message : List ℕ) (k : ℕ)
    → k ≡ length room
    → IsText start
    → IsText message
    → (after : List ℕ) × (print_at (start ++ 0 ∷ room) (length start) k message ≡ some after)
      × (text_of after ≡ some (start ++ take (k - 1) message))
unfolding print_at
print_rest start room message zero e h m =
    (_, refl, text_of-append start room h ∙ ap some (sym (append-nil start)))
print_rest start room message (suc n) e h m = (
  _,
  print_at-append start (0 ∷ room) message n (omega arith),
  text_of-append (start ++ take n message) _
        (IsText-append start (take n message) h (IsText-take n message m))
      ∙ ap (λ k. some (start ++ take k message)) (omega arith),
)

-- The message goes behind what the buffer holds, as far as it fits.
pub add_message-line :
    (buffer start message : List ℕ)
    → HoldsText buffer start
    → IsText message
    → add_message buffer message ≡ some (start ++ take (4094 - length start) message)
unfolding add_message
add_message-line buffer start message h m =
    let room = h.room in
    let found = ap text_of h.holds ∙ text_of-append start room h.no_zero in
    let (after, printed, line) = print_rest start room message (length room) refl h.no_zero m in
    let sized =
      ap (λ z. print_at z (length start) (size_of_int (max_log_size (length start))) message)
        h.holds
      ∙ ap (λ k. print_at (start ++ 0 ∷ room) (length start) k message)
          (fits (length start) (length room) h.whole)
      ∙ printed in
    rw (found, sized, add_message)
      (line ∙ ap (λ k. some (start ++ take k message)) (omega (arith, h.whole)))
  where
    fits : (i k : ℕ) → i + suc k ≡ 4096 → size_of_int (max_log_size i) ≡ k
    fits i k e = ground arith

-- Whatever the flag, `HLogInner` without log4cpp writes nothing past its buffer. Where the flag has a
-- bit of `nDebugLevel`, it prints the header of the level, which is empty unless the flag has
-- exactly one of these bits, and the message behind it, each as far as it fits.
pub log_line_lem :
    (header : Level → List ℕ) (flag : ℕ) (message : List ℕ)
    → ((l : Level) → IsText (header l))
    → IsText message
    → log_line header flag message
      ≡ some (
          if and_bits 32 flag debug_level == 0
          then none
          else some (
              header_of header (level_of (and_bits 32 flag debug_level))
              ++ take
                  (4094 - length (header_of header (level_of (and_bits 32 flag debug_level))))
                  message))
unfolding log_line
log_line_lem header flag message h m =
    let shown = and_bits 32 flag debug_level in
    let (buffer, put, holds) = put_header-HoldsText header (level_of shown) h in
    let line = add_message-line buffer (header_of header (level_of shown)) message holds m in
    elim (Bool-cases (shown == 0)) [
      | inl nothing ↦ rw (put, nothing, log_line) refl
      | inr something ↦ rw (put, something, line, log_line) refl
    ]
