-- ===== src/HLog.antt =====
-- HLog.cpp: the two versions of `HLogInner`, with log4cpp and without, and what they call. The texts that
-- the format strings give are arguments.
pub mod Line
pub mod Category
pub mod Call
use hodgepodge.Prelude.{
  ℕ, zero, suc, ◌+◌, ◌-◌, ◌*◌, ◌/◌, ◌%◌, ◌^◌, Bool, true, false, List, [], ◌∷◌, ◌++◌, Option, none,
  some, if◌then◌else◌, ltb, ◌==◌, length, take, drop, replicate, ℤ, pos, negsuc, size_of_int,
}

pub data Level : Type 0 where
  debug info warn error fatal : Level

-- The bits of two flags.
unfoldable pub and_bits : ℕ → ℕ → ℕ → ℕ
and_bits zero a b = 0
and_bits (suc width) a b = (a % 2) * (b % 2) + 2 * and_bits width (a / 2) (b / 2)

-- `nDebugLevel`: all levels but N_WARN.
abbrev pub debug_level : ℕ
debug_level = 1 + 2 + 64 + 128

-- The case of a switch on a flag.
abbrev pub level_of : ℕ → Option Level
level_of flag =
    if flag == 1
    then some debug
    else if flag == 2
    then some info
    else if flag == 4
    then some warn
    else if flag == 64
    then some error
    else if flag == 128
    then some fatal
    else none

-- The characters of an array before its first zero; `none` if there is no zero.
unfoldable pub text_of : List ℕ → Option (List ℕ)
text_of [] = none
text_of (zero ∷ cs) = some []
text_of (suc c ∷ cs) = elim (text_of cs) [ none ↦ none | some text ↦ some (suc c ∷ text) ]

-- Characters written into an array from an index on; `none` if one is written past its end.
unfoldable pub write_at : List ℕ → ℕ → List ℕ → Option (List ℕ)
write_at array i [] = some array
write_at [] i (c ∷ cs) = none
write_at (x ∷ array) zero (c ∷ cs) = elim (write_at array zero cs) [
  | none ↦ none
  | some after ↦ some (c ∷ after)
]
write_at (x ∷ array) (suc i) (c ∷ cs) = elim (write_at array i (c ∷ cs)) [
  | none ↦ none
  | some after ↦ some (x ∷ after)
]

-- `snprintf` and `vsnprintf` of a text: at most `size` characters, with the zero at the end.
unfoldable pub print_at : List ℕ → ℕ → ℕ → List ℕ → Option (List ℕ)
unfolding write_at
print_at array i zero text = some array
print_at array i (suc n) text = write_at array i (take n text ++ 0 ∷ [])

-- `4096 - offset - 1` as an `int`
abbrev pub max_log_size : ℕ → ℤ
max_log_size offset = if ltb offset 4096 then pos (4095 - offset) else negsuc (offset - 4096)

-- The message is put after what the buffer holds; the text that the buffer holds then.
unfoldable pub add_message : List ℕ → List ℕ → Option (List ℕ)
unfolding text_of print_at
add_message buffer message = elim (text_of buffer) [
  | none ↦ none
  | some start ↦
      elim (print_at buffer (length start) (size_of_int (max_log_size (length start))) message) [
        | none ↦ none
        | some after ↦ text_of after
      ]
]

abbrev pub empty_buffer : List ℕ
empty_buffer = replicate 4096 0

-- The switch that puts the header of the level into the buffer.
unfoldable pub put_header : (Level → List ℕ) → Option Level → Option (List ℕ)
unfolding print_at
put_header header none = some empty_buffer
put_header header (some level) = print_at empty_buffer 0 4096 (header level)

-- `HLogInner` without log4cpp: the line that it prints, if any; `none` for an access past the buffer.
unfoldable pub log_line : (Level → List ℕ) → ℕ → List ℕ → Option (Option (List ℕ))
unfolding put_header add_message
log_line header flag message =
    let shown = and_bits 32 flag debug_level in
    elim (put_header header (level_of shown)) [
      | none ↦ none
      | some buffer ↦
          if shown == 0
          then some none
          else elim (add_message buffer message) [ none ↦ none | some line ↦ some (some line) ]
    ]

-- `rfind` of a character; `none` stands for `npos`.
unfoldable pub rfind : ℕ → List ℕ → Option ℕ
rfind c [] = none
rfind c (x ∷ xs) = elim (rfind c xs) [
  | none ↦ if x == c then some 0 else none
  | some i ↦ some (suc i)
]

abbrev pub as_size : Option ℕ → ℕ
as_size none = 2 ^ 64 - 1
as_size (some i) = i

-- `substr`; `none` for the exception `out_of_range`.
abbrev pub substr : List ℕ → ℕ → ℕ → Option (List ℕ)
substr text i n = if ltb (length text) i then none else some (take n (drop i text))

-- The name of the category, from the name of the source file, in the arithmetic of `size_t`.
unfoldable pub category_of : List ℕ → Option (List ℕ)
unfolding rfind
category_of file =
    let slash = as_size (rfind 47 file) in
    let dot = as_size (rfind 46 file) in
    substr file ((slash + 1) % 2 ^ 64) ((dot + 2 ^ 64 - slash + 2 ^ 64 - 1) % 2 ^ 64)

-- `getEnvVar`, by what `getenv` gives.
abbrev pub get_env_var : Option (List ℕ) → List ℕ
get_env_var none = []
get_env_var (some value) = value

-- `initLog4cpp`, by which files exist, the variable HDDL_INSTALL_DIR and the text that is put
-- after it: the value returned and the file that log4cpp is configured with.
unfoldable pub init_log4cpp :
    (List ℕ → Bool) → Option (List ℕ) → List ℕ → List ℕ → ℤ × Option (List ℕ)
init_log4cpp exists env suffix config =
    if exists config then (pos 0, some config) else elim (get_env_var env) [
      | [] ↦ (pos 0, none)
      | c ∷ dir ↦
          let installed = (c ∷ dir) ++ suffix in
          if exists installed then (pos 0, some installed) else (negsuc 0, none)
    ]

-- What a call of `HLogInner` with log4cpp does: the value returned, `logInitilized` after it and the
-- call of a category, with the level, the name of the category and the text.
pub record Logged : Type 0 where
  pub ret : ℤ
  pub initialized : Bool
  pub call : Option (Level × List ℕ × List ℕ)

-- `HLogInner` with log4cpp, by `logInitilized` and what `initLog4cpp` would return; `none` for an
-- access past the buffer or an exception.
unfoldable pub log_category : Bool → ℤ → List ℕ → List ℕ → ℕ → List ℕ → Option Logged
unfolding category_of print_at add_message
log_category false (negsuc e) file header flag message =
    some (record { ret = negsuc 0; initialized = false; call = none })
log_category initialized init file header flag message = elim (category_of file) [
  | none ↦ none
  | some category ↦ elim (print_at empty_buffer 0 4096 header) [
    | none ↦ none
    | some buffer ↦ elim (add_message buffer message) [
      | none ↦ none
      | some text ↦ some (record {
        ret = pos 0;
        initialized = true;
        call = elim (level_of flag) [ none ↦ none | some level ↦ some (level, category, text) ];
      })
    ]
  ]
]
