-- ===== src/HLog/Call.antt =====
-- A call of `HLogInner` with log4cpp, once that is initialised.
use hodgepodge.Prelude.{
  ℕ, ◌-◌, ◌^◌, ◌<◌, ◌≡◌, refl, ap, true, List, ◌++◌, Option, none, some, length, take, ℤ, pos,
}
use hodgepodge.Uds.Strings.{IsText}
use hodgepodge.HLog.{
  Level, debug, level_of, put_header, print_at, empty_buffer, Logged, log_category,
}
use hodgepodge.HLog.Line.{HoldsText, put_header-HoldsText, add_message-line}
use hodgepodge.HLog.Category.{IsDirectory, file_name, IsName, category_of_lem}

header_printed :
    (header : List ℕ)
    → IsText header
    → (buffer : List ℕ) × (print_at empty_buffer 0 4096 header ≡ some buffer)
      × HoldsText buffer (take 4095 header)
unfolding put_header
header_printed header h = put_header-HoldsText (λ l. header) (some debug) (λ l. h)

-- What a call of a category logs: nothing where the flag is not a level.
abbrev pub logged : Option Level → List ℕ → List ℕ → Option (Level × List ℕ × List ℕ)
logged none category text = none
logged (some level) category text = some (level, category, text)

-- Where log4cpp is initialised, `HLogInner` throws no exception and writes nothing past its buffer:
-- where the flag is a level, it calls, for that level, the category named after the source file, without the
-- directory and the last extension, with the header and the message behind it, each as far as it fits.
pub log_category_lem :
    (init : ℤ) (dir base : List ℕ) (ext : Option (List ℕ)) (header : List ℕ) (flag : ℕ)
    (message : List ℕ)
    → IsDirectory dir
    → IsName base ext
    → length (dir ++ file_name base ext) < 2 ^ 63
    → IsText header
    → IsText message
    → log_category true init (dir ++ file_name base ext) header flag message
      ≡ some (record {
        ret = pos 0;
        initialized = true;
        call =
            logged
              (level_of flag)
              base
              (take 4095 header ++ take (4094 - length (take 4095 header)) message);
      })
unfolding log_category
log_category_lem init dir base ext header flag message d n size h m =
    let named = category_of_lem dir base ext d n size in
    let (buffer, printed, holds) = header_printed header h in
    let line = add_message-line buffer (take 4095 header) message holds m in
    rw (named, printed, line, log_category) (ap called (same (level_of flag) _ _))
  where
    called : Option (Level × List ℕ × List ℕ) → Option Logged
    called c = some (record { ret = pos 0; initialized = true; call = c })

    same :
        (l : Option Level) (category text : List ℕ)
        → elim l [ none ↦ none | some level ↦ some (level, category, text) ]
          ≡ logged l category text
    same none category text = refl
    same (some level) category text = refl
