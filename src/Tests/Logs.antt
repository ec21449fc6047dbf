-- ===== src/Tests/Logs.antt =====
-- The logger at concrete inputs.
use hodgepodge.Prelude.{◌≡◌, refl, true, List, [], ◌∷◌, ◌++◌, ℕ, none, some, arith, pos}
use hodgepodge.Uds.Strings.{IsText}
use hodgepodge.HLog.{Level, warn, error, and_bits, log_line, log_category}
use hodgepodge.HLog.Line.{log_line_lem}
use hodgepodge.HLog.Category.{path}
use hodgepodge.HLog.Call.{log_category_lem}

abbrev header : Level → List ℕ
header error = 69 ∷ []
header l = 73 ∷ []

header-IsText : (l : Level) → IsText (header l)
header-IsText error = (omega arith, tt)
header-IsText l = (omega arith, tt)

-- An error is printed.
log_line_lem_example : log_line header 64 (7 ∷ 8 ∷ []) ≡ some (some (69 ∷ 7 ∷ 8 ∷ []))
unfolding and_bits
log_line_lem_example =
    log_line_lem header 64 (7 ∷ 8 ∷ []) header-IsText (omega arith, (omega arith, tt))

-- A warning is not.
warning_lost : log_line header 4 (7 ∷ []) ≡ some none
unfolding log_line and_bits
warning_lost = refl

-- The file `/.a/b.c`, of the category `b`.
log_category_lem_example :
    log_category true
      (pos 0)
      ((47 ∷ 46 ∷ 97 ∷ 47 ∷ []) ++ (98 ∷ 46 ∷ 99 ∷ []))
      (58 ∷ [])
      4
      (7 ∷ 8 ∷ [])
    ≡ some
        (record { ret = pos 0; initialized = true; call = some (warn, 98 ∷ [], 58 ∷ 7 ∷ 8 ∷ []) })
log_category_lem_example =
    log_category_lem (pos 0) (47 ∷ 46 ∷ 97 ∷ 47 ∷ []) (98 ∷ []) (some (99 ∷ [])) (58 ∷ []) 4
      (7 ∷ 8 ∷ []) (path (47 ∷ 46 ∷ 97 ∷ []) refl) ((refl, tt), (refl, tt), (refl, tt))
      (omega arith) (omega arith, tt) (omega arith, (omega arith, tt))
