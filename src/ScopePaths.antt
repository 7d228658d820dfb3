-- ===== src/ScopePaths.antt =====
-- domain/scope-paths.ts: the paths of the primary checkout that a writer scope stands for.
use openclaw_wave_runner.Prelude.{
  ℕ, Bool, true, false, ◌||◌, ◌&&◌, not, Option, none, some, List, [], ◌∷◌, ◌++◌, ◌==◌,
  if◌then◌else◌, any, all, is_empty, Text, text, text_eq,
}
use openclaw_wave_runner.WriterScope.{strip_prefix}
use openclaw_wave_runner.Controller.Reasons.{trim, lower_text}

-- the characters that `.` does not match
abbrev ends_line : ℕ → Bool
ends_line ch = ch == 10 || (ch == 13 || (ch == 0x2028 || ch == 0x2029))

-- `(.+)$`
abbrev is_line : Text → Bool
is_line s = not (is_empty s) && all (λ ch. not (ends_line ch)) s

-- `^prefix(.+)$`
abbrev line_of : Option Text → Option Text
line_of none = none
line_of (some rest) = if is_line rest then some rest else none

abbrev or_else : Option Text → Option Text → Option Text
or_else (some a) b = some a
or_else none b = b

-- `/^(?:game|jam):(.+)$/`
unfoldable pub game_of : Text → Option Text
unfolding strip_prefix
game_of scope =
    or_else (line_of (strip_prefix (text "game:") scope))
      (line_of (strip_prefix (text "jam:") scope))

-- `/^board:(.+)$/`
unfoldable pub board_of : Text → Option Text
unfolding strip_prefix
board_of scope = line_of (strip_prefix (text "board:") scope)

-- `/(^|\/)issues\/BOARD\.md$/i`; the flag says that the text before is none or ends in a slash
unfoldable pub is_board_file : Bool → Text → Bool
is_board_file after_slash [] = false
is_board_file after_slash (ch ∷ s) =
    (after_slash && text_eq (lower_text (ch ∷ s)) (text "issues/board.md"))
    || is_board_file (ch == b'/') s

-- `replaceAll("\\", "/")`
abbrev to_slash : ℕ → ℕ
to_slash ch = if ch == 92 then b'/' else ch

abbrev pub slashes : Text → Text
slashes [] = []
slashes (ch ∷ s) = to_slash ch ∷ slashes s

-- `[...new Set(out)]`, with the texts that were seen before
unfoldable pub unique : List Text → List Text → List Text
unique seen [] = []
unique seen (x ∷ xs) = if any (text_eq x) seen then unique seen xs else x ∷ unique (x ∷ seen) xs

abbrev part : Text → Option Text → Text → List Text
part before none after = []
part before (some name) after = (before ++ name ++ after) ∷ []

abbrev board_file : Option Text → List Text
board_file none = []
board_file (some src) = if is_board_file true src then src ∷ [] else []

abbrev trimmed_source : Option Text → Option Text
trimmed_source none = none
trimmed_source (some path) = some (trim (slashes path))

unfoldable pub scope_paths : Text → Option Text → List Text
unfolding trim game_of board_of is_board_file unique
scope_paths writer_scope source_path = unique [] (
    part (text "game/jams/") (game_of (trim writer_scope)) (text "/")
    ++ part (text "issues/") (board_of (trim writer_scope)) (text "/")
    ++ board_file (trimmed_source source_path))
