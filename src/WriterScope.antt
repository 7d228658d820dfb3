-- ===== src/WriterScope.antt =====
-- domain/writer-scope.ts: the scope that a ticket writes in, and the keys of the leases that guard
-- it. The regular expressions are written out as functions on code units.
pub mod Tokens
pub mod Keys
use openclaw_wave_runner.Prelude.{
  ℕ, Bool, true, false, ◌&&◌, ◌||◌, not, Option, none, some, get_or, List, [], ◌∷◌, ◌++◌, leb, ◌==◌,
  if◌then◌else◌, any, Text, text, text_eq, is_empty,
}

unfoldable pub drop_while : (ℕ → Bool) → Text → Text
drop_while p [] = []
drop_while p (c ∷ s) = if p c then drop_while p s else c ∷ s

unfoldable pub drop_while_end : (ℕ → Bool) → Text → Text
drop_while_end p [] = []
drop_while_end p (c ∷ s) =
    let rest = drop_while_end p s in if is_empty rest && p c then [] else c ∷ rest

-- the white space and line terminators of `String.prototype.trim`
abbrev pub is_space : ℕ → Bool
is_space c =
    leb 9 c && leb c 13
    || (c == 32
        || (c == 160
            || (c == 5760
                || (leb 8192 c && leb c 8202
                    || (c == 8232
                        || (c == 8233
                            || (c == 8239 || (c == 8287 || (c == 12288 || c == 65279)))))))))

unfoldable pub trim : Text → Text
unfolding drop_while drop_while_end
trim s = drop_while_end is_space (drop_while is_space s)

-- [a-zA-Z0-9._:-]
abbrev pub is_safe : ℕ → Bool
is_safe c =
    leb b'a' c && leb c b'z'
    || (leb b'A' c && leb c b'Z'
        || (leb b'0' c && leb c b'9' || (c == b'.' || (c == b'_' || (c == b':' || c == b'-')))))

abbrev pub is_dash : ℕ → Bool
is_dash c = c == b'-'

-- `.replace(/[^a-zA-Z0-9._:-]+/g, "-")`: one dash for each run; the flag says whether the character
-- before belonged to one
unfoldable pub collapse : Bool → Text → Text
collapse in_run [] = []
collapse in_run (c ∷ s) =
    let next = collapse (not (is_safe c)) s in
    if is_safe c then c ∷ next else if in_run then next else b'-' ∷ next

abbrev pub or_default : Text → Text → Text
or_default [] d = d
or_default (c ∷ s) d = c ∷ s

unfoldable pub sanitize_writer_token : Text → Text
unfolding collapse drop_while drop_while_end
sanitize_writer_token value =
    or_default (drop_while_end is_dash (drop_while is_dash (collapse false value))) (text "default")

unfoldable pub strip_prefix : Text → Text → Option Text
strip_prefix [] s = some s
strip_prefix (c ∷ p) [] = none
strip_prefix (c ∷ p) (d ∷ s) = if c == d then strip_prefix p s else none

-- the longest run without a slash, and what follows it
unfoldable pub until_slash : Text → Text × Text
until_slash [] = ([], [])
until_slash (c ∷ s) =
    let (run, rest) = until_slash s in if c == b'/' then ([], c ∷ s) else (c ∷ run, rest)

-- `([^/]+)\/` at the start of the text
abbrev named_directory : Option Text → Option Text
named_directory none = none
named_directory (some s) =
    let (run, rest) = until_slash s in
    if not (is_empty run) && not (is_empty rest) then some run else none

-- `([^/]+)` at the start of the text
abbrev named : Option Text → Option Text
named none = none
named (some s) = let (run, rest) = until_slash s in if is_empty run then none else some run

abbrev or_else : Option Text → Option Text → Option Text
or_else none other = other
or_else (some a) other = some a

-- `/(?:^|\/)issues\/([^/]+)\//`, the leftmost match; the flag says whether a match may start here
unfoldable pub board_from : Bool → Text → Option Text
unfolding strip_prefix until_slash
board_from at_start [] = none
board_from at_start (c ∷ s) =
    let later = board_from (c == b'/') s in
    or_else (if at_start then named_directory (strip_prefix (text "issues/") (c ∷ s)) else none)
      later

-- `/game\/jams\/([^/]+)/`, the leftmost match
unfoldable pub jam_from : Text → Option Text
unfolding strip_prefix until_slash
jam_from [] = none
jam_from (c ∷ s) =
    let later = jam_from s in or_else (named (strip_prefix (text "game/jams/") (c ∷ s))) later

-- `split("-")[0]`
unfoldable pub before_dash : Text → Text
before_dash [] = []
before_dash (c ∷ s) = let rest = before_dash s in if is_dash c then [] else c ∷ rest

pub record WriterScopeInput : Type 0 where
  pub ticket_id : Text
  pub source_path : Option Text
  pub product : Option Text
  pub game : Option Text
  pub writer_scope : Option Text

-- `x && x.trim()`, as the trimmed text
abbrev trimmed : Option Text → Text
trimmed none = []
trimmed (some s) = trim s

abbrev scope_of_jam : Option Text → Text → Text
scope_of_jam (some jam) prefix = text "jam:" ++ sanitize_writer_token jam
scope_of_jam none prefix = text "prefix:" ++ sanitize_writer_token prefix

abbrev scope_of_path : Option Text → Option Text → Text → Text
scope_of_path (some board) jam prefix =
    if not (text_eq board (text "_templates")) && not (text_eq board (text "_briefs"))
    then text "board:" ++ sanitize_writer_token board
    else scope_of_jam jam prefix
scope_of_path none jam prefix = scope_of_jam jam prefix

unfoldable pub derive_writer_scope : WriterScopeInput → Text
derive_writer_scope input =
    if not (is_empty (trimmed input.writer_scope))
    then sanitize_writer_token (trimmed input.writer_scope)
    else if not (is_empty (trimmed input.product))
    then text "product:" ++ sanitize_writer_token (trimmed input.product)
    else if not (is_empty (trimmed input.game))
    then text "game:" ++ sanitize_writer_token (trimmed input.game)
    else let src = get_or input.source_path [] in
      scope_of_path (board_from true src) (jam_from src)
        (or_default (before_dash input.ticket_id) input.ticket_id)

-- [\\/]
abbrev pub is_slash : ℕ → Bool
is_slash c = c == b'/' || c == 92

unfoldable pub normalize_repo_path : Text → Text
unfolding drop_while_end
normalize_repo_path [] = []
normalize_repo_path (c ∷ s) = or_default (drop_while_end is_slash (c ∷ s)) (text "/")

unfoldable pub writer_lease_key : Text → Text → Text
unfolding normalize_repo_path
writer_lease_key repo_path scope =
    text "writer:" ++ (normalize_repo_path repo_path ++ (text ":" ++ scope))

unfoldable pub land_lock_key : Text → Text
unfolding normalize_repo_path
land_lock_key repo_path = text "land:" ++ normalize_repo_path repo_path

unfoldable pub repo_writer_key : Text → Text
repo_writer_key repo_path = text "repo-writer:" ++ repo_path
