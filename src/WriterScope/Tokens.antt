-- ===== src/WriterScope/Tokens.antt =====
-- What `sanitizeWriterToken` of domain/writer-scope.ts makes of a text.
use openclaw_wave_runner.Prelude.{
  ℕ, ◌≡◌, refl, Bool, true, false, not, [], ◌∷◌, Text, text, is_empty, arith, All,
}
use openclaw_wave_runner.WriterScope.{
  drop_while, drop_while_end, is_safe, is_dash, collapse, or_default, sanitize_writer_token,
}

collapse-is_safe : (in_run : Bool) (s : Text) → All (λ c. is_safe c ≡ true) (collapse in_run s)
unfolding collapse
collapse-is_safe in_run [] = tt
collapse-is_safe in_run (c ∷ s) = ground (arith, collapse-is_safe (not (is_safe c)) s)

module _ (P : ℕ → Type 0) (p : ℕ → Bool) where
  All-drop_while : (s : Text) → All P s → All P (drop_while p s)
  unfolding drop_while
  All-drop_while [] h = tt
  All-drop_while (c ∷ s) h = ground (arith, All-drop_while s h.1)

  All-drop_while_end : (s : Text) → All P s → All P (drop_while_end p s)
  unfolding drop_while_end
  All-drop_while_end [] h = tt
  All-drop_while_end (c ∷ s) h = ground (arith, All-drop_while_end s h.1)

-- The first character is no dash, and the last one is none.
abbrev StartsClean : Text → Type 0
StartsClean [] = Unit
StartsClean (c ∷ s) = is_dash c ≡ false

drop_while_clean : (s : Text) → StartsClean (drop_while is_dash s)
unfolding drop_while
drop_while_clean [] = tt
drop_while_clean (c ∷ s) = ground (arith, drop_while_clean s)

drop_while_end_clean : (s : Text) → StartsClean s → StartsClean (drop_while_end is_dash s)
unfolding drop_while_end
drop_while_end_clean [] h = tt
drop_while_end_clean (c ∷ s) h = ground arith

-- what each pass leaves alone
collapse_id : (in_run : Bool) (s : Text) → All (λ c. is_safe c ≡ true) s → collapse in_run s ≡ s
unfolding collapse
collapse_id in_run [] h = refl
collapse_id in_run (c ∷ s) h = ground (arith, collapse_id (not (is_safe c)) s)

drop_while_id : (s : Text) → StartsClean s → drop_while is_dash s ≡ s
unfolding drop_while
drop_while_id [] h = refl
drop_while_id (c ∷ s) h = ground arith

drop_while_end_idem :
    (s : Text) → drop_while_end is_dash (drop_while_end is_dash s) ≡ drop_while_end is_dash s
unfolding drop_while_end
drop_while_end_idem [] = refl
drop_while_end_idem (c ∷ s) = ground (arith, drop_while_end_idem s)

abbrev AllSafe : Text → Type 0
AllSafe s = All (λ c. is_safe c ≡ true) s

-- A token: not empty, of safe characters only, with no dash at either end.
pub record IsToken (s : Text) : Type 0 where
  pub inhabited : is_empty s ≡ false
  pub safe : All (λ c. is_safe c ≡ true) s
  pub clean_start : drop_while is_dash s ≡ s
  pub clean_end : drop_while_end is_dash s ≡ s

default-IsToken : IsToken (text "default")
unfolding drop_while drop_while_end
default-IsToken = record {
  inhabited = refl;
  safe = (refl, (refl, (refl, (refl, (refl, (refl, (refl, tt)))))));
  clean_start = refl;
  clean_end = refl;
}

or_default-IsToken :
    (s : Text)
    → AllSafe s
    → drop_while is_dash s ≡ s
    → drop_while_end is_dash s ≡ s
    → IsToken (or_default s (text "default"))
or_default-IsToken [] safe clean_start clean_end = default-IsToken
or_default-IsToken (c ∷ s) safe clean_start clean_end = record {
  inhabited = refl;
  safe = safe;
  clean_start = clean_start;
  clean_end = clean_end;
}

-- Whatever the text, the sanitized token is not empty, has only the characters a-z, A-Z, 0-9 and
-- `. _ : -`, and neither begins nor ends with a dash.
sanitize-IsToken : (value : Text) → IsToken (sanitize_writer_token value)
unfolding sanitize_writer_token
sanitize-IsToken value =
    let collapsed = collapse false value in
    let started = drop_while is_dash collapsed in
    or_default-IsToken (drop_while_end is_dash started)
      (All-drop_while_end (λ c. is_safe c ≡ true) is_dash started
        (All-drop_while (λ c. is_safe c ≡ true) is_dash collapsed (collapse-is_safe false value)))
      (drop_while_id (drop_while_end is_dash started)
        (drop_while_end_clean started (drop_while_clean collapsed)))
      (drop_while_end_idem started)

sanitize_token : (s : Text) → IsToken s → sanitize_writer_token s ≡ s
unfolding sanitize_writer_token
sanitize_token [] h = absurd (ne h.inhabited)
  where
    ne : true ≡ false → ⊥
    ne e = cc
sanitize_token (c ∷ s) h =
    ground (arith, collapse_id false (c ∷ s), h.clean_start, h.clean_end, h.safe)

-- Sanitizing a second time changes nothing.
sanitize_idem :
    (value : Text)
    → sanitize_writer_token (sanitize_writer_token value) ≡ sanitize_writer_token value
sanitize_idem value = sanitize_token (sanitize_writer_token value) (sanitize-IsToken value)
