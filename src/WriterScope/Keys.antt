-- ===== src/WriterScope/Keys.antt =====
-- The lease keys of domain/writer-scope.ts: the same repository spelled with and without trailing
-- slashes has one key, and different scopes of a repository have different keys.
use openclaw_wave_runner.Prelude.{
  ◌≡◌, refl, true, false, [], ◌∷◌, ◌++◌, Text, text, is_empty, arith, All,
}
use openclaw_wave_runner.WriterScope.{
  drop_while_end, is_slash, normalize_repo_path, writer_lease_key, land_lock_key,
}

drop_slashes :
    (s slashes : Text)
    → All (λ c. is_slash c ≡ true) slashes
    → drop_while_end is_slash (s ++ slashes) ≡ drop_while_end is_slash s
unfolding drop_while_end
drop_slashes [] [] h = refl
drop_slashes [] (c ∷ slashes) h = ground (arith, drop_slashes [] slashes h.1)
drop_slashes (c ∷ s) slashes h = ground (arith, drop_slashes s slashes h)

-- Trailing slashes and backslashes do not change the writer lease key, the land lock key, nor the
-- normal form of a path that is not empty.
normalize-slashes :
    (repo_path slashes scope : Text)
    → is_empty repo_path ≡ false
    → All (λ c. is_slash c ≡ true) slashes
    → (normalize_repo_path (repo_path ++ slashes) ≡ normalize_repo_path repo_path)
      × (writer_lease_key (repo_path ++ slashes) scope ≡ writer_lease_key repo_path scope)
      × (land_lock_key (repo_path ++ slashes) ≡ land_lock_key repo_path)
unfolding writer_lease_key land_lock_key normalize_repo_path
normalize-slashes [] slashes scope ne h = absurd (cc)
normalize-slashes (c ∷ s) slashes scope ne h = ground (arith, drop_slashes (c ∷ s) slashes h)

append_cancel : (p s t : Text) → p ++ s ≡ p ++ t → s ≡ t
append_cancel [] s t e = e
append_cancel (c ∷ p) s t e = append_cancel p s t (ground arith)

-- Within one repository the writer lease key tells scopes apart: equal keys have equal scopes.
writer_lease_key_injective :
    (repo_path scope other : Text)
    → writer_lease_key repo_path scope ≡ writer_lease_key repo_path other
    → scope ≡ other
unfolding writer_lease_key
writer_lease_key_injective repo_path scope other e = append_cancel (text ":") scope other (
    append_cancel (normalize_repo_path repo_path) (text ":" ++ scope) (text ":" ++ other)
      (append_cancel (text "writer:") _ _ e))
