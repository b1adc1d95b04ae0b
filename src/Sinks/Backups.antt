-- ===== src/Sinks/Backups.antt =====
-- What the renaming of backups leaves under each name
-- (include/oneplog/internal/static_formats.hpp and include/oneplog/sinks/sink.hpp).
use oneplog.Prelude.{
  ℕ, zero, suc, ◌-◌, ◌≡◌, refl, ◌∙◌, sym, ap, ◌≢◌, Option, none, some, List, [], ◌∷◌, ◌++◌, ◌==◌,
  if◌then◌else◌, leb, length, length-append, arith, inl, inr, Bool-cases, same_text, same_text_refl,
  same_text-path, to_string, to_string-injective,
}
use oneplog.Sinks.Files.{Files, set_file, remove, rename, backup_name, shift_backups}

append-cancel : (xs ys zs : List ℕ) → xs ++ ys ≡ xs ++ zs → ys ≡ zs
append-cancel [] ys zs e = e
append-cancel (x ∷ xs) ys zs e = append-cancel xs ys zs (cc e)

-- The current file at 0, the backups from 1 on.
unfoldable pub file_name : List ℕ → ℕ → List ℕ
file_name base zero = base
file_name base (suc i) = backup_name base (suc i)

base-not-backup : (base : List ℕ) (i : ℕ) → base ≢ backup_name base i
unfolding backup_name
base-not-backup base i e =
    let longer = length-append base (46 ∷ to_string i) in let same = ap length e in omega arith

file_name-injective : (base : List ℕ) (i j : ℕ) → file_name base i ≡ file_name base j → i ≡ j
unfolding backup_name file_name
file_name-injective base zero zero e = refl
file_name-injective base zero (suc j) e = absurd (base-not-backup base (suc j) e)
file_name-injective base (suc i) zero e = absurd (base-not-backup base (suc i) (sym e))
file_name-injective base (suc i) (suc j) e =
    let rest = append-cancel base (46 ∷ to_string (suc i)) (46 ∷ to_string (suc j)) e in
    to_string-injective (suc i) (suc j) (cc rest)

same_text-file_name :
    (base : List ℕ) (i j : ℕ) → same_text (file_name base i) (file_name base j) ≡ (i == j)
same_text-file_name base i j = elim (Bool-cases (same_text (file_name base i) (file_name base j))) [
  | inl same ↦
      let index = file_name-injective base i j (same_text-path _ _ same) in same ∙ ground arith
  | inr other ↦
      let differ : i ≢ j = λ e.
        let here = same_text_refl (file_name base j) in
        let there = ap (λ k. same_text (file_name base k) (file_name base j)) e in cc in
      other ∙ ground arith
]

module _ (base : List ℕ) where
  pub set_file-file_name :
      (i j : ℕ) (held : Option (List ℕ)) (fs : Files)
      → set_file (file_name base i) held fs (file_name base j)
        ≡ (if i == j then held else fs (file_name base j))
  unfolding set_file
  set_file-file_name i j held fs = rw (same_text-file_name base i j) refl

  -- A file is renamed to a name that no file has.
  pub rename-file_name :
      (i k j : ℕ) (fs : Files)
      → i ≢ k
      → fs (file_name base k) ≡ none
      → rename (file_name base i) (file_name base k) fs (file_name base j)
        ≡ (if k == j then fs (file_name base i) else if i == j then none else fs (file_name base j))
  unfolding rename
  rename-file_name i k j fs differ free = go (fs (file_name base i)) refl
    where
      go :
          (held : Option (List ℕ))
          → fs (file_name base i) ≡ held
          → rename (file_name base i) (file_name base k) fs (file_name base j) ≡ (
              if k == j
              then fs (file_name base i)
              else if i == j
              then none
              else fs (file_name base j))
      go none e = rw (rename, e) (ground arith)
      go (some text) e =
          rw
            (
              rename,
              e,
              set_file-file_name k j (some text) (set_file (file_name base i) none fs),
              set_file-file_name i j none fs,
            )
            refl

  pub remove-file_name :
      (i j : ℕ) (fs : Files)
      → remove (file_name base i) fs (file_name base j)
        ≡ (if i == j then none else fs (file_name base j))
  unfolding remove
  remove-file_name i j fs = set_file-file_name i j none fs

  -- Of the backups up to `n`, each comes one further; the first name is left free.
  pub shift_backups-file_name :
      (n j : ℕ) (fs : Files)
      → fs (file_name base (suc n)) ≡ none
      → shift_backups base n fs (file_name base j) ≡ (
          if j == 0
          then fs (file_name base 0)
          else if j == 1
          then none
          else if leb j (suc n)
          then fs (file_name base (j - 1))
          else fs (file_name base j))
  unfolding shift_backups file_name
  shift_backups-file_name zero j fs free = ground arith
  shift_backups-file_name (suc n) j fs free =
      let one_on = rename (file_name base (suc n)) (file_name base (suc (suc n))) fs in
      let at = λ (k : ℕ). rename-file_name (suc n) (suc (suc n)) k fs (omega arith) free in
      let ih = shift_backups-file_name n j one_on (at (suc n) ∙ ground arith) in
      ih ∙ ground (arith, at 0, at (j - 1), at j)
