-- ===== src/Sinks/Family.antt =====
-- The text of a file and its backups, the oldest first
-- (include/oneplog/internal/static_formats.hpp and include/oneplog/sinks/sink.hpp).
use oneplog.Prelude.{
  ℕ, zero, suc, ◌≤◌, ◌≡◌, refl, ◌∙◌, sym, ap, ap₂, List, [], ◌∷◌, ◌++◌, append-nil, append_assoc,
  length, take, take_all, arith,
}
use oneplog.Sinks.Files.{Files, text_of}
use oneplog.Sinks.Backups.{file_name}
use oneplog.Sinks.Pack.{Packed, FilesHold, lines_text, older_text, concat, all_messages}

abbrev pub family_text : List ℕ → ℕ → Files → List ℕ
family_text base zero fs = text_of (fs (file_name base 0))
family_text base (suc n) fs = text_of (fs (file_name base (suc n))) ++ family_text base n fs

lines_text-append : (xs ys : List (List ℕ)) → lines_text (xs ++ ys) ≡ lines_text ys ++ lines_text xs
lines_text-append [] ys = sym (append-nil _)
lines_text-append (x ∷ xs) ys =
    ap (λ t. t ++ (x ++ (10 ∷ []))) (lines_text-append xs ys)
    ∙ append_assoc (lines_text ys) (lines_text xs) (x ++ (10 ∷ []))

-- A newer file comes after an older text.
newer_file :
    (text : List ℕ) (f older all : List (List ℕ))
    → text ++ lines_text older ≡ lines_text all
    → text ++ lines_text (f ++ older) ≡ lines_text (f ++ all)
newer_file text f older all e =
    ap (λ t. text ++ t) (lines_text-append f older)
    ∙ sym (append_assoc text (lines_text older) (lines_text f))
    ∙ ap (λ t. t ++ lines_text f) e
    ∙ sym (lines_text-append f all)

older_text-take :
    (older : List (List (List ℕ))) (n : ℕ)
    → text_of (older_text older n) ++ lines_text (concat (take n older))
      ≡ lines_text (concat (take (suc n) older))
older_text-take [] zero = refl
older_text-take [] (suc n) = refl
older_text-take (f ∷ older) zero = append-nil (lines_text f) ∙ ap lines_text (sym (append-nil f))
older_text-take (f ∷ older) (suc n) =
    newer_file (text_of (older_text older n)) f (concat (take n older))
      (concat (take (suc n) older)) (older_text-take older n)

-- The messages of the current file and of the next `n`.
abbrev pub kept : ℕ → Packed → List (List ℕ)
kept n (top, older) = top ++ concat (take n older)

pub family_text-kept :
    (base : List ℕ) (n : ℕ) (fs : Files) (p : Packed)
    → FilesHold base n fs p
    → family_text base n fs ≡ lines_text (kept n p)
family_text-kept base zero fs (top, older) hold =
    ap text_of (hold 0 (omega arith)) ∙ ap lines_text (sym (append-nil top))
family_text-kept base (suc n) fs (top, older) hold =
    let ih = family_text-kept base n fs (top, older) (λ i l. hold i (omega arith)) in
    ap₂ (λ a b. text_of a ++ b) (hold (suc n) (omega arith)) ih
    ∙ newer_file (text_of (older_text older n)) top (concat (take n older))
        (concat (take (suc n) older)) (older_text-take older n)

pub family_text-all :
    (base : List ℕ) (n : ℕ) (fs : Files) (p : Packed)
    → FilesHold base n fs p
    → length p.1 ≤ n
    → family_text base n fs ≡ lines_text (all_messages p)
family_text-all base n fs (top, older) hold l =
    family_text-kept base n fs (top, older) hold
    ∙ ap (λ o. lines_text (top ++ concat o)) (take_all n older l)
