-- ===== src/Prelude/Store.antt =====
-- Indexed memory as a function of the index, with update at one index, and the run of cells that
-- a ring of `m` cells holds from a running index on.
use Prim.Native.Nat.{ℕ, zero, suc, ◌+◌, ◌%◌, ◌≤◌, ◌<◌}
use mathlib.Core.Path.{◌≡◌, refl, ap, ap₂, ◌∙◌, sym, fun_ext}
use mathlib.Core.Logic.{◌≢◌}
use mathlib.Core.List.{List, [], ◌∷◌, ◌++◌}
use native.Mathlib.Omega.{arith}
use oneplog.Prelude.Tests.{◌==◌, if◌then◌else◌}
use oneplog.Prelude.Lists.{length}

abbrev pub update {ℓ} : {A : Type ℓ} → (ℕ → A) → ℕ → A → ℕ → A
update f i a j = if i == j then a else f j

pub update_self {ℓ} : {A : Type ℓ} (f : ℕ → A) (i : ℕ) (a : A) → update f i a i ≡ a
update_self f i a = ground arith

pub update_ne {ℓ} : {A : Type ℓ} (f : ℕ → A) (i j : ℕ) (a : A) → i ≢ j → update f i a j ≡ f j
update_ne f i j a h = ground arith

pub update-update {ℓ} :
    {A : Type ℓ} (f : ℕ → A) (i : ℕ) (a b : A) → update (update f i a) i b ≡ update f i b
update-update f i a b = fun_ext λ j. ground arith

-- Indices that lie less than `m` apart name different cells of the ring.
pub mod-ne : (m i j : ℕ) → i < j → j < i + m → i % m ≢ j % m
mod-ne m i j h k = grind arith

module _ {ℓ} {A : Type ℓ} (f : ℕ → A) (m : ℕ) where
  abbrev pub window : ℕ → ℕ → List A
  window t zero = []
  window t (suc n) = f (t % m) ∷ window (t + 1) n

  pub length-window : (t n : ℕ) → length (window t n) ≡ n
  length-window t zero = refl
  length-window t (suc n) = ap suc (length-window (t + 1) n)

module _ {ℓ} {A : Type ℓ} where
  pub window-update_ne :
      (f : ℕ → A) (m i : ℕ) (x : A) (t n : ℕ)
      → t ≤ i
      → t + n ≤ i
      → i < t + m
      → window (update f (i % m) x) m t n ≡ window f m t n
  window-update_ne f m i x t zero h k l = refl
  window-update_ne f m i x t (suc n) h k l =
      ap₂ ◌∷◌ (update_ne f (i % m) (t % m) x (λ e. mod-ne m t i (omega arith) l (sym e)))
        (window-update_ne f m i x (t + 1) n (omega arith) (omega arith) (omega arith))

  pub window-suc :
      (f : ℕ → A) (m t n : ℕ) → window f m t (suc n) ≡ window f m t n ++ (f ((t + n) % m) ∷ [])
  window-suc f m t zero = ap (λ k. f (k % m) ∷ []) (omega arith)
  window-suc f m t (suc n) =
      ap (λ l. f (t % m) ∷ l) (window-suc f m (t + 1) n)
      ∙ ap (λ k. f (t % m) ∷ window f m (t + 1) n ++ (f (k % m) ∷ [])) (omega arith)

  -- A write just past the window extends it.
  pub window-push :
      (f : ℕ → A) (m t h n : ℕ) (x : A)
      → h ≡ t + n
      → n < m
      → window (update f (h % m) x) m t (suc n) ≡ window f m t n ++ (x ∷ [])
  window-push f m t h n x e l =
      window-suc (update f (h % m) x) m t n
      ∙ ap₂ (λ w y. w ++ (y ∷ []))
          (window-update_ne f m h x t n (omega arith) (omega arith) (omega arith))
          (rw e (update_self f ((t + n) % m) x))
