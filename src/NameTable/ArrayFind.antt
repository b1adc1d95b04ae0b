-- ===== src/NameTable/ArrayFind.antt =====
-- The search of `ArrayMappingTable` (include/oneplog/internal/array_mapping_table.hpp): what it
-- finds, and what changes of the table leave or make of it.
use oneplog.Prelude.{
  ℕ, zero, suc, ◌+◌, ◌≤◌, ◌<◌, ◌≡◌, ◌≢◌, ap₂, refl, ◌∙◌, ap, sym, true, ◌&&◌, Option, none, some,
  List, ◌==◌, if◌then◌else◌, arith, take, update, Bool-cases, inl, inr, update_ne, update_self,
}
use oneplog.NameTable.FixedName.{assign, c_string, until_nul, c_string-assign}
use oneplog.NameTable.Array.{ArrayTable, find, name_at, appended}

pub record Found (t : ArrayTable) (tid i n j : ℕ) : Type 0 where
  pub in_range : j < i + n
  pub same_tid : t.tids j ≡ tid

Found-suc : (t : ArrayTable) (tid i n j : ℕ) → Found t tid (i + 1) n j → Found t tid i (suc n) j
Found-suc t tid i n j f = record { in_range = omega (arith, f.in_range); same_tid = f.same_tid }

pub find-Found : (t : ArrayTable) (tid i n j : ℕ) → find t tid i n ≡ some j → Found t tid i n j
unfolding find
find-Found t tid i zero j e = absurd (ground arith)
find-Found t tid i (suc n) j e = elim (Bool-cases (t.valid i && (t.tids i == tid))) [
  | inl here ↦
      let same : some i ≡ some j =
        ap (λ b. if b then some i else find t tid (i + 1) n) (sym here) ∙ e in
      record { in_range = ground arith; same_tid = ground arith }
  | inr later ↦ Found-suc t tid i n j (
      find-Found t tid (i + 1) n j
        (ap (λ b. if b then some i else find t tid (i + 1) n) (sym later) ∙ e))
]

-- An entry tried alone.
abbrev pub try_entry : ArrayTable → ℕ → ℕ → Option ℕ
try_entry t tid k = if t.valid k && (t.tids k == tid) then some k else none

abbrev pub or_else : Option ℕ → Option ℕ → Option ℕ
or_else none o = o
or_else (some j) o = some j

pub find-last :
    (t : ArrayTable) (tid i n k : ℕ)
    → i + n ≡ k
    → find t tid i (suc n) ≡ or_else (find t tid i n) (try_entry t tid k)
unfolding find
find-last t tid i zero k h = ap (try_entry t tid) (omega arith)
find-last t tid i (suc n) k h = elim (Bool-cases (t.valid i && (t.tids i == tid))) [
  | inl here ↦ rw here refl
  | inr later ↦ rw later (find-last t tid (i + 1) n k (omega arith))
]

pub find-names :
    (t : ArrayTable) (tid i n : ℕ) (names' : ℕ → ℕ → ℕ)
    → find (record t { names = names' }) tid i n ≡ find t tid i n
unfolding find
find-names t tid i zero names' = refl
find-names t tid i (suc n) names' = rw (find-names t tid (i + 1) n names') refl

pub find-beyond :
    (t : ArrayTable) (tid i n k other c : ℕ) (names' : ℕ → ℕ → ℕ)
    → i + n ≤ k
    → find
        (record t {
          tids = update t.tids k other;
          valid = update t.valid k true;
          names = names';
          count = c;
        })
        tid
        i
        n
      ≡ find t tid i n
unfolding find
find-beyond t tid i zero k other c names' h = refl
find-beyond t tid i (suc n) k other c names' h =
    rw
      (
        find-beyond t tid (i + 1) n k other c names' (omega arith),
        update_ne t.tids k i other (omega arith),
        update_ne t.valid k i true (omega arith),
      )
      refl

pub some-none : (j : ℕ) → some j ≢ none
some-none j e = absurd (ground arith)

pub found_same :
    (t : ArrayTable) (tid other : ℕ)
    → (tid == other) ≡ true
    → find t tid 0 t.count ≡ find t other 0 t.count
found_same t tid other same = ap (λ i. find t i 0 t.count) (ground arith)

pub name_at-update :
    (t : ArrayTable) (cap tid j : ℕ) (name : List ℕ)
    → find t tid 0 t.count ≡ some j
    → (other : ℕ) (its : Option ℕ) → find t other 0 t.count ≡ its
    → name_at cap (update t.names j (assign cap name (t.names j))) its
      ≡ (if tid == other then until_nul (take cap name) else name_at cap t.names its)
name_at-update t cap tid j name f other none g = elim (Bool-cases (tid == other)) [
  | inl same ↦ absurd (some-none j (sym f ∙ found_same t tid other same ∙ g))
  | inr differ ↦ rw differ refl
]
name_at-update t cap tid j name f other (some k) g =
    let value = assign cap name (t.names j) in
    elim (Bool-cases (tid == other)) [
      | inl same ↦
          let found : j ≡ k = ground (arith, sym f ∙ found_same t tid other same ∙ g) in
          rw same (
            ap (c_string (cap + 1))
              (ap (update t.names j value) (sym found) ∙ update_self t.names j value)
            ∙ c_string-assign cap name (t.names j))
      | inr differ ↦
          let mine = find-Found t tid 0 t.count j f in
          let its = find-Found t other 0 t.count k g in
          let apart : j ≢ k =
            λ e. absurd (ground (arith, differ, mine.same_tid, its.same_tid, ap t.tids e)) in
          rw differ (ap (c_string (cap + 1)) (update_ne t.names j k value apart))
    ]

pub name_at-appended :
    (t : ArrayTable) (cap tid : ℕ) (name : List ℕ)
    → find t tid 0 t.count ≡ none
    → (other : ℕ) (its : Option ℕ) → find t other 0 t.count ≡ its
    → name_at cap
        (appended cap t tid name).names
        (or_else its (if tid == other then some t.count else none))
      ≡ (if tid == other then until_nul (take cap name) else name_at cap t.names its)
name_at-appended t cap tid name f other none g = elim (Bool-cases (tid == other)) [
  | inl same ↦ rw same (
      ap (c_string (cap + 1)) (update_self t.names t.count (assign cap name (t.names t.count)))
      ∙ c_string-assign cap name (t.names t.count))
  | inr differ ↦ rw differ refl
]
name_at-appended t cap tid name f other (some k) g = elim (Bool-cases (tid == other)) [
  | inl same ↦ absurd (some-none k (sym g ∙ sym (found_same t tid other same) ∙ f))
  | inr differ ↦
      let its = find-Found t other 0 t.count k g in
      rw differ (
        ap (c_string (cap + 1)) (
          update_ne t.names t.count k (assign cap name (t.names t.count))
            (omega (arith, its.in_range))))
]

pub find-appended :
    (t : ArrayTable) (cap tid : ℕ) (name : List ℕ) (other : ℕ)
    → find (appended cap t tid name) other 0 (t.count + 1)
      ≡ or_else (find t other 0 t.count) (if tid == other then some t.count else none)
find-appended t cap tid name other =
    let t' = appended cap t tid name in
    let size : t.count + 1 ≡ suc t.count = omega arith in
    ap (find t' other 0) size
    ∙ find-last t' other 0 t.count t.count (omega arith)
    ∙ ap₂ or_else (find-beyond t other 0 t.count t.count tid (t.count + 1) t'.names (omega arith))
        (rw (update_self t.valid t.count true, update_self t.tids t.count tid) refl)
