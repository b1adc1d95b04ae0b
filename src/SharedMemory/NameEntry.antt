-- ===== src/SharedMemory/NameEntry.antt =====
-- What `NameIdMapping::Set` leaves in an entry
-- (include/oneplog/internal/shared_memory.hpp).
use oneplog.Prelude.{
  ℕ, zero, suc, ◌+◌, ◌-◌, ◌≤◌, ◌≡◌, refl, ◌∙◌, sym, ap, List, [], ◌∷◌, ◌==◌, update, update_self,
  length, take, replicate, arith, Bool-cases, inl, inr, length-take,
}
use oneplog.NameTable.FixedName.{c_string, count_chars, until_nul, read-count_chars}
use oneplog.Snapshot.Bytes.{write, read, read-write, read-write_before, write_ne_before}
use oneplog.SharedMemory.Names.{NameIdMapping, strncpy, set}

until_nul-until_nul :
    (n : ℕ) (name : List ℕ) → until_nul (take n (until_nul name)) ≡ take n (until_nul name)
until_nul-until_nul zero name = refl
until_nul-until_nul (suc n) [] = refl
until_nul-until_nul (suc n) (c ∷ cs) = elim (Bool-cases (c == 0)) [
  | inl nul ↦ rw nul refl
  | inr char ↦ rw (char, char) (ap (λ t. c ∷ t) (until_nul-until_nul n cs))
]

-- A run of zeros that ends before `end`, and a zero there, begin with a zero.
begins_zero : (d : ℕ → ℕ) (o n : ℕ) → write (write d o (replicate n 0)) (o + n) (0 ∷ []) o ≡ 0
unfolding write
begins_zero d o zero =
    ap (update d (o + 0) 0) {x = o} {y = o + 0} (omega arith) ∙ update_self d (o + 0) 0
begins_zero d o (suc n) =
    write_ne_before (write d o (replicate (suc n) 0)) (o + suc n) (0 ∷ []) o (omega arith)
    ∙ write_ne_before (update d o 0) (o + 1) (replicate n 0) o (omega arith)
    ∙ update_self d o 0

copied :
    (d : ℕ → ℕ) (text : List ℕ) (n : ℕ)
    → length text + n ≡ 31
    → read (write (write (write d 0 text) (length text) (replicate n 0)) 31 (0 ∷ [])) 0 (
        count_chars (write (write (write d 0 text) (length text) (replicate n 0)) 31 (0 ∷ [])) 0 32)
      ≡ until_nul text
copied d text n h =
    let len = length text in
    let inner = write d 0 text in
    let filled = write inner len (replicate n 0) in
    let whole = write filled 31 (0 ∷ []) in
    let nul : whole (0 + len) ≡ 0 =
      ap whole {x = 0 + len} {y = len} (omega arith)
      ∙ ap (λ k. write filled k (0 ∷ []) len) (sym h)
      ∙ begins_zero inner len n in
    let same : read whole 0 len ≡ text =
      read-write_before filled 31 (0 ∷ []) 0 len (omega arith)
      ∙ read-write_before inner len (replicate n 0) 0 len (omega arith)
      ∙ read-write d 0 text in
    read-count_chars whole 0 32 len (omega arith) nul ∙ ap until_nul same

length-take_le : (n : ℕ) (xs : List ℕ) → length (take n xs) ≤ n
length-take_le n xs = omega (arith, length-take n xs)

-- `Set` keeps the first 31 characters of a string.
pub c_string-set :
    (e : NameIdMapping) (id : ℕ) (name : List ℕ)
    → c_string 32 (set e id name).name ≡ take 31 (until_nul name)
unfolding c_string set strncpy
c_string-set e id name =
    copied e.name (take 31 (until_nul name)) (31 - length (take 31 (until_nul name)))
      (omega (arith, length-take_le 31 (until_nul name)))
    ∙ until_nul-until_nul 31 name

pub ended-set : (e : NameIdMapping) (id : ℕ) (name : List ℕ) → (set e id name).name 31 ≡ 0
unfolding set write
ended-set e id name = update_self (strncpy e.name name 31) 31 0
