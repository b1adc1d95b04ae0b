-- ===== src/NameTable/FixedName.antt =====
-- `FixedName<Capacity>` (include/oneplog/internal/fixed_name.hpp): a character array of
-- `Capacity + 1` bytes, here a function of the index.
use oneplog.Prelude.{
  ℕ, zero, suc, ◌+◌, ◌-◌, ◌≤◌, ◌≡◌, refl, ◌∙◌, ap, sym, Bool, true, false, not, List, [], ◌∷◌, ◌==◌,
  if◌then◌else◌, arith, length, take, replicate, ltb, length-take, take_all, Bool-cases, inl, inr,
  update_self, ltb→lt,
}
use oneplog.Snapshot.Bytes.{write, read, read-write, read-write_before, write_ne_before}

-- `std::min(name.size(), kCapacity)`, written out with `?:` in the source
abbrev pub kept_length : ℕ → List ℕ → ℕ
kept_length cap name = if ltb (length name) cap then length name else cap

-- The constructor from a view, on the zeroed array.
unfoldable pub make : ℕ → List ℕ → ℕ → ℕ
make cap name =
    let len = kept_length cap name in write (write (λ _. 0) 0 (take len name)) len (0 ∷ [])

-- `Assign`, and `CopyName` of the array table
unfoldable pub assign : ℕ → List ℕ → (ℕ → ℕ) → ℕ → ℕ
assign cap name data0 =
    let len = kept_length cap name in
    let named = write data0 0 (take len name) in
    let ended = write named len (0 ∷ []) in write ended (len + 1) (replicate (cap - len) 0)

-- The first of the `n` indexes from `i` on that holds NUL, counted from `i`; `n` without one.
unfoldable pub count_chars : (ℕ → ℕ) → ℕ → ℕ → ℕ
count_chars d i zero = 0
count_chars d i (suc n) = if d i == 0 then 0 else suc (count_chars d (i + 1) n)

unfoldable pub name_length : ℕ → (ℕ → ℕ) → ℕ
name_length cap d = count_chars d 0 cap

unfoldable pub view : ℕ → (ℕ → ℕ) → List ℕ
view cap d = read d 0 (name_length cap d)

-- `std::string_view(s)` of a NUL-terminated string in an array of `n` bytes
unfoldable pub c_string : ℕ → (ℕ → ℕ) → List ℕ
c_string n d = read d 0 (count_chars d 0 n)

unfoldable pub empty : (ℕ → ℕ) → Bool
empty d = d 0 == 0

unfoldable pub clear : ℕ → (ℕ → ℕ) → ℕ → ℕ
clear cap d = write d 0 (replicate (cap + 1) 0)

-- `operator==`, the loop over the `n` indexes from `i` on
unfoldable pub same_chars : (ℕ → ℕ) → (ℕ → ℕ) → ℕ → ℕ → Bool
same_chars d e i zero = true
same_chars d e i (suc n) =
    let rest = same_chars d e (i + 1) n in
    if not (d i == e i) then false else if d i == 0 then true else rest

unfoldable pub same_name : ℕ → (ℕ → ℕ) → (ℕ → ℕ) → Bool
same_name cap d e = same_chars d e 0 (cap + 1)

-- The characters of a list before its first NUL.
abbrev pub until_nul : List ℕ → List ℕ
until_nul [] = []
until_nul (c ∷ cs) = if c == 0 then [] else c ∷ until_nul cs

wrote_one : (d : ℕ → ℕ) (o v : ℕ) → write d o (v ∷ []) o ≡ v
unfolding write
wrote_one d o v = update_self d o v

pub read-count_chars :
    (d : ℕ → ℕ) (i n k : ℕ)
    → k ≤ n
    → d (i + k) ≡ 0
    → read d i (count_chars d i n) ≡ until_nul (read d i k)
unfolding count_chars read
read-count_chars d i zero zero h z = refl
read-count_chars d i zero (suc k) h z = absurd (omega arith)
read-count_chars d i (suc n) zero h z = ground arith
read-count_chars d i (suc n) (suc k) h z =
    let rest : read d (i + 1) (count_chars d (i + 1) n) ≡ until_nul (read d (i + 1) k) =
      read-count_chars d (i + 1) n k (omega arith) (ap d (omega arith) ∙ z) in
    elim (Bool-cases (d i == 0)) [
      | inl nul ↦ rw nul refl
      | inr char ↦ rw char (ap (λ t. d i ∷ t) rest)
    ]

kept-le : (cap : ℕ) (name : List ℕ) → kept_length cap name ≤ cap
kept-le cap name = ground arith

take_kept : (cap : ℕ) (name : List ℕ) → take (kept_length cap name) name ≡ take cap name
take_kept cap name = elim (Bool-cases (ltb (length name) cap)) [
  | inl short ↦ rw short (
      take_all (length name) name (omega arith)
      ∙ sym (take_all cap name (omega (arith, ltb→lt _ _ short))))
  | inr long ↦ rw long refl
]

length-kept : (cap : ℕ) (name : List ℕ) → length (take cap name) ≡ kept_length cap name
length-kept cap name = let len = length-take cap name in ground (arith, len)

padded :
    (d : ℕ → ℕ) (txt rest : List ℕ) (len n : ℕ)
    → length txt ≡ len
    → len ≤ n
    → (let w = write (write (write d 0 txt) len (0 ∷ [])) (len + 1) rest in
        read w 0 (count_chars w 0 n))
      ≡ until_nul txt
padded d txt rest len n size h =
    let inner = write d 0 txt in
    let ended = write inner len (0 ∷ []) in
    let whole = write ended (len + 1) rest in
    let nul : whole (0 + len) ≡ 0 =
      ap whole (omega arith)
      ∙ write_ne_before ended (len + 1) rest len (omega arith)
      ∙ wrote_one inner len 0 in
    let text : read whole 0 len ≡ txt =
      read-write_before ended (len + 1) rest 0 len (omega arith)
      ∙ read-write_before inner len (0 ∷ []) 0 len (omega arith)
      ∙ ap (read inner 0) (sym size)
      ∙ read-write d 0 txt in
    read-count_chars whole 0 n len h nul ∙ ap until_nul text

-- Assigning a name and viewing it gives its first `Capacity` characters, cut at a NUL among them,
-- whatever the array held before.
pub view-assign :
    (cap : ℕ) (name : List ℕ) (d : ℕ → ℕ) → view cap (assign cap name d) ≡ until_nul (take cap name)
unfolding view name_length assign
view-assign cap name d =
    padded d (take (kept_length cap name) name) (replicate (cap - kept_length cap name) 0)
      (kept_length cap name) cap (ap length (take_kept cap name) ∙ length-kept cap name)
      (kept-le cap name)
    ∙ ap until_nul (take_kept cap name)

-- The same for `std::string_view(entry.name)`.
pub c_string-assign :
    (cap : ℕ) (name : List ℕ) (d : ℕ → ℕ)
    → c_string (cap + 1) (assign cap name d) ≡ until_nul (take cap name)
unfolding c_string assign
c_string-assign cap name d =
    let len = kept-le cap name in
    padded d (take (kept_length cap name) name) (replicate (cap - kept_length cap name) 0)
      (kept_length cap name) (cap + 1) (ap length (take_kept cap name) ∙ length-kept cap name)
      (omega (arith, len))
    ∙ ap until_nul (take_kept cap name)
