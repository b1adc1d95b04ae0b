-- ===== src/Snapshot/Bytes.antt =====
-- Byte memory as a function of the address: `memcpy` in and out of it, and the little-endian
-- representation of unsigned words.
use oneplog.Prelude.{
  ℕ, zero, suc, ◌+◌, ◌*◌, ◌/◌, ◌%◌, ◌^◌, ◌≤◌, ◌<◌, ◌≡◌, refl, ◌∙◌, ap, ap₂, sym, List, [], ◌∷◌,
  ◌++◌, arith, update, length, update_ne, update_self,
}
use native.Mathlib.Nat.{pow-suc}

-- The bytes `bs`, copied to the address `o` and those after it.
unfoldable pub write : (ℕ → ℕ) → ℕ → List ℕ → ℕ → ℕ
write f o [] = f
write f o (b ∷ bs) = write (update f o b) (o + 1) bs

-- The `n` bytes from the address `o` on.
unfoldable pub read : (ℕ → ℕ) → ℕ → ℕ → List ℕ
read f o zero = []
read f o (suc n) = f o ∷ read f (o + 1) n

unfoldable pub le_bytes : ℕ → ℕ → List ℕ
le_bytes zero v = []
le_bytes (suc n) v = (v % 256) ∷ le_bytes n (v / 256)

unfoldable pub le_value : List ℕ → ℕ
le_value [] = 0
le_value (b ∷ bs) = b + 256 * le_value bs

pub length-le_bytes : (n v : ℕ) → length (le_bytes n v) ≡ n
unfolding le_bytes
length-le_bytes zero v = refl
length-le_bytes (suc n) v = ap suc (length-le_bytes n (v / 256))

pub le_value-le_bytes : (n v : ℕ) → v < 256 ^ n → le_value (le_bytes n v) ≡ v
unfolding le_bytes le_value
le_value-le_bytes zero v h = omega arith
le_value-le_bytes (suc n) v h =
    omega (arith, le_value-le_bytes n (v / 256) (omega (arith, pow-suc 256 n)))

pub write_ne_before : (f : ℕ → ℕ) (o : ℕ) (bs : List ℕ) (i : ℕ) → i < o → write f o bs i ≡ f i
unfolding write
write_ne_before f o [] i h = refl
write_ne_before f o (b ∷ bs) i h =
    write_ne_before (update f o b) (o + 1) bs i (omega arith) ∙ update_ne f o i b (omega arith)

pub write_ne_after :
    (f : ℕ → ℕ) (o : ℕ) (bs : List ℕ) (i : ℕ) → o + length bs ≤ i → write f o bs i ≡ f i
unfolding write
write_ne_after f o [] i h = refl
write_ne_after f o (b ∷ bs) i h =
    write_ne_after (update f o b) (o + 1) bs i (omega arith) ∙ update_ne f o i b (omega arith)

pub length-read : (f : ℕ → ℕ) (o n : ℕ) → length (read f o n) ≡ n
unfolding read
length-read f o zero = refl
length-read f o (suc n) = ap suc (length-read f (o + 1) n)

pub read-write : (f : ℕ → ℕ) (o : ℕ) (bs : List ℕ) → read (write f o bs) o (length bs) ≡ bs
unfolding read write
read-write f o [] = refl
read-write f o (b ∷ bs) =
    ap₂ ◌∷◌ (write_ne_before (update f o b) (o + 1) bs o (omega arith) ∙ update_self f o b)
      (read-write (update f o b) (o + 1) bs)

pub read-write_before :
    (f : ℕ → ℕ) (o : ℕ) (bs : List ℕ) (p n : ℕ) → p + n ≤ o → read (write f o bs) p n ≡ read f p n
unfolding read
read-write_before f o bs p zero h = refl
read-write_before f o bs p (suc n) h =
    ap₂ ◌∷◌ (write_ne_before f o bs p (omega arith))
      (read-write_before f o bs (p + 1) n (omega arith))

pub read-write_after :
    (f : ℕ → ℕ) (o : ℕ) (bs : List ℕ) (p n : ℕ)
    → o + length bs ≤ p
    → read (write f o bs) p n ≡ read f p n
unfolding read
read-write_after f o bs p zero h = refl
read-write_after f o bs p (suc n) h =
    ap₂ ◌∷◌ (write_ne_after f o bs p h) (read-write_after f o bs (p + 1) n (omega arith))

pub read-append : (f : ℕ → ℕ) (o m n : ℕ) → read f o (m + n) ≡ read f o m ++ read f (o + m) n
unfolding read
read-append f o zero n = ap₂ (read f) (omega arith) (omega arith)
read-append f o (suc m) n =
    let e : suc m + n ≡ suc (m + n) = omega arith in
    let g : o + 1 + m ≡ o + suc m = omega arith in
    ap (read f o) e
    ∙ ap (λ l. f o ∷ l) (read-append f (o + 1) m n ∙ ap (λ k. read f (o + 1) m ++ read f k n) g)

pub write-append :
    (f : ℕ → ℕ) (o : ℕ) (xs bs : List ℕ)
    → write f o (xs ++ bs) ≡ write (write f o xs) (o + length xs) bs
unfolding write
write-append f o [] bs = ap (λ k. write f k bs) (omega arith)
write-append f o (a ∷ xs) bs =
    let g : o + 1 + length xs ≡ o + suc (length xs) = omega arith in
    write-append (update f o a) (o + 1) xs bs
    ∙ ap (λ k. write (write (update f o a) (o + 1) xs) k bs) g

-- A run of bytes that reads as two lists reads as each at its place.
pub read_split :
    (f : ℕ → ℕ) (o : ℕ) (xs ys : List ℕ)
    → read f o (length (xs ++ ys)) ≡ xs ++ ys
    → (read f o (length xs) ≡ xs) × (read f (o + length xs) (length ys) ≡ ys)
unfolding read
read_split f o [] ys h = (refl, ap (λ k. read f k (length ys)) (omega arith) ∙ h)
read_split f o (x ∷ xs) ys h =
    let tail_h : read f (o + 1) (length (xs ++ ys)) ≡ xs ++ ys = cc in
    let head_h : f o ≡ x = cc in
    let ih = read_split f (o + 1) xs ys tail_h in
    let shift : o + suc (length xs) ≡ o + 1 + length xs = omega arith in
    (ap₂ ◌∷◌ head_h ih.0, ap (λ k. read f k (length ys)) shift ∙ ih.1)

-- A word that was stored reads back.
pub read_word :
    (f : ℕ → ℕ) (o n v : ℕ)
    → read f o (length (le_bytes n v)) ≡ le_bytes n v
    → v < 256 ^ n
    → le_value (read f o n) ≡ v
read_word f o n v h lt =
    ap (λ k. le_value (read f o k)) (sym (length-le_bytes n v))
    ∙ ap le_value h
    ∙ le_value-le_bytes n v lt
