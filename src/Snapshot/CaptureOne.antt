-- ===== src/Snapshot/CaptureOne.antt =====
-- The bytes that each capture method stores (include/oneplog/internal/binary_snapshot.hpp).
use oneplog.Prelude.{
  ℕ, ◌+◌, ◌%◌, ◌^◌, ◌≡◌, refl, ◌∙◌, ap, ap₂, sym, Bool, true, false, if◌then◌else◌, none, some,
  List, [], ◌∷◌, ◌++◌, length, length-append, take, take_all, lt→ltb, subst, arith, ltb, Bool-cases,
  inl, inr,
}
use oneplog.Snapshot.Bytes.{write, le_bytes, length-le_bytes, write-append}
use oneplog.Snapshot.Capture.{
  Snapshot, TypeTag, tag_byte, Arg, int32_arg, int64_arg, uint32_arg, uint64_arg, float_arg,
  double_arg, bool_arg, view_arg, string_arg, chars_arg, put, count_arg, remaining, capture_value,
  capture_string_view, capture_string_data, capture_one,
}
use oneplog.Snapshot.Layout.{encode, encode_string}

pub put-put : (s : Snapshot) (xs ys : List ℕ) → put (put s xs) ys ≡ put s (xs ++ ys)
put-put s xs ys =
    ap₂ (λ f o. record s { buffer = f; offset = o }) (sym (write-append s.buffer s.offset xs ys))
      (omega (arith, length-append xs ys))

-- The effect of each capture method: the bytes of the argument are stored if they fit.
abbrev pub stored : List ℕ → Snapshot → Bool × Snapshot
stored bs s = if ltb (remaining s) (length bs) then (false, s) else (true, count_arg (put s bs))

stored-eq :
    (s t : Snapshot) (n : ℕ) (bs : List ℕ)
    → n ≡ length bs
    → t ≡ put s bs
    → (if ltb (remaining s) n then (false, s) else (true, count_arg t)) ≡ stored bs s
stored-eq s t n bs e f =
    ap₂ (λ k u. if ltb (remaining s) k then (false, s) else (true, count_arg u)) e f

capture_value_lem :
    (tag : TypeTag) (n v : ℕ) (s : Snapshot)
    → capture_value tag n v s ≡ stored (tag_byte tag ∷ le_bytes n v) s
unfolding capture_value
capture_value_lem tag n v s =
    stored-eq s (put (put s (tag_byte tag ∷ [])) (le_bytes n v)) (1 + n)
      (tag_byte tag ∷ le_bytes n v) (omega (arith, length-le_bytes n v))
      (put-put s (tag_byte tag ∷ []) (le_bytes n v))

capture_string_view_lem :
    (ptr len : ℕ) (s : Snapshot)
    → capture_string_view ptr len s ≡ stored (encode (view_arg ptr len)) s
unfolding capture_string_view
capture_string_view_lem ptr len s =
    stored-eq s (put (put (put s (0x10 ∷ [])) (le_bytes 8 ptr)) (le_bytes 4 (len % 2 ^ 32))) 13
      (encode (view_arg ptr len))
      (omega (
        arith,
        length-le_bytes 8 ptr,
        length-le_bytes 4 (len % 2 ^ 32),
        length-append (le_bytes 8 ptr) (le_bytes 4 (len % 2 ^ 32)),
      ))
      (put-put (put s (0x10 ∷ [])) (le_bytes 8 ptr) (le_bytes 4 (len % 2 ^ 32))
        ∙ put-put s (0x10 ∷ []) (le_bytes 8 ptr ++ le_bytes 4 (len % 2 ^ 32)))

pub put-nil : (s : Snapshot) → put s [] ≡ s
unfolding write
put-nil s = ap (λ o. record s { offset = o }) (omega arith)

data_put :
    (chars : List ℕ) (s : Snapshot)
    → (if ltb 0 (length chars) then put s (take (length chars) chars) else s) ≡ put s chars
data_put [] s = sym (put-nil s)
data_put (c ∷ chars) s =
    ap (λ b. if b then put s (take (length (c ∷ chars)) (c ∷ chars)) else s)
      (lt→ltb 0 (length (c ∷ chars)) (omega arith))
    ∙ ap (put s) (take_all (length (c ∷ chars)) (c ∷ chars) (omega arith))

string_stored :
    (chars : List ℕ) (s : Snapshot)
    → let s' = put (put s (0x11 ∷ [])) (le_bytes 2 (length chars)) in
      (if ltb 0 (length chars) then put s' (take (length chars) chars) else s')
      ≡ put s (encode_string chars)
string_stored chars s =
    data_put chars (put (put s (0x11 ∷ [])) (le_bytes 2 (length chars)))
    ∙ put-put (put s (0x11 ∷ [])) (le_bytes 2 (length chars)) chars
    ∙ put-put s (0x11 ∷ []) (le_bytes 2 (length chars) ++ chars)

-- `CaptureStringData` with the cut-off length as a variable.
string_data_cut :
    (chars : List ℕ) (s : Snapshot) (len : ℕ)
    → len ≡ length chars
    → let s' = put (put s (0x11 ∷ [])) (le_bytes 2 len) in
      (if ltb 0 len then put s' (take len chars) else s') ≡ put s (encode_string chars)
string_data_cut chars s len e =
    subst
      (λ n.
        let s' = put (put s (0x11 ∷ [])) (le_bytes 2 n) in
        (if ltb 0 n then put s' (take n chars) else s') ≡ put s (encode_string chars))
      (sym e) (string_stored chars s)

pub length-encode_string : (chars : List ℕ) → length (encode_string chars) ≡ 1 + 2 + length chars
length-encode_string chars =
    omega (arith, length-append (le_bytes 2 (length chars)) chars, length-le_bytes 2 (length chars))

capture_string_data_lem :
    (chars : List ℕ) (s : Snapshot) → capture_string_data chars s ≡ stored (encode_string chars) s
unfolding capture_string_data remaining
capture_string_data_lem chars s = elim (Bool-cases (ltb (remaining s) (1 + 2 + length chars))) [
  | inl tight ↦ rw (tight, ap (λ k. ltb (remaining s) k) (length-encode_string chars), tight) refl
  | inr roomy ↦
      stored-eq s
        (let len = if ltb 65535 (length chars) then 65535 else length chars in
          let s' = put (put s (0x11 ∷ [])) (le_bytes 2 len) in
          if ltb 0 len then put s' (take len chars) else s')
        (1 + 2 + length chars) (encode_string chars) (sym (length-encode_string chars))
        (string_data_cut chars s (if ltb 65535 (length chars) then 65535 else length chars)
          (ground arith))
]

-- `CaptureOne` stores the bytes of its argument if they fit, and changes nothing otherwise.
pub capture_one_lem : (a : Arg) (s : Snapshot) → capture_one a s ≡ stored (encode a) s
unfolding capture_one
capture_one_lem (int32_arg v) s = capture_value_lem TypeTag.int32 4 v s
capture_one_lem (int64_arg v) s = capture_value_lem TypeTag.int64 8 v s
capture_one_lem (uint32_arg v) s = capture_value_lem TypeTag.uint32 4 v s
capture_one_lem (uint64_arg v) s = capture_value_lem TypeTag.uint64 8 v s
capture_one_lem (float_arg v) s = capture_value_lem TypeTag.float 4 v s
capture_one_lem (double_arg v) s = capture_value_lem TypeTag.double 8 v s
capture_one_lem (bool_arg v) s = capture_value_lem TypeTag.bool 1 (if v then 1 else 0) s
capture_one_lem (view_arg ptr len) s = capture_string_view_lem ptr len s
capture_one_lem (string_arg chars) s = capture_string_data_lem chars s
capture_one_lem (chars_arg none) s = capture_string_data_lem [] s
capture_one_lem (chars_arg (some chars)) s = capture_string_data_lem chars s
