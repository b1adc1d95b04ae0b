-- ===== src/Snapshot/ConvertLoop.antt =====
-- The loop of `ConvertPointersToData`.
use oneplog.Prelude.{
  ℕ, zero, suc, ◌+◌, ◌%◌, ◌^◌, ◌≤◌, ◌<◌, ◌≡◌, ◌∙◌, ap, ap₂, sym, subst, Bool, true, false,
  if◌then◌else◌, none, some, List, [], ◌∷◌, ◌++◌, map, append-nil, append_assoc, length,
  length-append, arith, ltb, leb, ◌&&◌, Bool-cases, inl, inr, leb→le,
}
use oneplog.Snapshot.Bytes.{read, le_bytes, le_value, length-le_bytes}
use oneplog.Snapshot.Capture.{
  Snapshot, Arg, int32_arg, int64_arg, uint32_arg, uint64_arg, float_arg, double_arg, bool_arg,
  view_arg, string_arg, chars_arg, default_buffer_size, tag_of, put,
}
use oneplog.Snapshot.Convert.{type_data_size, is_string_view, convert_view, copy_arg, convert_loop}
use oneplog.Snapshot.Layout.{encode, encode_string, encode_all, IsTyped}
use oneplog.Snapshot.Payload.{tagged, string_payload, view_payload, one-le-encode, Left, Left-next}
use oneplog.Snapshot.CaptureHolds.{put-bytes, length-snoc}
use oneplog.Snapshot.ConvertHolds.{
  added, copy_arg_lem, convert_view_lem, to_copy, IsSafe, AllSafe, if_false,
}

pub if_true {ℓ} : {A : Type ℓ} (b : Bool) (x y : A) → b ≡ true → (if b then x else y) ≡ x
if_true b x y e = ap (λ c. if c then x else y) e

-- A round over an argument that is copied as it stands, before the rest `k` of the loop.
copy_round :
    (f : ℕ → ℕ) (k : ℕ → Snapshot → Snapshot) (o t size : ℕ) (bs : List ℕ) (new : Snapshot)
    → read f (o + 1) (length bs) ≡ bs
    → size ≡ length bs
    → k (o + 1 + size) (copy_arg f t (o + 1) size new)
      ≡ k (o + length (t ∷ bs)) (added (t ∷ bs) new)
copy_round f k o t size bs new h e = ap₂ k (omega arith) (copy_arg_lem f t (o + 1) size bs new h e)

module _ (mem : ℕ → ℕ) (k : ℕ → Snapshot → Snapshot) where
  -- What one round of the loop does, before the rest `k` of the loop.
  abbrev round_of : (ℕ → ℕ) → ℕ → Snapshot → Snapshot
  round_of f o new =
      let tag = tag_of (f o) in
      let size = type_data_size tag f (o + 1) in
      if is_string_view tag
      then k (o + 1 + 8 + 4) (convert_view mem f (o + 1) new)
      else k (o + 1 + size) (copy_arg f (f o) (o + 1) size new)

  string_round :
      (f : ℕ → ℕ) (o : ℕ) (chars : List ℕ) (new : Snapshot)
      → length chars < 256 ^ 2
      → read f o (length (encode_string chars)) ≡ encode_string chars
      → round_of f o new ≡ k (o + length (encode_string chars)) (added (encode_string chars) new)
  unfolding type_data_size
  string_round f o chars new t h =
      let bs = le_bytes 2 (length chars) ++ chars in
      let (e, r) = tagged f o 0x11 bs h in
      let (len, text, size) = string_payload f o chars t r in
      rw e (
        copy_round f k o 0x11 (2 + le_value (read f (o + 1) 2)) bs new r (omega (arith, len, size)))

  round_lem :
      (f : ℕ → ℕ) (o : ℕ) (a : Arg) (new : Snapshot)
      → IsTyped a
      → IsSafe a
      → read f o (length (encode a)) ≡ encode a
      → round_of f o new ≡ k (o + length (encode a)) (added (encode (to_copy mem a)) new)
  unfolding type_data_size
  round_lem f o (int32_arg v) new t s h =
      let (e, r) = tagged f o 0x01 (le_bytes 4 v) h in
      rw e (copy_round f k o 0x01 4 (le_bytes 4 v) new r (sym (length-le_bytes 4 v)))
  round_lem f o (int64_arg v) new t s h =
      let (e, r) = tagged f o 0x02 (le_bytes 8 v) h in
      rw e (copy_round f k o 0x02 8 (le_bytes 8 v) new r (sym (length-le_bytes 8 v)))
  round_lem f o (uint32_arg v) new t s h =
      let (e, r) = tagged f o 0x03 (le_bytes 4 v) h in
      rw e (copy_round f k o 0x03 4 (le_bytes 4 v) new r (sym (length-le_bytes 4 v)))
  round_lem f o (uint64_arg v) new t s h =
      let (e, r) = tagged f o 0x04 (le_bytes 8 v) h in
      rw e (copy_round f k o 0x04 8 (le_bytes 8 v) new r (sym (length-le_bytes 8 v)))
  round_lem f o (float_arg v) new t s h =
      let (e, r) = tagged f o 0x05 (le_bytes 4 v) h in
      rw e (copy_round f k o 0x05 4 (le_bytes 4 v) new r (sym (length-le_bytes 4 v)))
  round_lem f o (double_arg v) new t s h =
      let (e, r) = tagged f o 0x06 (le_bytes 8 v) h in
      rw e (copy_round f k o 0x06 8 (le_bytes 8 v) new r (sym (length-le_bytes 8 v)))
  round_lem f o (bool_arg b) new t s h =
      let bs = le_bytes 1 (if b then 1 else 0) in
      let (e, r) = tagged f o 0x07 bs h in
      rw e (copy_round f k o 0x07 1 bs new r (sym (length-le_bytes 1 (if b then 1 else 0))))
  round_lem f o (view_arg ptr len) new t s h =
      let (e, r) = tagged f o 0x10 (le_bytes 8 ptr ++ le_bytes 4 (len % 2 ^ 32)) h in
      let (ep, el, size) = view_payload f o ptr len t.0 t.1 r in
      rw e (ap₂ k (omega (arith, size)) (convert_view_lem mem f (o + 1) ptr len new s ep el))
  round_lem f o (string_arg chars) new t s h = string_round f o chars new t h
  round_lem f o (chars_arg none) new t s h = string_round f o [] new (omega arith) h
  round_lem f o (chars_arg (some chars)) new t s h = string_round f o chars new t h

-- The arguments that the conversion keeps: each that still fits behind those kept before it.
abbrev pub keep : ℕ → List Arg → List Arg
keep o [] = []
keep o (a ∷ rest) =
    let kept = keep (o + length (encode a)) rest in
    let skipped = keep o rest in
    if leb (o + length (encode a)) default_buffer_size then a ∷ kept else skipped

-- The new buffer while it is filled; its header is not yet written.
pub record Building (new : Snapshot) (kept : List Arg) : Type 0 where
  pub offset_eq : new.offset ≡ 2 + length (encode_all kept)
  pub bytes : read new.buffer 2 (length (encode_all kept)) ≡ encode_all kept
  pub count : new.arg_count ≡ length kept
  pub fits : new.offset ≤ default_buffer_size

added-Building :
    (a : Arg) {new : Snapshot} {kept : List Arg}
    → Building new kept
    → new.offset + length (encode a) ≤ default_buffer_size
    → Building (record (put new (encode a)) { arg_count = new.arg_count + 1 }) (kept ++ (a ∷ []))
added-Building a {new} {kept} b fit = record {
  offset_eq = omega (arith, b.offset_eq, length-snoc kept a);
  bytes = put-bytes new kept a b.offset_eq b.bytes;
  count = omega (arith, b.count, length-append kept (a ∷ []));
  fits = fit;
}

module _ (mem : ℕ → ℕ) (s : Snapshot) where
  -- The test of the loop, while an argument is left.
  inside :
      (index o : ℕ) (a : Arg) (args : List Arg) (new : Snapshot)
      → Left s index o (a ∷ args)
      → new.arg_count ≤ index
      → (ltb o s.offset && ltb new.arg_count s.arg_count) ≡ true
  inside index o a args new l few =
      ground (arith, l.count, l.ends, one-le-encode a, length-append (encode a) (encode_all args))

  outside :
      (index o : ℕ) (new : Snapshot)
      → Left s index o []
      → (ltb o s.offset && ltb new.arg_count s.arg_count) ≡ false
  outside index o new l = ground (arith, l.ends)

  loop_step :
      (fuel index o : ℕ) (a : Arg) (args : List Arg) (new : Snapshot)
      → Left s index o (a ∷ args)
      → IsSafe a
      → new.arg_count ≤ index
      → convert_loop mem (suc fuel) s o new
        ≡ convert_loop mem fuel s (o + length (encode a)) (added (encode (to_copy mem a)) new)
  unfolding convert_loop
  loop_step fuel index o a args new l safe few =
      let next = Left-next index o a args l in
      if_true _ (round_of mem (convert_loop mem fuel s) s.buffer o new) new
        (inside index o a args new l few)
      ∙ round_lem mem (convert_loop mem fuel s) s.buffer o a new l.typed.0 safe next.0

  pub loop_Building :
      (args : List Arg) (fuel index o : ℕ) (new : Snapshot) (kept : List Arg)
      → Left s index o args
      → AllSafe args
      → Building new kept
      → length kept ≤ index
      → length args < fuel
      → Building (convert_loop mem fuel s o new) (kept ++ keep new.offset (map (to_copy mem) args))
  unfolding convert_loop
  loop_Building args zero index o new kept l safe b few more = absurd (omega arith)
  loop_Building [] (suc fuel) index o new kept l safe b few more =
      rw (append-nil kept)
        (subst (λ t. Building t kept) (sym (if_false _ _ new (outside index o new l))) b)
  loop_Building (a ∷ args) (suc fuel) index o new kept l safe b few more =
      let next = Left-next index o a args l in
      let c = to_copy mem a in
      rw (loop_step fuel index o a args new l safe.0 (omega (arith, b.count)))
        (elim (Bool-cases (leb (new.offset + length (encode c)) default_buffer_size)) [
          | inl fits ↦
              let new' = record (put new (encode c)) { arg_count = new.arg_count + 1 } in
              let b' = added-Building c b (leb→le _ _ fits) in
              rw fits (
                subst (Building (convert_loop mem fuel s (o + length (encode a)) new'))
                  (append_assoc kept (c ∷ []) _)
                  (loop_Building args fuel (index + 1) (o + length (encode a)) new'
                    (kept ++ (c ∷ [])) next.1 safe.1 b' (omega (arith, length-append kept (c ∷ [])))
                    (omega arith)))
          | inr tight ↦ rw tight (
              loop_Building args fuel (index + 1) (o + length (encode a)) new kept next.1 safe.1 b
                (omega arith) (omega arith))
        ])
