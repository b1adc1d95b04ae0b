-- ===== src/Snapshot/ConvertHolds.antt =====
-- `ConvertPointersToData` on a snapshot that holds arguments.
use oneplog.Prelude.{
  ℕ, zero, suc, ◌+◌, ◌≡◌, ◌≢◌, ◌⊎◌, refl, ◌∙◌, ap, ap₂, sym, Bool, true, false, if◌then◌else◌, List,
  [], ◌∷◌, ◌++◌, length, arith, not, ltb, leb, ◌==◌, ◌&&◌, Bool-cases, inl, inr, lt→ltb,
}
use oneplog.Snapshot.Bytes.{read, le_bytes, le_value, length-read}
use oneplog.Snapshot.Capture.{Snapshot, Arg, view_arg, string_arg, default_buffer_size, put}
use oneplog.Snapshot.Convert.{convert_view, copy_arg}
use oneplog.Snapshot.Layout.{encode_string}
use oneplog.Snapshot.CaptureOne.{put-put, put-nil, length-encode_string}

-- The bytes of an argument at the end of the new buffer, if they fit.
abbrev pub added : List ℕ → Snapshot → Snapshot
added bs new =
    if leb (new.offset + length bs) default_buffer_size
    then record (put new bs) { arg_count = new.arg_count + 1 }
    else new

added-eq :
    (bs : List ℕ) (n : ℕ) (new t : Snapshot)
    → n ≡ length bs
    → t ≡ put new bs
    → (if leb (new.offset + n) default_buffer_size
        then record t { arg_count = new.arg_count + 1 }
        else new)
      ≡ added bs new
added-eq bs n new t e f =
    ap₂ {B = Snapshot} {C = Snapshot}
      (λ k u.
        if leb (new.offset + k) default_buffer_size
        then record u { arg_count = new.arg_count + 1 }
        else new)
      e f

pub if_false {ℓ} : {A : Type ℓ} (b : Bool) (x y : A) → b ≡ false → (if b then x else y) ≡ y
if_false b x y e = ap (λ c. if c then x else y) e

pub copy_arg_lem :
    (f : ℕ → ℕ) (t o size : ℕ) (bs : List ℕ) (new : Snapshot)
    → read f o (length bs) ≡ bs
    → size ≡ length bs
    → copy_arg f t o size new ≡ added (t ∷ bs) new
unfolding copy_arg
copy_arg_lem f t o size bs new h e =
    added-eq (t ∷ bs) (1 + size) new (put (put new (t ∷ [])) (read f o size)) (omega arith)
      (ap (put (put new (t ∷ []))) (ap (read f o) e ∙ h) ∙ put-put new (t ∷ []) bs)

-- A view becomes a copy of the bytes that it points to.
abbrev pub to_copy : (ℕ → ℕ) → Arg → Arg
to_copy mem (view_arg ptr len) = string_arg (if ptr == 0 then [] else read mem ptr len)
to_copy mem a = a

-- A null view is empty.
abbrev pub IsSafe : Arg → Type 0
IsSafe (view_arg ptr len) = (ptr ≢ 0) ⊎ (len ≡ 0)
IsSafe _ = Unit {0}

abbrev pub AllSafe : List Arg → Type 0
AllSafe [] = Unit {0}
AllSafe (a ∷ rest) = IsSafe a × AllSafe rest

module _ (mem : ℕ → ℕ) where
  pub viewed_text :
      (ptr len : ℕ)
      → IsSafe (view_arg ptr len)
      → length (if ptr == 0 then [] else read mem ptr len) ≡ len
  viewed_text ptr len safe = ground (arith, length-read mem ptr len)

  abbrev pub text_at : ℕ → ℕ → List ℕ
  text_at ptr len = if ptr == 0 then [] else read mem ptr len

  abbrev view_put : ℕ → ℕ → Snapshot → Snapshot
  view_put ptr n new =
      let new' = put (put new (0x11 ∷ [])) (le_bytes 2 n) in
      if not (ptr == 0) && ltb 0 n then put new' (read mem ptr n) else new'

  null_len : (ptr len : ℕ) → (ptr == 0) ≡ true → IsSafe (view_arg ptr (suc len)) → ⊥
  null_len ptr len e s = ground arith

  text-put :
      (ptr len : ℕ) (t : Snapshot)
      → IsSafe (view_arg ptr len)
      → (if not (ptr == 0) && ltb 0 len then put t (read mem ptr len) else t)
        ≡ put t (text_at ptr len)
  unfolding read
  text-put ptr zero t safe = elim (Bool-cases (ptr == 0)) [
    | inl null ↦ rw null (sym (put-nil t))
    | inr set_ptr ↦ rw set_ptr (sym (put-nil t))
  ]
  text-put ptr (suc len) t safe = elim (Bool-cases (ptr == 0)) [
    | inl null ↦ absurd (null_len ptr len null safe)
    | inr set_ptr ↦ rw (set_ptr, lt→ltb 0 (suc len) (omega arith)) refl
  ]

  view_put-eq :
      (ptr len : ℕ) (new : Snapshot)
      → IsSafe (view_arg ptr len)
      → view_put ptr len new ≡ put new (encode_string (text_at ptr len))
  view_put-eq ptr len new safe =
      text-put ptr len (put (put new (0x11 ∷ [])) (le_bytes 2 len)) safe
      ∙ ap (λ k. put (put (put new (0x11 ∷ [])) (le_bytes 2 k)) (text_at ptr len))
          (sym (viewed_text ptr len safe))
      ∙ put-put (put new (0x11 ∷ [])) (le_bytes 2 (length (text_at ptr len))) (text_at ptr len)
      ∙ put-put new (0x11 ∷ []) (le_bytes 2 (length (text_at ptr len)) ++ text_at ptr len)

  -- The conversion with the cut-off length as a variable.
  view_added :
      (ptr len n : ℕ) (new : Snapshot)
      → IsSafe (view_arg ptr len)
      → n ≡ (if ltb 65535 len then 65535 else len)
      → (if leb (new.offset + (1 + 2 + len)) default_buffer_size
          then record (view_put ptr n new) { arg_count = new.arg_count + 1 }
          else new)
        ≡ added (encode_string (text_at ptr len)) new
  view_added ptr len n new safe e =
      let size : 1 + 2 + len ≡ length (encode_string (text_at ptr len)) =
        omega (arith, length-encode_string (text_at ptr len), viewed_text ptr len safe) in
      elim (Bool-cases (leb (new.offset + (1 + 2 + len)) default_buffer_size)) [
        | inl fits ↦
            let cut : n ≡ len = ground arith in
            added-eq (encode_string (text_at ptr len)) (1 + 2 + len) new (view_put ptr n new) size
              (ap (λ k. view_put ptr k new) cut ∙ view_put-eq ptr len new safe)
        | inr tight ↦
            if_false _ (record (view_put ptr n new) { arg_count = new.arg_count + 1 }) new tight
            ∙ sym (
                if_false _
                  (record (put new (encode_string (text_at ptr len))) {
                    arg_count = new.arg_count + 1;
                  })
                  new (ap (λ k. leb (new.offset + k) default_buffer_size) (sym size) ∙ tight))
      ]

  pub convert_view_lem :
      (f : ℕ → ℕ) (o ptr len : ℕ) (new : Snapshot)
      → IsSafe (view_arg ptr len)
      → le_value (read f o 8) ≡ ptr
      → le_value (read f (o + 8) 4) ≡ len
      → convert_view mem f o new ≡ added (encode_string (text_at ptr len)) new
  unfolding convert_view
  convert_view_lem f o ptr len new safe ep el =
      ap₂ {B = ℕ} {C = Snapshot}
        (λ p n.
          let cut = if ltb 65535 n then 65535 else n in
          if leb (new.offset + (1 + 2 + n)) default_buffer_size
          then record (view_put p cut new) { arg_count = new.arg_count + 1 }
          else new)
        ep el
      ∙ view_added ptr len (if ltb 65535 len then 65535 else len) new safe refl
