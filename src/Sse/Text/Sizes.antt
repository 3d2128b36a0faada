-- ===== src/Sse/Text/Sizes.antt =====
-- The lengths of a decoded and of a stripped line.
use libjadx.Base.{
  ℕ, suc, ◌≤◌, Option, none, some, [], ◌∷◌, length, ◌≡◌, arith, Option-cases, inl, inr,
}
use libjadx.Sse.Text.{
  Bytes, Codes, Utf8, utf8_from, utf8_step, between_chars, emit, decode_utf8, rstrip_cr,
  keep_unless_last_cr,
}

keep-length : (c : ℕ) (cs : Codes) → length (keep_unless_last_cr c cs) ≤ suc (length cs)
keep-length c [] = ground arith
keep-length c (d ∷ ds) = omega arith

pub rstrip_cr-length : (cs : Codes) → length (rstrip_cr cs) ≤ length cs
unfolding rstrip_cr
rstrip_cr-length [] = omega arith
rstrip_cr-length (c ∷ cs) = omega (arith, keep-length c (rstrip_cr cs), rstrip_cr-length cs)

emit-length :
    (out : Option ℕ) (r : Option Codes) {cs : Codes}
    → emit out r ≡ some cs
    → (ds : Codes) × (r ≡ some ds) × (length cs ≤ suc (length ds))
emit-length out none h = ground arith
emit-length none (some ds) h = (ds, ground arith, ground arith)
emit-length (some c) (some ds) h = (ds, ground arith, ground arith)

utf8_from-length :
    (s : Utf8) (bs : Bytes) {cs : Codes} → utf8_from s bs ≡ some cs → length cs ≤ length bs
unfolding utf8_from
utf8_from-length s [] h = ground arith
utf8_from-length s (b ∷ bs) h = elim (Option-cases (utf8_step s b)) [
  | inl bad ↦ cc (rw (bad, utf8_from) at h)
  | inr ((s', out), good) ↦
      let (ds, rest, less) = emit-length out (utf8_from s' bs) (rw (good, utf8_from) at h) in
      omega (arith, utf8_from-length s' bs rest)
]

pub decode_utf8-length :
    (bs : Bytes) {cs : Codes} → decode_utf8 bs ≡ some cs → length cs ≤ length bs
unfolding decode_utf8
decode_utf8-length bs h = utf8_from-length between_chars bs h
