-- ===== src/Hdlc/Escape.antt =====
-- src/dlms/hdlc/frame.cpp: byte stuffing, `hdlc_escape` and `hdlc_unescape`.
use dlms_cosem_cpp.Base.{
  ℕ, ◌≡◌, ◌↔◌, ◌⊎◌, inl, inr, refl, sym, ap, ◌∙◌, arith, Bool, false, ◌||◌, List, [], ◌∷◌, ◌==◌,
  if◌then◌else◌, bit_xor, Bool-cases,
}
use dlms_cosem_cpp.Base.Bits.{bit_xor_cancel}

-- include/dlms/config.hpp
abbrev pub hdlc_flag_byte : ℕ
hdlc_flag_byte = 0x7E

abbrev pub hdlc_escape_byte : ℕ
hdlc_escape_byte = 0x7D

-- The test of `hdlc_escape`.
abbrev pub is_escaped : ℕ → Bool
is_escaped x = x == hdlc_flag_byte || x == hdlc_escape_byte || x == 0x5E || x == 0x5D

unfoldable pub hdlc_escape : List ℕ → List ℕ
hdlc_escape [] = []
hdlc_escape (x ∷ xs) =
    let out = hdlc_escape xs in
    if is_escaped x then (hdlc_escape_byte ∷ (bit_xor x 0x20 ∷ out)) else (x ∷ out)

-- `data[i] == HDLC_ESCAPE_BYTE && i + 1 < len`: an escape byte at the very end stays.
unfoldable pub hdlc_unescape : List ℕ → List ℕ
hdlc_unescape [] = []
hdlc_unescape (x ∷ []) = x ∷ []
hdlc_unescape (x ∷ (y ∷ ys)) =
    let pair = bit_xor y 0x20 ∷ hdlc_unescape ys in
    let single = x ∷ hdlc_unescape (y ∷ ys) in if x == hdlc_escape_byte then pair else single

unescape-pair :
    (y : ℕ) (ys : List ℕ)
    → hdlc_unescape (hdlc_escape_byte ∷ (y ∷ ys)) ≡ bit_xor y 0x20 ∷ hdlc_unescape ys
unfolding hdlc_unescape
unescape-pair y ys = refl

unescape-plain :
    (x : ℕ) (xs : List ℕ)
    → (x == hdlc_escape_byte) ≡ false
    → hdlc_unescape (x ∷ xs) ≡ x ∷ hdlc_unescape xs
unfolding hdlc_unescape
unescape-plain x [] e = refl
unescape-plain x (y ∷ ys) e = rw e

-- Unescaping undoes escaping, on every list of bytes.
pub hdlc_unescape-hdlc_escape : (xs : List ℕ) → hdlc_unescape (hdlc_escape xs) ≡ xs
unfolding hdlc_escape
hdlc_unescape-hdlc_escape [] = unfold hdlc_unescape in refl
hdlc_unescape-hdlc_escape (x ∷ xs) = elim (Bool-cases (is_escaped x)) [
  | inl e ↦ rw (
    e,
    unescape-pair (bit_xor x 0x20) (hdlc_escape xs),
    bit_xor_cancel x 0x20,
    hdlc_unescape-hdlc_escape xs,
  )
  | inr e ↦ rw (e, unescape-plain x (hdlc_escape xs) (ground arith), hdlc_unescape-hdlc_escape xs)
]

-- `a` stands in the list.
abbrev pub Has : ℕ → List ℕ → Type 0
Has a [] = ⊥
Has a (x ∷ xs) = (x ≡ a) ⊎ Has a xs

toggled_flag : (x : ℕ) → bit_xor x 0x20 ≡ hdlc_flag_byte → x ≡ 0x5E
toggled_flag x e = sym (bit_xor_cancel x 0x20) ∙ ap (λ (t : ℕ). bit_xor t 0x20) e

stuffed_toggled :
    (x : ℕ) (xs out : List ℕ)
    → (Has hdlc_flag_byte out → Has 0x5E xs)
    → Has hdlc_flag_byte (hdlc_escape_byte ∷ (bit_xor x 0x20 ∷ out))
    → Has 0x5E (x ∷ xs)
stuffed_toggled x xs out ih (inl p) = absurd (omega arith)
stuffed_toggled x xs out ih (inr (inl p)) = inl (toggled_flag x p)
stuffed_toggled x xs out ih (inr (inr r)) = inr (ih r)

plain_kept :
    (x : ℕ) (xs out : List ℕ)
    → (Has hdlc_flag_byte out → Has 0x5E xs)
    → is_escaped x ≡ false
    → Has hdlc_flag_byte (x ∷ out)
    → Has 0x5E (x ∷ xs)
plain_kept x xs out ih e (inl p) = absurd (ground arith)
plain_kept x xs out ih e (inr r) = inr (ih r)

flag→escaped : (xs : List ℕ) → Has hdlc_flag_byte (hdlc_escape xs) → Has 0x5E xs
unfolding hdlc_escape
flag→escaped [] m = m
flag→escaped (x ∷ xs) m = elim (Bool-cases (is_escaped x)) [
  | inl e ↦ stuffed_toggled x xs (hdlc_escape xs) (flag→escaped xs) (rw e at m)
  | inr e ↦ plain_kept x xs (hdlc_escape xs) (flag→escaped xs) e (rw e at m)
]

escaped→flag : (xs : List ℕ) → Has 0x5E xs → Has hdlc_flag_byte (hdlc_escape xs)
unfolding hdlc_escape
escaped→flag [] m = m
escaped→flag (x ∷ xs) (inl p) = rw p (inr (inl refl))
escaped→flag (x ∷ xs) (inr m) = elim (Bool-cases (is_escaped x)) [
  | inl e ↦ rw e (inr (inr (escaped→flag xs m)))
  | inr e ↦ rw e (inr (escaped→flag xs m))
]

-- The flag byte stands in the escaped bytes exactly when 0x5E stands in the input, since 0x5E ^ 0x20
-- is the flag.
pub hdlc_escape-flag_iff : (xs : List ℕ) → Has hdlc_flag_byte (hdlc_escape xs) ↔ Has 0x5E xs
hdlc_escape-flag_iff xs = (flag→escaped xs, escaped→flag xs)
