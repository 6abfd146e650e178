-- ===== src/ByteBuffer/Bounds.antt =====
-- Where a reader of byte_buffer.hpp may leave the position, whatever the bytes are.
use dlms_cosem_cpp.Base.{
  ℕ, zero, suc, ◌+◌, ◌≤◌, ◌≡◌, ◌≢◌, refl, ◌∙◌, ap, arith, Bool, true, false, ◌||◌, length, ltb,
  ◌==◌, if◌then◌else◌, bit_and,
}
use dlms_cosem_cpp.Core.{Result, DlmsError, ok, err, stuck, invalid_length}
use dlms_cosem_cpp.ByteBuffer.{
  ByteBuffer, Reader, ◌>>=◌, resume, pure, fail, push_byte, read_fixed, read_u8, read_u16, read_u32,
  read_u64, read_bytes, read_length_bytes, read_variable_length,
}

-- Started at `b`, `m` comes to an end, leaves the bytes as they are, does not move back and does not
-- pass the end.
abbrev pub InsideAt {ℓ} : {A : Type ℓ} → Reader A → ByteBuffer → Type ℓ
InsideAt m b =
    ((m b).0 ≢ stuck)
    × ((m b).1.bytes ≡ b.bytes)
    × (b.pos ≤ (m b).1.pos)
    × ((m b).1.pos ≤ length b.bytes)

abbrev pub StaysInside {ℓ} : {A : Type ℓ} → Reader A → Type ℓ
StaysInside m = (b : ByteBuffer) → b.pos ≤ length b.bytes → InsideAt m b

pub pure-StaysInside {ℓ} : {A : Type ℓ} (a : A) → StaysInside (pure a)
pure-StaysInside a b h = (λ e. cc, refl, omega arith, h)

pub fail-StaysInside {ℓ} : {A : Type ℓ} (e : DlmsError) → StaysInside {A = A} (fail e)
fail-StaysInside e b h = (λ p. cc, refl, omega arith, h)

pub if-StaysInside {ℓ} :
    {A : Type ℓ} (t : Bool) (m n : Reader A)
    → StaysInside m
    → StaysInside n
    → StaysInside (if t then m else n)
if-StaysInside true m n hm hn = hm
if-StaysInside false m n hm hn = hn

module _ {ℓ κ} {A : Type ℓ} {B : Type κ} where
  -- The rest may use what the first reader returned and where it came to stand.
  pub bind-InsideAt :
      (m : Reader A) (f : A → Reader B) (b : ByteBuffer)
      → InsideAt m b
      → ((a : A) → (m b).0 ≡ ok a → InsideAt (f a) (m b).1)
      → InsideAt (m >>= f) b
  bind-InsideAt m f b = go (m b)
    where
      go :
          (r : Result A × ByteBuffer)
          → (r.0 ≢ stuck) × (r.1.bytes ≡ b.bytes) × (b.pos ≤ r.1.pos) × (r.1.pos ≤ length b.bytes)
          → ((a : A) → r.0 ≡ ok a → InsideAt (f a) r.1)
          → ((resume r.0 r.1 f).0 ≢ stuck)
            × ((resume r.0 r.1 f).1.bytes ≡ b.bytes)
            × (b.pos ≤ (resume r.0 r.1 f).1.pos)
            × ((resume r.0 r.1 f).1.pos ≤ length b.bytes)
      go (ok a, c) (_, same, le, inside) hf =
          let after = hf a refl in
          (after.0, after.1 ∙ same, omega (arith, after.2), omega (arith, after.3, ap length same))
      go (err e, c) (_, same, le, inside) hf = (λ p. cc, same, le, inside)
      go (stuck, c) (ends, same, le, inside) hf = absurd (ends refl)

  -- A bound on where the rest comes to stand bounds the whole, if that returns something.
  pub bind-pos :
      (m : Reader A) (f : A → Reader B) (b : ByteBuffer) (k : ℕ)
      → ((a : A) → (m b).0 ≡ ok a → k ≤ (f a (m b).1).1.pos)
      → (x : B) → ((m >>= f) b).0 ≡ ok x
      → k ≤ ((m >>= f) b).1.pos
  bind-pos m f b k = go (m b)
    where
      go :
          (r : Result A × ByteBuffer)
          → ((a : A) → r.0 ≡ ok a → k ≤ (f a r.1).1.pos)
          → (x : B) → (resume r.0 r.1 f).0 ≡ ok x
          → k ≤ (resume r.0 r.1 f).1.pos
      go (ok a, c) hf x e = hf a refl
      go (err d, c) hf x e = cc
      go (stuck, c) hf x e = cc

  pub bind-StaysInside :
      (m : Reader A) (f : A → Reader B)
      → StaysInside m
      → ((a : A) → StaysInside (f a))
      → StaysInside (m >>= f)
  bind-StaysInside m f hm hf b h =
      let first = hm b h in
      bind-InsideAt m f b first λ a e. hf a (m b).1 (omega (arith, first.3, ap length first.1))

pub fixed-StaysInside {ℓ} :
    {A : Type ℓ} (n : ℕ) (value : ByteBuffer → A) → StaysInside (read_fixed n value)
fixed-StaysInside n value b h = ground arith

pub read_u8-StaysInside : StaysInside read_u8
unfolding read_u8
read_u8-StaysInside b h = ground arith

pub read_u16-StaysInside : StaysInside read_u16
unfolding read_u16
read_u16-StaysInside = fixed-StaysInside 2 _

pub read_u32-StaysInside : StaysInside read_u32
unfolding read_u32
read_u32-StaysInside = fixed-StaysInside 4 _

pub read_u64-StaysInside : StaysInside read_u64
unfolding read_u64
read_u64-StaysInside = fixed-StaysInside 8 _

pub read_bytes-StaysInside : (n : ℕ) → StaysInside (read_bytes n)
unfolding read_bytes
read_bytes-StaysInside n = fixed-StaysInside n _

read_length_bytes-StaysInside : (n len : ℕ) → StaysInside (read_length_bytes n len)
unfolding read_length_bytes
read_length_bytes-StaysInside zero len = pure-StaysInside len
read_length_bytes-StaysInside (suc n) len =
    bind-StaysInside read_u8 _ read_u8-StaysInside
      λ x. read_length_bytes-StaysInside n (push_byte len x)

pub read_variable_length-StaysInside : StaysInside read_variable_length
unfolding read_variable_length
read_variable_length-StaysInside = bind-StaysInside read_u8 _ read_u8-StaysInside λ f.
    if-StaysInside (bit_and f 0x80 == 0) _ _ (pure-StaysInside f) (
      if-StaysInside (bit_and f 0x7F == 0 || ltb 4 (bit_and f 0x7F)) _ _
        (fail-StaysInside invalid_length) (read_length_bytes-StaysInside (bit_and f 0x7F) 0))

-- A byte that is read was there: the position moves by one.
pub read_u8-moves : (b : ByteBuffer) (x : ℕ) → (read_u8 b).0 ≡ ok x → (read_u8 b).1.pos ≡ b.pos + 1
unfolding read_u8
read_u8-moves b x h = ground arith
