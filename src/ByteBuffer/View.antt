-- ===== src/ByteBuffer/View.antt =====
-- A reader of byte_buffer.hpp seen from the bytes that are still unread: what it takes off their
-- front, and what it returns.
use dlms_cosem_cpp.Base.{
  ℕ, ◌+◌, ◌≤◌, ◌≡◌, refl, ap, ◌∙◌, arith, List, [], ◌∷◌, ◌++◌, append-nil, append_assoc, length,
  get_or, take, drop, length-append, length-drop, drop-add, get_or-drop, take-append, drop-append,
  le→ltb, lt→ltb, true,
}
use dlms_cosem_cpp.Core.{Result, ok, err, buffer_underflow}
use dlms_cosem_cpp.ByteBuffer.{
  ByteBuffer, Reader, of_bytes, advance, append, has_data, pure, resume, ◌>>=◌, peek_at, read_fixed,
  read_u8, read_bytes,
}

-- The position is inside the buffer, and `xs` is what stands behind it.
abbrev pub Left : ByteBuffer → List ℕ → Type 0
Left b xs = (b.pos ≤ length b.bytes) × (drop b.pos b.bytes ≡ xs)

pub of_bytes-Left : (xs : List ℕ) → Left (of_bytes xs) xs
of_bytes-Left xs = (omega arith, refl)

pub Left-length : (b : ByteBuffer) (xs : List ℕ) → Left b xs → length b.bytes ≡ b.pos + length xs
Left-length b xs h = omega (arith, length-drop b.pos b.bytes, ap length h.1)

pub Left-advance :
    (b : ByteBuffer) (xs ys : List ℕ) → Left b (xs ++ ys) → Left (advance (length xs) b) ys
Left-advance b xs ys h = (
  omega (arith, Left-length b (xs ++ ys) h, length-append xs ys),
  drop-add b.pos (length xs) (b.pos + length xs) b.bytes refl
      ∙ ap (drop (length xs)) h.1
      ∙ drop-append xs ys,
)

-- Wherever the unread bytes begin with `printed`, the reader takes exactly those and returns `a`.
abbrev pub Reads {ℓ} : {A : Type ℓ} → Reader A → List ℕ → A → Type ℓ
Reads m printed a =
    (b : ByteBuffer) (tail : List ℕ)
    → Left b (printed ++ tail)
    → m b ≡ (ok a, advance (length printed) b)

pub pure-Reads {ℓ} : {A : Type ℓ} (a : A) → Reads (pure a) [] a
pure-Reads a b tail h = ap (λ (t : ℕ). (ok a, record b { pos = t })) (omega arith)

module _ {ℓ κ} {A : Type ℓ} {B : Type κ} where
  pub Reads-bind :
      (m : Reader A) (f : A → Reader B) (xs ys : List ℕ) (a : A) (c : B)
      → Reads m xs a
      → Reads (f a) ys c
      → Reads (m >>= f) (xs ++ ys) c
  Reads-bind m f xs ys a c hm hf b tail h =
      let h' : Left b (xs ++ (ys ++ tail)) = (h.0, h.1 ∙ append_assoc xs ys tail) in
      let there = hm b (ys ++ tail) h' in
      let back = hf (advance (length xs) b) tail (Left-advance b xs (ys ++ tail) h') in
      ap (λ (r : Result A × ByteBuffer). resume r.0 r.1 f) there
      ∙ back
      ∙ ap (λ (t : ℕ). (ok c, record b { pos = t })) (omega (arith, length-append xs ys))

pub peek_at-Left : (b : ByteBuffer) (xs : List ℕ) (i : ℕ) → Left b xs → peek_at b i ≡ get_or xs i 0
peek_at-Left b xs i h =
    get_or-drop b.pos i (b.pos + i) b.bytes 0 refl ∙ ap (λ (t : List ℕ). get_or t i 0) h.1

pub Reads-fixed {ℓ} :
    {A : Type ℓ} (n : ℕ) (value : ByteBuffer → A) (printed : List ℕ) (a : A)
    → length printed ≡ n
    → ((b : ByteBuffer) (tail : List ℕ) → Left b (printed ++ tail) → value b ≡ a)
    → Reads (read_fixed n value) printed a
Reads-fixed n value printed a e hv b tail h =
    let room : b.pos + n ≤ length b.bytes =
      omega (arith, Left-length b (printed ++ tail) h, length-append printed tail) in
    rw (le→ltb (length b.bytes) (b.pos + n) room, hv b tail h, e)

pub read_u8-Reads : (x : ℕ) → Reads read_u8 (x ∷ []) x
unfolding read_u8
read_u8-Reads x b tail h =
    let room = Left-length b (x ∷ tail) h in ground (arith, room, peek_at-Left b (x ∷ tail) 0 h)

pub read_bytes-Reads : (xs : List ℕ) → Reads (read_bytes (length xs)) xs xs
unfolding read_bytes
read_bytes-Reads xs =
    Reads-fixed (length xs) _ xs xs refl λ b tail h. ap (take (length xs)) h.1 ∙ take-append xs tail

-- Nothing is left, and a read of a byte fails without moving the position.
pub read_u8-underflow : (b : ByteBuffer) → Left b [] → read_u8 b ≡ (err buffer_underflow, b)
unfolding read_u8
read_u8-underflow b h = ground (arith, Left-length b [] h)

-- Appending one list after the other.
pub append-append :
    (b : ByteBuffer) (xs ys : List ℕ) → append ys (append xs b) ≡ append (xs ++ ys) b
append-append b xs ys = ap (λ (t : List ℕ). record b { bytes = t }) (append_assoc b.bytes xs ys)

pub append_three :
    (b : ByteBuffer) (xs ys zs : List ℕ)
    → append zs (append ys (append xs b)) ≡ append (xs ++ (ys ++ zs)) b
append_three b xs ys zs = append-append (append xs b) ys zs ∙ append-append b xs (ys ++ zs)

-- A reader whose value is wrapped up.
pub Reads-map {ℓ κ} :
    {A : Type ℓ} {B : Type κ} (m : Reader A) (f : A → B) (xs : List ℕ) (a : A)
    → Reads m xs a
    → Reads (m >>= λ x. pure (f x)) xs (f a)
Reads-map m f xs a h b tail l =
    Reads-bind m (λ x. pure (f x)) xs [] a (f a) h (pure-Reads (f a)) b tail (rw (append-nil xs) l)
    ∙ ap (λ (t : List ℕ). (ok (f a), advance (length t) b)) (append-nil xs)

pub has_data-Left : (b : ByteBuffer) (x : ℕ) (xs : List ℕ) → Left b (x ∷ xs) → has_data b ≡ true
has_data-Left b x xs l = lt→ltb b.pos (length b.bytes) (omega (arith, Left-length b (x ∷ xs) l))
