-- ===== src/Sm4/Words.antt =====
-- src/dlms/security/sm4.cpp: a block as four words of 32 bits and back.
use dlms_cosem_cpp.Base.{
  ℕ, zero, suc, ◌+◌, ◌-◌, ◌*◌, ◌/◌, ◌%◌, ◌^◌, ◌<◌, ◌≡◌, refl, ◌∙◌, arith, Bool, true, ◌&&◌,
  and_left, and_right, List, [], ◌∷◌, ◌++◌, get_or, ltb, ltb→lt, All, bit_and, bit_or, bit_xor,
}
use dlms_cosem_cpp.Base.Bits.{
  ◌<<<◌, ◌>>>◌, u32, IsByte, bit_and-mask, or_bytes, bit_or-lt, bit_xor-lt,
}
use native.Mathlib.Nat.{mod-lt, div-le_self}
use dlms_cosem_cpp.Sm4.Tables.{sbox}
use dlms_cosem_cpp.Sm4.Block.{
  Words, rotl32, word_bytes, word_at, substitute, tau, feistel, read_block, round, encrypt_rounds,
}

abbrev pub IsWord : ℕ → Type 0
IsWord x = x < 2 ^ 32

pub record AreWords (x : Words) : Type 0 where
  pub fits0 : IsWord x.x0
  pub fits1 : IsWord x.x1
  pub fits2 : IsWord x.x2
  pub fits3 : IsWord x.x3

get_or-below :
    (m : ℕ) (xs : List ℕ) → All (λ (b : ℕ). b < m) xs → 0 < m → (i : ℕ) → get_or xs i 0 < m
get_or-below m [] h p i = p
get_or-below m (x ∷ xs) h p zero = h.0
get_or-below m (x ∷ xs) h p (suc i) = get_or-below m xs h.1 p i

abbrev all_are : List ℕ → (ℕ → Bool) → Bool
all_are [] p = true
all_are (x ∷ xs) p = p x && all_are xs p

sbox-below : (xs : List ℕ) → all_are xs (λ b. ltb b 256) ≡ true → All (λ (b : ℕ). b < 256) xs
sbox-below [] h = tt
sbox-below (x ∷ xs) h = (ltb→lt x 256 (and_left _ _ h), sbox-below xs (and_right _ _ h))

word_of :
    (a b c d : ℕ)
    → a < 256
    → b < 256
    → c < 256
    → d < 256
    → bit_or (bit_or (bit_or (u32 (a <<< 24)) (b <<< 16)) (c <<< 8)) d
      ≡ a * 2 ^ 24 + b * 2 ^ 16 + c * 2 ^ 8 + d
word_of a b c d ha hb hc hd =
    let high : u32 (a <<< 24) ≡ a <<< 24 = omega arith in rw high (or_bytes a b c d hb hc hd)

low_byte : (v : ℕ) → bit_and v 0xFF ≡ v % 256
low_byte v = bit_and-mask 8 v

pub word_at-word_bytes : (x : ℕ) (rest : List ℕ) → IsWord x → word_at (word_bytes x ++ rest) 0 ≡ x
unfolding word_at word_bytes
word_at-word_bytes x rest h =
    rw (low_byte (x / 2 ^ 24), low_byte (x / 2 ^ 16), low_byte (x / 2 ^ 8), low_byte x)
      (word_of (x / 2 ^ 24 % 256 % 256) (x / 2 ^ 16 % 256 % 256) (x / 2 ^ 8 % 256 % 256)
          (x % 256 % 256) (omega arith) (omega arith) (omega arith) (omega arith)
        ∙ omega arith)

-- The bytes of the word at `i` are the four bytes there.
pub word_bytes-word_at :
    (xs : List ℕ) (i : ℕ)
    → All IsByte xs
    → word_bytes (word_at xs i)
      ≡ get_or xs i 0 ∷ (get_or xs (i + 1) 0 ∷ (get_or xs (i + 2) 0 ∷ (get_or xs (i + 3) 0 ∷ [])))
unfolding word_at word_bytes
word_bytes-word_at xs i h =
    let get = get_or-below 256 xs h (omega arith) in
    let a = get_or xs i 0 in
    let b = get_or xs (i + 1) 0 in
    let c = get_or xs (i + 2) 0 in
    let d = get_or xs (i + 3) 0 in
    let ha : a < 256 = get i in
    let hb : b < 256 = get (i + 1) in
    let hc : c < 256 = get (i + 2) in
    let hd : d < 256 = get (i + 3) in
    let w = a * 2 ^ 24 + b * 2 ^ 16 + c * 2 ^ 8 + d in
    let e0 : w / 2 ^ 24 % 256 % 256 ≡ a = omega arith in
    let e1 : w / 2 ^ 16 % 256 % 256 ≡ b = omega arith in
    let e2 : w / 2 ^ 8 % 256 % 256 ≡ c = omega arith in
    let e3 : w % 256 % 256 ≡ d = omega arith in
    rw (
      word_of a b c d ha hb hc hd,
      low_byte (w / 2 ^ 24),
      low_byte (w / 2 ^ 16),
      low_byte (w / 2 ^ 8),
      low_byte w,
      e0,
      e1,
      e2,
      e3,
    )

word_at-IsWord : (xs : List ℕ) (i : ℕ) → All IsByte xs → IsWord (word_at xs i)
unfolding word_at
word_at-IsWord xs i h =
    let get = get_or-below 256 xs h (omega arith) in
    omega (
      arith,
      get i,
      get (i + 1),
      get (i + 2),
      get (i + 3),
      word_of (get_or xs i 0) (get_or xs (i + 1) 0) (get_or xs (i + 2) 0) (get_or xs (i + 3) 0)
          (get i) (get (i + 1)) (get (i + 2)) (get (i + 3)),
    )

pub read_block-AreWords : (block : List ℕ) → All IsByte block → AreWords (read_block block)
read_block-AreWords block h = record {
  fits0 = word_at-IsWord block 0 h;
  fits1 = word_at-IsWord block 4 h;
  fits2 = word_at-IsWord block 8 h;
  fits3 = word_at-IsWord block 12 h;
}

substitute-lt : (b : ℕ) → substitute b < 256
substitute-lt b = get_or-below 256 sbox (sbox-below sbox refl) (omega arith) b

pub tau-IsWord : (xs : List ℕ) → IsWord (tau xs)
unfolding tau
tau-IsWord xs =
    let s = λ (k : ℕ). substitute (get_or xs k 0) in
    omega (
      arith,
      or_bytes (s 0) (s 1) (s 2) (s 3) (substitute-lt (get_or xs 1 0))
          (substitute-lt (get_or xs 2 0)) (substitute-lt (get_or xs 3 0)),
      substitute-lt (get_or xs 0 0),
      substitute-lt (get_or xs 1 0),
      substitute-lt (get_or xs 2 0),
      substitute-lt (get_or xs 3 0),
    )

rotl32-IsWord : (x n : ℕ) → IsWord x → IsWord (rotl32 x n)
unfolding rotl32
rotl32-IsWord x n h =
    bit_or-lt 32 (u32 (x <<< n)) (x >>> (32 - n)) (mod-lt (x * 2 ^ n) (omega arith))
      (omega (arith, div-le_self x (2 ^ (32 - n))))

feistel-IsWord : (x : ℕ) → IsWord (feistel x)
unfolding feistel
feistel-IsWord x =
    let t = tau (word_bytes x) in
    let fits = tau-IsWord (word_bytes x) in
    bit_xor-lt 32 (bit_xor t (rotl32 t 13)) (rotl32 t 23)
      (bit_xor-lt 32 t (rotl32 t 13) fits (rotl32-IsWord t 13 fits)) (rotl32-IsWord t 23 fits)

-- Whatever the round keys are, the words stay words.
pub encrypt_rounds-AreWords :
    (rk : List ℕ) (n at : ℕ) (x : Words) → AreWords x → AreWords (encrypt_rounds rk n at x)
unfolding encrypt_rounds round
encrypt_rounds-AreWords rk zero at x h = h
encrypt_rounds-AreWords rk (suc n) at x h =
    encrypt_rounds-AreWords rk n (at + 1) (round (get_or rk at 0) x) record {
      fits0 = h.fits1;
      fits1 = h.fits2;
      fits2 = h.fits3;
      fits3 = bit_xor-lt 32 x.x0 _ h.fits0 (feistel-IsWord _);
    }
