-- ===== src/Sm4/Inverse.antt =====
-- src/dlms/security/sm4.cpp: `decrypt_block` on a block that `encrypt_block` made.
use dlms_cosem_cpp.Base.{
  ℕ, zero, suc, ◌+◌, ◌≤◌, ◌≡◌, refl, sym, ap, ◌∙◌, arith, List, [], ◌∷◌, ◌++◌, length, get_or, drop,
  get_or-drop, append-nil, All,
}
use dlms_cosem_cpp.Base.Bits.{IsByte}
use dlms_cosem_cpp.Sm4.Block.{
  Words, word_bytes, word_at, read_block, write_block, encrypt_rounds, decrypt_rounds,
  encrypt_block, decrypt_block,
}
use dlms_cosem_cpp.Sm4.Words.{
  AreWords, word_at-word_bytes, word_bytes-word_at, read_block-AreWords, encrypt_rounds-AreWords,
}
use dlms_cosem_cpp.Sm4.Rounds.{reversed, decrypt_rounds-encrypt_rounds}

-- The words are read in the opposite order from the one they are written in.
read_block-write_block : (x : Words) → AreWords x → read_block (write_block x) ≡ reversed x
unfolding word_at word_bytes
read_block-write_block x h = rw (
  word_at-word_bytes x.x3 [] h.fits3,
  word_at-word_bytes x.x2 [] h.fits2,
  word_at-word_bytes x.x1 [] h.fits1,
  word_at-word_bytes x.x0 [] h.fits0,
)

-- The four bytes from index `i` on.
abbrev four_at : List ℕ → ℕ → List ℕ
four_at xs i =
    get_or xs i 0 ∷ (get_or xs (i + 1) 0 ∷ (get_or xs (i + 2) 0 ∷ (get_or xs (i + 3) 0 ∷ [])))

four_at-drop :
    (n k : ℕ) (xs : List ℕ) → n + 4 ≤ length xs → k ≡ n + 4 → four_at xs n ++ drop k xs ≡ drop n xs
four_at-drop (suc n) zero xs h e = absurd (omega arith)
four_at-drop (suc n) (suc k) [] h e = absurd (omega arith)
four_at-drop (suc n) (suc k) (x ∷ xs) h e =
    let behind = λ (i : ℕ). get_or-drop 1 (n + i) (suc n + i) (x ∷ xs) 0 (omega arith) in
    rw (behind 1, behind 2, behind 3) (four_at-drop n k xs (omega arith) (omega arith))
four_at-drop zero k [] h e = absurd (omega arith)
four_at-drop zero k (a ∷ []) h e = absurd (omega arith)
four_at-drop zero k (a ∷ (b ∷ [])) h e = absurd (omega arith)
four_at-drop zero k (a ∷ (b ∷ (c ∷ []))) h e = absurd (omega arith)
four_at-drop zero k (a ∷ (b ∷ (c ∷ (d ∷ xs)))) h e =
    ap (λ (m : ℕ). a ∷ (b ∷ (c ∷ (d ∷ drop m (a ∷ (b ∷ (c ∷ (d ∷ xs)))))))) e

drop-all : (n : ℕ) (xs : List ℕ) → length xs ≤ n → drop n xs ≡ []
drop-all zero [] h = refl
drop-all zero (x ∷ xs) h = absurd (omega arith)
drop-all (suc n) [] h = refl
drop-all (suc n) (x ∷ xs) h = drop-all n xs (omega arith)

sixteen :
    (xs : List ℕ)
    → length xs ≡ 16
    → four_at xs 0 ++ (four_at xs 4 ++ (four_at xs 8 ++ four_at xs 12)) ≡ xs
sixteen xs h =
    let end =
      sym (append-nil (four_at xs 12))
      ∙ ap (λ (t : List ℕ). four_at xs 12 ++ t) (sym (drop-all 16 xs (omega arith)))
      ∙ four_at-drop 12 16 xs (omega arith) refl in
    rw end (
      rw (four_at-drop 8 12 xs (omega arith) refl)
        (rw (four_at-drop 4 8 xs (omega arith) refl) (four_at-drop 0 4 xs (omega arith) refl)))

-- Decrypting an encrypted block of sixteen bytes gives the block, whatever the round keys are.
pub decrypt_block-encrypt_block :
    (rk block : List ℕ)
    → length block ≡ 16
    → All IsByte block
    → decrypt_block rk (encrypt_block rk block) ≡ block
unfolding encrypt_block decrypt_block
decrypt_block-encrypt_block rk block size bytes =
    let x = read_block block in
    let y = encrypt_rounds rk 32 0 x in
    let fits = encrypt_rounds-AreWords rk 32 0 x (read_block-AreWords block bytes) in
    ap (λ (w : Words). write_block (decrypt_rounds rk 32 0 w)) (read_block-write_block y fits)
    ∙ ap write_block (decrypt_rounds-encrypt_rounds rk 32 0 x (omega arith))
    ∙ rw
        (
          word_bytes-word_at block 0 bytes,
          word_bytes-word_at block 4 bytes,
          word_bytes-word_at block 8 bytes,
          word_bytes-word_at block 12 bytes,
        )
        (sixteen block size)
