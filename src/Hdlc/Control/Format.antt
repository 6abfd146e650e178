-- ===== src/Hdlc/Control/Format.antt =====
-- The frame format field of src/dlms/hdlc/frame.cpp, there and back.
use dlms_cosem_cpp.Base.{
  ℕ, ◌/◌, ◌%◌, ◌^◌, ◌<◌, ◌≡◌, refl, ◌∙◌, arith, Bool, true, false, not, ◌&&◌, ◌==◌, and_left,
  and_right, if◌then◌else◌, bit_and, bit_or, List, [], ◌∷◌, ◌++◌, length,
}
use dlms_cosem_cpp.Base.Bits.{◌<<<◌, ◌>>>◌, all_below, all_below→holds, bit_or-fields, bit_and-mask}
use dlms_cosem_cpp.Core.{ok}
use dlms_cosem_cpp.ByteBuffer.{ByteBuffer, advance, pure, read_u8, u16_bytes}
use dlms_cosem_cpp.ByteBuffer.View.{Left, Reads, Reads-bind, read_u8-Reads, pure-Reads}
use dlms_cosem_cpp.Hdlc.Control.{FrameFormat, format_of, format_word, read_format}

abbrev format_with : ℕ → Bool → FrameFormat
format_with n s = record { length = n; segmented = s }

-- The word keeps its mark, its length and its segmentation bit.
abbrev word_is : ℕ → ℕ → Bool → Bool
word_is w n s =
    w == w % 2 ^ 16
    && bit_and w 0xF000 == 0xA000
    && bit_and w 0x07FF == n
    && (if s then not (bit_and w 0x0800 == 0) else (bit_and w 0x0800 == 0))

word_comes_back : ℕ → Bool
unfolding format_word
word_comes_back n =
    word_is (format_word (format_with n true)) n true
    && word_is (format_word (format_with n false)) n false

words_come_back : all_below 2048 word_comes_back ≡ true
unfolding word_comes_back
words_come_back = refl

format_word_lem :
    (f : FrameFormat) → f.length < 2048 → word_is (format_word f) f.length f.segmented ≡ true
unfolding word_comes_back
format_word_lem f h = pick f.segmented
  where
    both : word_comes_back f.length ≡ true
    both = all_below→holds 2048 word_comes_back f.length words_come_back h

    pick : (s : Bool) → word_is (format_word (format_with f.length s)) f.length s ≡ true
    pick true = and_left _ (word_is (format_word (format_with f.length false)) f.length false) both
    pick false = and_right (word_is (format_word (format_with f.length true)) f.length true) _ both

format_of_word :
    (w : ℕ) (f : FrameFormat)
    → word_is w f.length f.segmented ≡ true
    → format_of (bit_and (w >>> 8) 0xFF) (bit_and w 0xFF) ≡ pure f
format_of_word w f h =
    let small : w < 2 ^ 16 = ground (arith, h) in
    let joined : bit_or (bit_and (w >>> 8) 0xFF <<< 8) (bit_and w 0xFF) ≡ w =
      rw (bit_and-mask 8 (w / 2 ^ 8), bit_and-mask 8 w)
        (bit_or-fields 8 (w / 2 ^ 8 % 256) (w % 256) (omega arith) ∙ omega arith) in
    let marked : (bit_and w 0xF000 == 0xA000) ≡ true = ground (arith, h) in
    let size : bit_and w 0x07FF ≡ f.length = ground (arith, h) in
    let segments : not (bit_and w 0x0800 == 0) ≡ f.segmented = ground (arith, h) in
    rw (joined, marked, size, segments)

pub read_format-Reads :
    (f : FrameFormat) → f.length < 2048 → Reads read_format (u16_bytes (format_word f)) f
unfolding read_format u16_bytes
read_format-Reads f h =
    let w = format_word f in
    let b0 = bit_and (w >>> 8) 0xFF in
    let b1 = bit_and w 0xFF in
    Reads-bind read_u8 _ (b0 ∷ []) (b1 ∷ []) b0 f (read_u8-Reads b0) (
      Reads-bind read_u8 (format_of b0) (b1 ∷ []) [] b1 f (read_u8-Reads b1)
        (rw (format_of_word w f (format_word_lem f h)) (pure-Reads f)))

-- A format of a length below 2048, written as the next two bytes, is read back.
pub read_format-written :
    (f : FrameFormat) (b : ByteBuffer) (tail : List ℕ)
    → f.length < 2048
    → Left b (u16_bytes (format_word f) ++ tail)
    → read_format b ≡ (ok f, advance (length (u16_bytes (format_word f))) b)
read_format-written f b tail h left = read_format-Reads f h b tail left
