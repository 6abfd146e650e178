-- ===== src/Security/Laws.antt =====
-- src/dlms/security/security.cpp and include/dlms/security/security.hpp: the control field on the
-- wire, and the initialisation vectors.
use dlms_cosem_cpp.Base.{
  same, same→equal, all_bools, all_bools→holds, ℕ, ◌/◌, ◌%◌, ◌^◌, ◌<◌, ◌≡◌, refl, sym, ap, ◌∙◌,
  arith, Bool, true, ◌&&◌, ◌==◌, ==_iff, and_left, and_right, List, [], length, get_or, take, drop,
  take-append, drop-append, ap₂, bit_and,
}
use dlms_cosem_cpp.Base.Bits.{bit_and-mask, all_below, all_below→holds}
use dlms_cosem_cpp.Security.{Cipher, gmac, SecurityControlField, from_bytes, to_byte, make_iv}

-- Every byte is written back as it was read.
pub to_byte-from_bytes : (b : ℕ) → b < 256 → to_byte (from_bytes b) ≡ b
unfolding to_byte from_bytes
to_byte-from_bytes b h =
    (==_iff (to_byte (from_bytes b)) b).0
      (all_below→holds 256 (λ x. to_byte (from_bytes x) == x) b refl h)

abbrev field : ℕ → Bool → Bool → Bool → Bool → SecurityControlField
field s a e k c = record {
  security_suite = s;
  authenticated = a;
  encrypted = e;
  broadcast_key = k;
  compressed = c;
}

abbrev read_back : ℕ → Bool → Bool → Bool → Bool → Bool
read_back s a e k c =
    let sc = from_bytes (to_byte (field s a e k c)) in
    sc.security_suite == s
    && (same sc.authenticated a
        && (same sc.encrypted e && (same sc.broadcast_key k && same sc.compressed c)))

abbrev suite_read_back : ℕ → Bool
suite_read_back s = all_bools λ a. all_bools λ e. all_bools λ k. all_bools λ c. read_back s a e k c

table : all_below 16 suite_read_back ≡ true
unfolding to_byte from_bytes
table = refl

same_fields :
    (x y : SecurityControlField)
    → x.security_suite ≡ y.security_suite
    → x.authenticated ≡ y.authenticated
    → x.encrypted ≡ y.encrypted
    → x.broadcast_key ≡ y.broadcast_key
    → x.compressed ≡ y.compressed
    → x ≡ y
same_fields x y s a e k c = λ i. record {
  security_suite = s i;
  authenticated = a i;
  encrypted = e i;
  broadcast_key = k i;
  compressed = c i;
}

-- A field with a suite of four bits is read back as it was written.
pub from_bytes-to_byte :
    (sc : SecurityControlField) → sc.security_suite < 16 → from_bytes (to_byte sc) ≡ sc
from_bytes-to_byte sc h =
    let s = sc.security_suite in
    let a = sc.authenticated in
    let e = sc.encrypted in
    let k = sc.broadcast_key in
    let c = sc.compressed in
    let suite_holds = all_below→holds 16 suite_read_back s table h in
    let a_holds =
      all_bools→holds (λ x. all_bools λ y. all_bools λ z. all_bools λ w. read_back s x y z w) a
        suite_holds in
    let e_holds =
      all_bools→holds (λ y. all_bools λ z. all_bools λ w. read_back s a y z w) e a_holds in
    let k_holds = all_bools→holds (λ z. all_bools λ w. read_back s a e z w) k e_holds in
    let holds : read_back s a e k c ≡ true = all_bools→holds (read_back s a e k) c k_holds in
    let from_a = and_right _ _ holds in
    let from_e = and_right _ _ from_a in
    let from_k = and_right _ _ from_e in
    let back = from_bytes (to_byte sc) in
    same_fields back sc ((==_iff back.security_suite s).0 (and_left _ _ holds))
      (same→equal _ _ (and_left _ _ from_a)) (same→equal _ _ (and_left _ _ from_e))
      (same→equal _ _ (and_left _ _ from_k)) (same→equal _ _ (and_right _ _ from_k))

low_byte : (v : ℕ) → bit_and v 0xFF ≡ v % 256
low_byte v = bit_and-mask 8 v

-- Messages of one station under different counters have different initialisation vectors: equal
-- vectors come of equal counters, where the titles are of one length.
pub make_iv-injective :
    (title title' : List ℕ) (ic ic' : ℕ)
    → length title ≡ length title'
    → ic < 2 ^ 32
    → ic' < 2 ^ 32
    → make_iv title ic ≡ make_iv title' ic'
    → (title ≡ title') × (ic ≡ ic')
unfolding make_iv
make_iv-injective title title' ic ic' same_length h h' e = (titles, counters)
  where
    titles : title ≡ title'
    titles = sym (take-append title _) ∙ ap₂ take same_length e ∙ take-append title' _

    ends : drop (length title) (make_iv title ic) ≡ drop (length title') (make_iv title' ic')
    ends = ap₂ drop same_length e

    bytes : (i : ℕ) → get_or (make_iv [] ic) i 0 ≡ get_or (make_iv [] ic') i 0
    bytes i =
        ap (λ (t : List ℕ). get_or t i 0) (sym (drop-append title _) ∙ ends ∙ drop-append title' _)

    counters : ic ≡ ic'
    counters = omega (
      arith,
      bytes 0,
      bytes 1,
      bytes 2,
      bytes 3,
      low_byte (ic / 2 ^ 24),
      low_byte (ic / 2 ^ 16),
      low_byte (ic / 2 ^ 8),
      low_byte ic,
      low_byte (ic' / 2 ^ 24),
      low_byte (ic' / 2 ^ 16),
      low_byte (ic' / 2 ^ 8),
      low_byte ic',
    )

-- The bytes that `gmac` gives do not depend on the challenge, under any cipher.
pub gmac-challenge_free :
    (cipher : Cipher) (sc : SecurityControlField) (title : List ℕ) (ic : ℕ)
    (key auth_key challenge challenge' : List ℕ)
    → gmac cipher sc title ic key auth_key challenge
      ≡ gmac cipher sc title ic key auth_key challenge'
unfolding gmac
gmac-challenge_free cipher sc title ic key auth_key challenge challenge' = refl
