-- ===== src/Hdlc/Address/Laws.antt =====
-- Which addresses survive `to_bytes` and `parse` of src/dlms/hdlc/address.cpp.
use dlms_cosem_cpp.Base.{
  ℕ, ◌+◌, ◌*◌, ◌^◌, ◌/◌, ◌%◌, ◌≤◌, ◌<◌, ◌≡◌, ◌≢◌, ap, ◌∙◌, arith, bit_or, not, ◌==◌, if◌then◌else◌,
  [], ◌∷◌, ◌++◌, Option, none, some,
}
use dlms_cosem_cpp.Base.Bits.{◌<<<◌, bit_or-fields, bit_and-mask, bit_or_comm}
use dlms_cosem_cpp.Hdlc.Address.{
  AddressType, client, server, HdlcAddress, high_group, low_group, low_group_last, seven_bits,
  is_end, two_groups, address_bytes, parse_server, to_bytes, parse,
}

-- The groups and the marks as arithmetic.
high_group_lem : (a : ℕ) → high_group a ≡ a / 128 % 256
high_group_lem a = bit_and-mask 8 (a / 128)

low_group_lem : (a : ℕ) → low_group a ≡ a % 128 * 2
low_group_lem a = rw (bit_and-mask 7 a)

low_group_last_lem : (a : ℕ) → low_group_last a ≡ a % 128 * 2 + 1
low_group_last_lem a = rw (bit_and-mask 7 a) (bit_or-fields 1 (a % 128) 1 (omega arith))

seven_bits_lem : (b : ℕ) → seven_bits b ≡ b / 2 % 128
seven_bits_lem b = bit_and-mask 7 (b / 2)

is_end_lem : (b : ℕ) → is_end b ≡ not (b % 2 == 0)
is_end_lem b = rw (bit_and-mask 1 b)

join_groups : (a b : ℕ) → a < 128 → bit_or a (b <<< 7) ≡ a + 128 * b
join_groups a b h = bit_or_comm a (b <<< 7) ∙ bit_or-fields 7 b a (omega arith) ∙ omega arith

-- Two bytes: one address of fourteen bits, or one of seven if the first is marked as the last.
parse_two :
    (x y : ℕ)
    → parse_server (x ∷ (y ∷ []))
      ≡ (if x % 2 == 0 then (x / 2 % 128 + 128 * (y / 2 % 128), none) else (x / 2 % 128, none))
parse_two x y = ground (
  arith,
  is_end_lem x,
  seven_bits_lem x,
  seven_bits_lem y,
  join_groups (seven_bits x) (seven_bits y),
)

-- A short address of either type is the one byte 2 * logical + 1.
pub to_bytes_short :
    (a : HdlcAddress) → a.physical ≡ none → a.logical < 128 → to_bytes a ≡ (2 * a.logical + 1) ∷ []
unfolding to_bytes
to_bytes_short a e h = short a.type
  where
    short : (t : AddressType) → address_bytes t a.logical a.physical ≡ (2 * a.logical + 1) ∷ []
    short client =
        ap (λ (x : ℕ). x ∷ []) (rw (bit_or-fields 1 a.logical 1 (omega arith)) (omega arith))
    short server = rw (e, high_group_lem, low_group_last_lem) (ground arith)

-- Parsed as any type, that byte gives the logical address back.
pub parse_short :
    (l : ℕ) (t : AddressType)
    → l < 128
    → parse ((2 * l + 1) ∷ []) t ≡ record { logical = l; physical = none; type = t }
unfolding parse
parse_short l client h = let e : (2 * l + 1) / 2 ≡ l = omega arith in rw e
parse_short l server h = let e : (2 * l + 1) / 2 % 128 ≡ l = omega arith in rw (seven_bits_lem, e)

-- A server address with a physical part, both parts below 128, is read as one logical address that
-- holds both, and the physical part is lost.
pub parse-to_bytes_physical :
    (l p : ℕ)
    → l < 128
    → p < 128
    → parse (to_bytes (record { logical = l; physical = some p; type = server })) server
      ≡ record { logical = l + 128 * p; physical = none; type = server }
unfolding to_bytes parse
parse-to_bytes_physical l p hl hp =
    let made : two_groups (high_group l) (low_group l)
          ++ two_groups (high_group p) (low_group_last p)
        ≡ (l * 2) ∷ ((p * 2 + 1) ∷ []) =
      ground (arith, high_group_lem l, high_group_lem p, low_group_lem l, low_group_last_lem p) in
    let read : parse_server ((l * 2) ∷ ((p * 2 + 1) ∷ [])) ≡ (l + 128 * p, none) =
      parse_two (l * 2) (p * 2 + 1) ∙ ground arith in
    ap (λ (r : ℕ × Option ℕ). record { logical = r.0; physical = r.1; type = server })
      (ap parse_server made ∙ read)

-- No server address from 128 on, up to 2 ^ 15, comes back.
pub parse-to_bytes_long :
    (l : ℕ)
    → 128 ≤ l
    → l < 2 ^ 15
    → (parse (to_bytes (record { logical = l; physical = none; type = server })) server).logical ≢ l
unfolding to_bytes parse
parse-to_bytes_long l h h' e =
    let made : two_groups (high_group l) (low_group_last l) ≡ (l / 128) ∷ ((l % 128 * 2 + 1) ∷ []) =
      ground (arith, high_group_lem l, low_group_last_lem l) in
    let read = ap parse_server made ∙ parse_two (l / 128) (l % 128 * 2 + 1) in
    ground (arith, ap (λ (r : ℕ × Option ℕ). r.0) read)
