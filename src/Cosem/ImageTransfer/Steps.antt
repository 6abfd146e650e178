-- ===== src/Cosem/ImageTransfer/Steps.antt =====
-- include/dlms/cosem/image_transfer.hpp: the states that the methods of a transfer lead to.
use dlms_cosem_cpp.Base.{
  ℕ, ◌≤◌, ◌≡◌, refl, sym, ap, arith, Bool, true, false, List, [], length, leb, Bool-cases, inl, inr,
  ◌+◌, ◌++◌, length-append, append-nil, append_assoc, ◌⊎◌, ◌∷◌, ◌<◌, ◌∙◌,
}
use native.Mathlib.Decide.{dec_le}
use dlms_cosem_cpp.Base.Bits.{u32}
use dlms_cosem_cpp.Cosem.ImageTransfer.{
  ImageTransferStatus, initiated, verification_successful, activation_successful, ImageTransfer,
  new_transfer, initiate, is_initiated, transfer_block, verify, activated, activate,
}

gt→leb : (a b : ℕ) → b < a → leb a b ≡ false
gt→leb a b h = ground arith

pub data Method : Type 0 where
  do_initiate : List ℕ → ℕ → Method
  do_transfer_block : ℕ → List ℕ → Method
  do_verify : Method
  do_activate : Method

abbrev pub call : Method → ImageTransfer → ImageTransfer
call (do_initiate identifier size) o = (initiate identifier size o).1
call (do_transfer_block index block) o = (transfer_block index block o).1
call do_verify o = (verify o).1
call do_activate o = (activate o).1

-- The transfers that calls of the methods lead to, from a new one on.
pub data Reached (ln : List ℕ) : ImageTransfer → Type 0 where
  at_start : Reached ln (new_transfer ln)
  then_call : (o : ImageTransfer) (m : Method) → Reached ln o → Reached ln (call m o)

-- The status says that the whole image is there.
abbrev pub is_complete : ImageTransferStatus → Bool
is_complete verification_successful = true
is_complete activation_successful = true
is_complete _ = false

-- A transfer that is verified or activated holds at least as many bytes as its size says.
abbrev pub HoldsImage : ImageTransfer → Type 0
HoldsImage o = (is_complete o.status ≡ false) ⊎ (o.image_size ≤ length o.image_data)

block-HoldsImage :
    (index : ℕ) (block : List ℕ) (o : ImageTransfer)
    → HoldsImage o
    → HoldsImage (transfer_block index block o).1
unfolding transfer_block
block-HoldsImage index block o h = elim (Bool-cases (is_initiated o.status)) [
  | inl e ↦ rw e (longer h)
  | inr e ↦ rw e h
]
  where
    longer :
        HoldsImage o
        → HoldsImage (record o {
          image_data = o.image_data ++ block;
          transferred_blocks = u32 (o.transferred_blocks + 1);
        })
    longer (inl e) = inl e
    longer (inr e) = inr (omega (arith, length-append o.image_data block))

verify-HoldsImage : (o : ImageTransfer) → HoldsImage (verify o).1
unfolding verify
verify-HoldsImage o = elim (dec_le o.image_size (length o.image_data)) [
  | yes h ↦ inr h
  | no h ↦ inl (rw (gt→leb o.image_size (length o.image_data) (omega arith)) refl)
]

activate-HoldsImage : (o : ImageTransfer) → HoldsImage o → HoldsImage (activate o).1
unfolding activate
activate-HoldsImage o (inr h) = inr h
activate-HoldsImage o (inl e) = inl (kept o.status e)
  where
    kept : (s : ImageTransferStatus) → is_complete s ≡ false → is_complete (activated s) ≡ false
    kept verification_successful e = cc
    kept _ e = refl

call-HoldsImage : (m : Method) (o : ImageTransfer) → HoldsImage o → HoldsImage (call m o)
unfolding initiate
call-HoldsImage (do_initiate identifier size) o h = inl refl
call-HoldsImage (do_transfer_block index block) o h = block-HoldsImage index block o h
call-HoldsImage do_verify o h = verify-HoldsImage o
call-HoldsImage do_activate o h = activate-HoldsImage o h

Reached-HoldsImage : (ln : List ℕ) (o : ImageTransfer) → Reached ln o → HoldsImage o
unfolding new_transfer
Reached-HoldsImage ln _ at_start = inl refl
Reached-HoldsImage ln _ (then_call o m r) = call-HoldsImage m o (Reached-HoldsImage ln o r)

-- After any calls of the four methods in any order, a transfer whose status says that the image was
-- activated holds at least as many bytes as the size that the transfer was initiated with.
pub activated_complete :
    (ln : List ℕ) (o : ImageTransfer)
    → Reached ln o
    → o.status ≡ activation_successful
    → o.image_size ≤ length o.image_data
activated_complete ln o r e = pick (Reached-HoldsImage ln o r)
  where
    pick : HoldsImage o → o.image_size ≤ length o.image_data
    pick (inr h) = h
    pick (inl f) = let g : true ≡ false = rw e at f in cc

-- The blocks of an image, sent with the indices from `n` on.
unfoldable pub transfer_blocks : ℕ → List (List ℕ) → ImageTransfer → ImageTransfer
transfer_blocks n [] o = o
transfer_blocks n (b ∷ bs) o = transfer_blocks (n + 1) bs (transfer_block n b o).1

abbrev pub joined : List (List ℕ) → List ℕ
joined [] = []
joined (b ∷ bs) = b ++ joined bs

block-initiated :
    (n : ℕ) (b : List ℕ) (o : ImageTransfer)
    → o.status ≡ initiated
    → (transfer_block n b o).1 ≡ record o {
      image_data = o.image_data ++ b;
      transferred_blocks = u32 (o.transferred_blocks + 1);
    }
unfolding transfer_block
block-initiated n b o e =
    let taken : is_initiated o.status ≡ true = ap is_initiated e in rw taken refl

-- While a transfer is initiated, its data are the blocks in the order in which they were sent, and
-- it stays initiated, so that verification asks whether they make up the size.
pub transfer_blocks-joined :
    (bs : List (List ℕ)) (n : ℕ) (o : ImageTransfer)
    → o.status ≡ initiated
    → ((transfer_blocks n bs o).image_data ≡ o.image_data ++ joined bs)
      × ((transfer_blocks n bs o).status ≡ initiated)
      × ((transfer_blocks n bs o).image_size ≡ o.image_size)
unfolding transfer_blocks
transfer_blocks-joined [] n o e = (sym (append-nil o.image_data), e, refl)
transfer_blocks-joined (b ∷ bs) n o e =
    let next : ImageTransfer = record o {
      image_data = o.image_data ++ b;
      transferred_blocks = u32 (o.transferred_blocks + 1);
    } in
    let rest = transfer_blocks-joined bs (n + 1) next e in
    rw (block-initiated n b o e, transfer_blocks)
      (rest.0 ∙ append_assoc o.image_data b (joined bs), rest.1, rest.2)
