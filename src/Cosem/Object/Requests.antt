-- ===== src/Cosem/Object/Requests.antt =====
-- Sequences of set requests to a COSEM object, for any class that is a store of attributes.
use dlms_cosem_cpp.Base.{ℕ, ◌≡◌, ◌≢◌, refl, sym, ap, ap₂, ◌∙◌, List, [], ◌∷◌, map, arith}
use dlms_cosem_cpp.Core.{Result}
use dlms_cosem_cpp.Axdr.Value.{DlmsValue}
use dlms_cosem_cpp.Cosem.Object.{CosemClass}
use dlms_cosem_cpp.Cosem.Object.Store.{Cell, IsAttributeStore, answer, cell_of, reads_after}

module _ {ℓ} {S : Type ℓ} (c : CosemClass S) where
  -- The object after the requests, one after the other.
  unfoldable pub requests : List (ℕ × DlmsValue) → S → S
  requests [] o = o
  requests ((id, v) ∷ rs) o = requests rs (c.set_attribute o id v).1

  unfoldable pub answers_to : List (ℕ × DlmsValue) → S → List (Result (Unit {0}))
  answers_to [] o = []
  answers_to ((id, v) ∷ rs) o =
      (c.set_attribute o id v).0 ∷ answers_to rs (c.set_attribute o id v).1

unfoldable pub reads_after_all :
    List (ℕ × Cell) → List (ℕ × DlmsValue) → ℕ → Result DlmsValue → Result DlmsValue
reads_after_all t [] id old = old
reads_after_all t ((written, v) ∷ rs) id old =
    reads_after_all t rs id (reads_after t written v id old)

reads_after_other :
    (t : List (ℕ × Cell)) (a b : ℕ) (v w : DlmsValue) (id : ℕ) (old : Result DlmsValue)
    → a ≢ b
    → reads_after t b w id (reads_after t a v id old)
      ≡ reads_after t a v id (reads_after t b w id old)
unfolding reads_after
reads_after_other t a b v w id old h = ground arith

module _ {ℓ} {S : Type ℓ} {c : CosemClass S} {t : List (ℕ × Cell)} {unread : List ℕ}
    (store : IsAttributeStore c t unread) where
  pub requests-read :
      (rs : List (ℕ × DlmsValue)) (o : S) (id : ℕ)
      → c.get_attribute (requests c rs o) id ≡ reads_after_all t rs id (c.get_attribute o id)
  unfolding requests reads_after_all
  requests-read [] o id = refl
  requests-read ((written, v) ∷ rs) o id =
      requests-read rs (c.set_attribute o written v).1 id
      ∙ ap (λ r. reads_after_all t rs id r) (store.stores o written v id)

  pub requests-answered :
      (rs : List (ℕ × DlmsValue)) (o : S)
      → answers_to c rs o ≡ map (λ r. answer (cell_of t r.0) r.1) rs
  unfolding answers_to
  requests-answered [] o = refl
  requests-answered ((id, v) ∷ rs) o =
      ap₂ (λ r rest. r ∷ rest) (store.answers o id v)
        (requests-answered rs (c.set_attribute o id v).1)

  pub requests_commute :
      (o : S) (a b : ℕ) (v w : DlmsValue) (id : ℕ)
      → a ≢ b
      → c.get_attribute (requests c ((a, v) ∷ (b, w) ∷ []) o) id
        ≡ c.get_attribute (requests c ((b, w) ∷ (a, v) ∷ []) o) id
  unfolding reads_after_all
  requests_commute o a b v w id h =
      requests-read ((a, v) ∷ (b, w) ∷ []) o id
      ∙ reads_after_other t a b v w id (c.get_attribute o id) h
      ∙ sym (requests-read ((b, w) ∷ (a, v) ∷ []) o id)
