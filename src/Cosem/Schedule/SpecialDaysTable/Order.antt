-- ===== src/Cosem/Schedule/SpecialDaysTable/Order.antt =====
-- include/dlms/cosem/special_days_table.hpp: execute_insert against execute_delete.
use dlms_cosem_cpp.Base.{
  ℕ, zero, suc, ◌+◌, ◌≤◌, ◌≡◌, refl, ap, some, true, List, [], ◌∷◌, length, leb, ltb, arith,
}
use dlms_cosem_cpp.Core.{ok}
use dlms_cosem_cpp.Cosem.Object.{erase, insert}
use dlms_cosem_cpp.Cosem.Schedule.SpecialDaysTable.{
  SpecialDaysTable, entry, entry_count, execute_insert, execute_delete,
}

module _ {ℓ} {A : Type ℓ} where
  erase-insert : (i : ℕ) (x : A) (xs : List A) → erase i (insert i x xs) ≡ xs
  erase-insert zero x xs = refl
  erase-insert (suc i) x [] = refl
  erase-insert (suc i) x (y ∷ ys) = ap (λ t. y ∷ t) (erase-insert i x ys)

  length-insert :
      (i : ℕ) (x : A) (xs : List A) → i ≤ length xs → length (insert i x xs) ≡ length xs + 1
  length-insert zero x xs h = omega arith
  length-insert (suc i) x [] h = absurd (omega arith)
  length-insert (suc i) x (y ∷ ys) h = omega (arith, length-insert i x ys (omega arith))

-- A day that is inserted inside the table or at its end makes the table one day longer, and deleting
-- under the same index gives the table as it was.
pub execute_delete-execute_insert :
    (index : ℕ) (date : List ℕ) (day_id : ℕ) (o : SpecialDaysTable)
    → index ≤ entry_count o
    → let o' : SpecialDaysTable = record o {
      entries = insert index (entry index date day_id) o.entries;
    } in
      (execute_insert index date day_id o ≡ some (ok [], o'))
      × (entry_count o' ≡ entry_count o + 1)
      × (execute_delete index o' ≡ (ok [], o))
unfolding execute_insert execute_delete entry_count
execute_delete-execute_insert index date day_id o h =
    let x = entry index date day_id in
    let longer = length-insert index x o.entries h in
    let inside : leb index (length o.entries) ≡ true = ground arith in
    let inside' : ltb index (length (insert index x o.entries)) ≡ true = ground arith in
    (rw inside refl, longer, rw (inside', erase-insert index x o.entries) refl)
