-- ===== src/TableMeta/Copied.antt =====
-- The second loop of Table::make_record: what stands in front of a field.
use oceanbase.Base.{ℕ, ◌+◌, ◌<◌, ◌≡◌, inl, refl, ap, ◌∙◌, List, [], ◌∷◌, arith}
use oceanbase.Base.Memory.{Memory, memcpy, memcpy_outside}
use oceanbase.TableMeta.{AttrInfo, FieldMeta, Value, TextFile, source_of, text_after, copy_values}
use oceanbase.TableMeta.Layout.{AreLaid}

-- The bytes in front of the fields stay.
pub copy_values-before :
    (garbage r : Memory) (t : TextFile) (offset : ℕ) (attributes : List AttrInfo)
    (fields : List FieldMeta) (vs : List Value) (end k : ℕ)
    → AreLaid offset attributes fields end
    → k < offset
    → (copy_values garbage r t fields vs).0 k ≡ r k
unfolding copy_values AreLaid
copy_values-before garbage r t offset [] [] vs end k l h = refl
copy_values-before garbage r t offset [] (f ∷ fields) vs end k l h = absurd l
copy_values-before garbage r t offset (a ∷ more) [] vs end k l h = absurd l
copy_values-before garbage r t offset (a ∷ more) (f ∷ fields) [] end k l h = refl
copy_values-before garbage r t offset (a ∷ more) (f ∷ fields) (v ∷ vs) end k (e, g, l) h =
    let at : f.attr_offset ≡ offset = ap (λ x. x.attr_offset) e in
    copy_values-before garbage (memcpy r f.attr_offset (source_of garbage t f v) f.attr_len)
      (text_after t f v) (offset + f.attr_len) more fields vs end k l (omega arith)
    ∙ memcpy_outside r f.attr_offset (source_of garbage t f v) f.attr_len k (inl (omega arith))
