-- ===== src/TableMeta/Texts.antt =====
-- Table::make_record: a TEXTS field holds the place of its text in the text file of the table.
use oceanbase.Base.{
  ℕ, ◌+◌, ◌^◌, ◌-◌, ◌<◌, ◌≤◌, ◌≡◌, inl, inr, refl, ap, ◌∙◌, true, List, [], ◌∷◌, arith, Bool-cases,
}
use oceanbase.Base.Memory.{Memory, memcpy, load, load-ext, memcpy_inside, memcpy_outside}
use oceanbase.BufferPool.{read32, write32}
use oceanbase.Filter.{texts}
use oceanbase.TableMeta.{
  FieldMeta, AttrInfo, Value, TextFile, same_type, append_text, text_offset, source_of, text_after,
  copy_values,
}
use oceanbase.TableMeta.Copied.{copy_values-before}
use oceanbase.TableMeta.Layout.{AreLaid}

-- A TEXTS field of four bytes, for which the offset fits, holds the size that the file had, and there
-- the text stands.
unfoldable pub AreTexts : Memory → Memory → TextFile → List FieldMeta → List Value → Type 0
AreTexts r bytes t [] vs = true ≡ true
AreTexts r bytes t (f ∷ fields) [] = true ≡ true
AreTexts r bytes t (f ∷ fields) (v ∷ vs) =
    (same_type f.attr_type texts ≡ true
      → f.attr_len ≡ 4
      → t.size < 2 ^ 32 - 1
      → (read32 r f.attr_offset ≡ t.size) × (load bytes t.size 4096 ≡ load v.content 0 4096))
    × AreTexts r bytes (text_after t f v) fields vs

read32-write32 : (m : Memory) (v : ℕ) → v < 2 ^ 32 → read32 (write32 m 0 v) 0 ≡ v
unfolding write32
read32-write32 m v h = omega arith

-- The text file only grows.
size-text_after : (t : TextFile) (f : FieldMeta) (v : Value) → t.size ≤ (text_after t f v).size
size-text_after t f v = elim (Bool-cases (same_type f.attr_type texts)) [
  | inl e ↦ rw e (omega arith)
  | inr e ↦ rw e (omega arith)
]

text_after-before :
    (t : TextFile) (f : FieldMeta) (v : Value) (k : ℕ)
    → k < t.size
    → (text_after t f v).bytes k ≡ t.bytes k
text_after-before t f v k h = elim (Bool-cases (same_type f.attr_type texts)) [
  | inl e ↦ rw e (memcpy_outside t.bytes t.size v.content 4096 k (inl h))
  | inr e ↦ rw e refl
]

copy_values-text_before :
    (garbage r : Memory) (t : TextFile) (fields : List FieldMeta) (vs : List Value) (k : ℕ)
    → k < t.size
    → (copy_values garbage r t fields vs).1.bytes k ≡ t.bytes k
unfolding copy_values
copy_values-text_before garbage r t [] vs k h = refl
copy_values-text_before garbage r t (f ∷ fields) [] k h = refl
copy_values-text_before garbage r t (f ∷ fields) (v ∷ vs) k h =
    let grown = size-text_after t f v in
    copy_values-text_before garbage (memcpy r f.attr_offset (source_of garbage t f v) f.attr_len)
      (text_after t f v) fields vs k (omega arith)
    ∙ text_after-before t f v k h

text_offset_lem : (t : TextFile) → t.size < 2 ^ 32 - 1 → text_offset t ≡ t.size
text_offset_lem t h = ground arith

read32-ext :
    (m m' : Memory) (a b : ℕ)
    → ((k : ℕ) → k < 4 → m (a + k) ≡ m' (b + k))
    → read32 m a ≡ read32 m' b
read32-ext m m' a b h =
    let at : m a ≡ m' b = ap m (omega arith) ∙ h 0 (omega arith) ∙ ap m' (omega arith) in
    let next : m (a + 1) ≡ m' (b + 1) = h 1 (omega arith) in
    let third : m (a + 2) ≡ m' (b + 2) = h 2 (omega arith) in
    let last : m (a + 3) ≡ m' (b + 3) = h 3 (omega arith) in omega arith

zero_add : (k : ℕ) → k ≡ 0 + k
zero_add k = omega arith

text_source :
    (garbage : Memory) (t : TextFile) (f : FieldMeta) (v : Value)
    → same_type f.attr_type texts ≡ true
    → source_of garbage t f v ≡ write32 garbage 0 (text_offset t)
text_source garbage t f v e = rw e refl

text_grown :
    (t : TextFile) (f : FieldMeta) (v : Value)
    → same_type f.attr_type texts ≡ true
    → text_after t f v ≡ append_text t v.content
text_grown t f v e = rw e refl

pub copy_values-AreTexts :
    (garbage r : Memory) (t : TextFile) (offset : ℕ) (attributes : List AttrInfo)
    (fields : List FieldMeta) (vs : List Value) (end : ℕ)
    → AreLaid offset attributes fields end
    → AreTexts
        (copy_values garbage r t fields vs).0
        (copy_values garbage r t fields vs).1.bytes
        t
        fields
        vs
unfolding copy_values AreLaid AreTexts
copy_values-AreTexts garbage r t offset attributes [] vs end l = refl
copy_values-AreTexts garbage r t offset [] (f ∷ fields) vs end l = absurd l
copy_values-AreTexts garbage r t offset (a ∷ more) (f ∷ fields) [] end l = refl
copy_values-AreTexts garbage r t offset (a ∷ more) (f ∷ fields) (v ∷ vs) end (e, g, l) =
    let at : f.attr_offset ≡ offset = ap (λ x. x.attr_offset) e in
    let r' = memcpy r f.attr_offset (source_of garbage t f v) f.attr_len in
    let t' = text_after t f v in
    let rest = copy_values garbage r' t' fields vs in
    (
      λ text four fits. (
        read32-ext rest.0 (write32 garbage 0 (text_offset t)) f.attr_offset 0 (λ k lt.
              (copy_values-before garbage r' t' (offset + f.attr_len) more fields vs end
                  (f.attr_offset + k) l (omega arith)
                ∙ memcpy_inside r f.attr_offset (source_of garbage t f v) f.attr_len k (omega arith)
                ∙ ap (λ m. m k) (text_source garbage t f v text)
                ∙ ap (write32 garbage 0 (text_offset t)) (zero_add k)))
            ∙ ap (λ n. read32 (write32 garbage 0 n) 0) (text_offset_lem t fits)
            ∙ read32-write32 garbage t.size (omega arith),
        load-ext rest.1.bytes v.content t.size 0 4096 (λ k lt.
            (copy_values-text_before garbage r' t' fields vs (t.size + k) (rw text (omega arith))
              ∙ ap (λ x. x.bytes (t.size + k)) (text_grown t f v text)
              ∙ memcpy_inside t.bytes t.size v.content 4096 k lt
              ∙ ap v.content (zero_add k))),
      ),
      copy_values-AreTexts garbage r' t' (offset + f.attr_len) more fields vs end l,
    )
