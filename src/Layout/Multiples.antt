-- ===== src/Layout/Multiples.antt =====
-- compiler/llvm_layout.py: alignments are 1, 2, 4 or 8, and every size is a multiple of its type's alignment.
use new_cl_lang.Base.{
  ℕ, zero, suc, ◌%◌, ◌≡◌, refl, sym, ◌∙◌, subst, Bool, true, false, ◌||◌, inl, inr, List, [], ◌∷◌,
  some, Option-cases, arith, max, if◌then◌else◌, ok,
}
use new_cl_lang.Base.Text.{Text, codes, text_eq, one_of}
use new_cl_lang.Base.Dict.{lookup}
use new_cl_lang.TypeRef.Syntax.{TypeRef}
use new_cl_lang.TypeRef.Same.{type_key}
use new_cl_lang.Layout.Sizes.{
  LayoutTables, Measure, is_map, is_pointer, is_function, is_slice, is_array, align_to, fields_from,
  sizeof_fields, max_alignment, alignof_type, sizeof_type, aligned_sizeof_type,
}
use new_cl_lang.Layout.Alignments.{
  IsAlignment, one, Gives, gives, refuses, loops, Gives-ok, Gives-weaken, alignof_type-IsAlignment,
  max_alignment-IsAlignment, multiple_of_8, align_to-same, ok-eq, align_to-multiple,
  fields_from-Rounded, pos_of_IsAlignment,
}

Gives-split :
    {P : ℕ → Type 0} (b : Bool) {x y : Measure}
    → (b ≡ true → Gives P x)
    → (b ≡ false → Gives P y)
    → Gives P (if b then x else y)
Gives-split true hx hy = hx refl
Gives-split false hx hy = hy refl

-- The tests that `sizeof_type` makes one by one, together as `alignof_type` makes them.
eight_byte-false :
    (key : Text) (b : Bool)
    → one_of key (codes "i64" ∷ codes "u64" ∷ codes "f64" ∷ []) ≡ false
    → text_eq key (codes "str") ≡ false
    → text_eq key (codes "error") ≡ false
    → (text_eq key (codes "nc_map") || b) ≡ false
    → (one_of key (
          codes "i64"
          ∷ codes "u64"
          ∷ codes "f64"
          ∷ codes "str"
          ∷ codes "error"
          ∷ codes "nc_map"
          ∷ [])
        || b)
      ≡ false
unfolding one_of
eight_byte-false key b h1 h2 h3 h4 = ground arith

module _ (tables : LayoutTables) where
  abbrev Aligned : ℕ → TypeRef → ℕ → Type 0
  Aligned fuel t n = (a : ℕ) → alignof_type tables fuel t ≡ ok a → n % a ≡ 0

  eights : (fuel : ℕ) (t : TypeRef) (n : ℕ) → n % 8 ≡ 0 → Aligned fuel t n
  eights fuel t n h a e = multiple_of_8 (Gives-ok (alignof_type-IsAlignment tables fuel t) e) n h

  struct-Aligned :
      (fuel : ℕ) (fields : List (Text × TypeRef))
      → Gives
          (λ n. (a : ℕ) → max_alignment (alignof_type tables fuel) fields ≡ ok a → n % a ≡ 0)
          (sizeof_fields (sizeof_type tables fuel) (alignof_type tables fuel) fields)
  unfolding sizeof_fields max_alignment fields_from
  struct-Aligned fuel [] =
      gives λ a e. subst (λ k. align_to 0 1 % k ≡ 0) (ok-eq refl e) (align_to-multiple 0 one)
  struct-Aligned fuel (f ∷ fields) =
      Gives-weaken
        (fields_from-Rounded (sizeof_type tables fuel) (alignof_type tables fuel)
          (alignof_type-IsAlignment tables fuel) f fields 0 1 one)
        λ n rounded a e.
          subst (λ k. n % k ≡ 0)
            (max_one (
              Gives-ok
                (max_alignment-IsAlignment (alignof_type tables fuel)
                  (alignof_type-IsAlignment tables fuel) (f ∷ fields))
                e))
            (rounded a e)
    where
      max_one : {a : ℕ} → IsAlignment a → max 1 a ≡ a
      max_one h = omega (arith, pos_of_IsAlignment h)

  own_alignment : (n a : ℕ) → n % n ≡ 0 → n ≡ a → n % a ≡ 0
  own_alignment n a h e = subst (λ k. n % k ≡ 0) e h

  alignof_type-1 :
      (fuel : ℕ) (t : TypeRef)
      → text_eq (type_key t) (codes "void") ≡ false
      → one_of (type_key t) (codes "i8" ∷ codes "u8" ∷ codes "bool" ∷ []) ≡ true
      → alignof_type tables (suc fuel) t ≡ ok 1
  unfolding alignof_type
  alignof_type-1 fuel t h0 h1 = rw (h0, h1) refl

  alignof_type-2 :
      (fuel : ℕ) (t : TypeRef)
      → text_eq (type_key t) (codes "void") ≡ false
      → one_of (type_key t) (codes "i8" ∷ codes "u8" ∷ codes "bool" ∷ []) ≡ false
      → one_of (type_key t) (codes "i16" ∷ codes "u16" ∷ []) ≡ true
      → alignof_type tables (suc fuel) t ≡ ok 2
  unfolding alignof_type
  alignof_type-2 fuel t h0 h1 h2 = rw (h0, h1, h2) refl

  alignof_type-4 :
      (fuel : ℕ) (t : TypeRef)
      → text_eq (type_key t) (codes "void") ≡ false
      → one_of (type_key t) (codes "i8" ∷ codes "u8" ∷ codes "bool" ∷ []) ≡ false
      → one_of (type_key t) (codes "i16" ∷ codes "u16" ∷ []) ≡ false
      → (one_of (type_key t) (codes "i32" ∷ codes "u32" ∷ codes "f32" ∷ codes "rune" ∷ [])
          || one_of (type_key t) tables.enum_names)
        ≡ true
      → alignof_type tables (suc fuel) t ≡ ok 4
  unfolding alignof_type
  alignof_type-4 fuel t h0 h1 h2 h4 = rw (h0, h1, h2, h4) refl

  alignof_type-struct :
      (fuel : ℕ) (t : TypeRef) (fields : List (Text × TypeRef))
      → text_eq (type_key t) (codes "void") ≡ false
      → one_of (type_key t) (codes "i8" ∷ codes "u8" ∷ codes "bool" ∷ []) ≡ false
      → one_of (type_key t) (codes "i16" ∷ codes "u16" ∷ []) ≡ false
      → (one_of (type_key t) (codes "i32" ∷ codes "u32" ∷ codes "f32" ∷ codes "rune" ∷ [])
          || one_of (type_key t) tables.enum_names)
        ≡ false
      → (one_of (type_key t) (
            codes "i64"
            ∷ codes "u64"
            ∷ codes "f64"
            ∷ codes "str"
            ∷ codes "error"
            ∷ codes "nc_map"
            ∷ [])
          || is_map t)
        ≡ false
      → is_pointer t ≡ false
      → is_function t ≡ false
      → one_of (type_key t) tables.iface_names ≡ false
      → is_slice t ≡ false
      → is_array t ≡ false
      → lookup (type_key t) tables.struct_fields ≡ some fields
      → alignof_type tables (suc fuel) t ≡ max_alignment (alignof_type tables fuel) fields
  unfolding alignof_type
  alignof_type-struct fuel t fields h0 h1 h2 h4 h8 hp hf hi hl ha found =
      rw (h0, h1, h2, h4, h8, hp, hf, hi, hl, ha, found) refl

  sizeof_type-Aligned :
      (fuel : ℕ) (t : TypeRef) → Gives (Aligned fuel t) (sizeof_type tables fuel t)
  unfolding sizeof_type
  sizeof_type-Aligned zero t = loops
  sizeof_type-Aligned (suc fuel) t =
      Gives-split (text_eq (type_key t) (codes "void")) (λ _. refuses)
        λ h0.
          Gives-split (one_of (type_key t) (codes "i8" ∷ codes "u8" ∷ codes "bool" ∷ []))
            (λ h1. gives λ a e. own_alignment 1 a refl (ok-eq (alignof_type-1 fuel t h0 h1) e))
            λ h1.
              Gives-split (one_of (type_key t) (codes "i16" ∷ codes "u16" ∷ []))
                (λ h2.
                  gives λ a e. own_alignment 2 a refl (ok-eq (alignof_type-2 fuel t h0 h1 h2) e))
                λ h2.
                  Gives-split
                    (one_of (type_key t)
                        (codes "i32" ∷ codes "u32" ∷ codes "f32" ∷ codes "rune" ∷ [])
                      || one_of (type_key t) tables.enum_names)
                    (λ h4.
                      gives
                        λ a e. own_alignment 4 a refl (ok-eq (alignof_type-4 fuel t h0 h1 h2 h4) e))
                    λ h4.
                      Gives-split
                        (one_of (type_key t) (codes "i64" ∷ codes "u64" ∷ codes "f64" ∷ []))
                        (λ _. gives (eights _ t 8 refl))
                        λ h8.
                          Gives-split (text_eq (type_key t) (codes "str"))
                            (λ _. gives (eights _ t 16 refl))
                            λ hs.
                              Gives-split (text_eq (type_key t) (codes "error"))
                                (λ _. gives (eights _ t 40 refl))
                                λ he.
                                  Gives-split (text_eq (type_key t) (codes "nc_map") || is_map t)
                                    (λ _. gives (eights _ t 40 refl))
                                    λ hm.
                                      Gives-split (text_eq (type_key t) (codes "raw"))
                                        (λ _. gives (eights _ t 8 refl))
                                        λ hr.
                                          Gives-split (is_pointer t)
                                            (λ _. gives (eights _ t 8 refl))
                                            λ hp.
                                              Gives-split (is_function t)
                                                (λ _. gives (eights _ t 16 refl))
                                                λ hf.
                                                  Gives-split
                                                    (one_of (type_key t) tables.iface_names)
                                                    (λ _. gives (eights _ t 16 refl))
                                                    λ hi.
                                                      Gives-split (is_slice t)
                                                        (λ _. gives (eights _ t 24 refl))
                                                        λ hl.
                                                          Gives-split (is_array t)
                                                            (λ _. gives (eights _ t 8 refl))
                                                            λ ha.
                                                            elim (Option-cases (
                                                            lookup (type_key t)
                                                            tables.struct_fields)) [
                                                              | inl absent ↦ rw absent refuses
                                                              | inr (fields, found) ↦ rw found (
                                                                Gives-weaken
                                                                (struct-Aligned fuel fields)
                                                                λ n aligned a e. aligned a (
                                                                sym (
                                                                alignof_type-struct fuel t fields h0
                                                                h1 h2 h4
                                                                (eight_byte-false _ _ h8 hs he hm)
                                                                hp hf hi hl ha found)
                                                                ∙ e))
                                                            ]

-- Whenever the layout gives a type a size and an alignment, the alignment is 1, 2, 4 or 8 and the size is a
-- multiple of it, so that the elements of an array can lie side by side; aligned_sizeof_type then gives that size.
pub sizeof_type-alignof_type :
    (tables : LayoutTables) (fuel : ℕ) (t : TypeRef) (size alignment : ℕ)
    → sizeof_type tables fuel t ≡ ok size
    → alignof_type tables fuel t ≡ ok alignment
    → IsAlignment alignment × (size % alignment ≡ 0) × (aligned_sizeof_type tables fuel t ≡ ok size)
unfolding aligned_sizeof_type
sizeof_type-alignof_type tables fuel t size alignment hs ha =
    (aligns, multiple, rw (hs, ha, align_to-same aligns size multiple) refl)
  where
    aligns : IsAlignment alignment
    aligns = Gives-ok (alignof_type-IsAlignment tables fuel t) ha

    multiple : size % alignment ≡ 0
    multiple = Gives-ok (sizeof_type-Aligned tables fuel t) hs alignment ha
