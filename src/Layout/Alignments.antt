-- ===== src/Layout/Alignments.antt =====
-- compiler/llvm_layout.py: the alignments of types and of struct fields.
use new_cl_lang.Base.{
  ℕ, zero, suc, ◌+◌, ◌%◌, ◌<◌, ◌≡◌, refl, sym, ◌∙◌, subst, Bool, true, false, List, [], ◌∷◌, none,
  some, Option, arith, max, if◌then◌else◌, ok, raised, out_of_fuel, ◌>>=◌,
}
use new_cl_lang.Base.Text.{Text}
use new_cl_lang.Base.Dict.{lookup}
use new_cl_lang.TypeRef.Syntax.{TypeRef}
use new_cl_lang.TypeRef.Same.{type_key}
use new_cl_lang.Layout.Sizes.{
  LayoutTables, LayoutError, Measure, align_to, fields_from, max_alignment, alignof_type,
}
use new_cl_lang.Layout.Alignment.{align_to-least}

pub data IsAlignment : ℕ → Type 0 where
  one : IsAlignment 1
  two : IsAlignment 2
  four : IsAlignment 4
  eight : IsAlignment 8

-- What a measure returns has the property; it may also raise an exception or not end.
pub data Gives (P : ℕ → Type 0) : Measure → Type 0 where
  gives : {n : ℕ} → P n → Gives P (ok n)
  refuses : {e : LayoutError} → Gives P (raised e)
  loops : Gives P out_of_fuel

pub Gives-ok : {P : ℕ → Type 0} {r : Measure} {n : ℕ} → Gives P r → r ≡ ok n → P n
Gives-ok {P} (gives h) e = subst P (cc) h
Gives-ok refuses e = cc
Gives-ok loops e = cc

Gives-if :
    {P : ℕ → Type 0} (b : Bool) {x y : Measure}
    → Gives P x
    → Gives P y
    → Gives P (if b then x else y)
Gives-if true hx hy = hx
Gives-if false hx hy = hy

Gives-bind :
    {P Q : ℕ → Type 0} {r : Measure} {f : ℕ → Measure}
    → Gives P r
    → ((n : ℕ) → P n → Gives Q (f n))
    → Gives Q (r >>= f)
Gives-bind (gives h) k = k _ h
Gives-bind refuses k = refuses
Gives-bind loops k = loops

pub Gives-weaken : {P Q : ℕ → Type 0} {r : Measure} → Gives P r → ((n : ℕ) → P n → Q n) → Gives Q r
Gives-weaken (gives h) k = gives (k _ h)
Gives-weaken refuses k = refuses
Gives-weaken loops k = loops

Gives-both : {P Q : ℕ → Type 0} {r : Measure} → Gives P r → Gives Q r → Gives (λ n. P n × Q n) r
Gives-both (gives h) hq = gives (h, Gives-ok hq refl)
Gives-both refuses hq = refuses
Gives-both loops hq = loops

max-IsAlignment : {a b : ℕ} → IsAlignment a → IsAlignment b → IsAlignment (max a b)
max-IsAlignment one one = one
max-IsAlignment one two = two
max-IsAlignment one four = four
max-IsAlignment one eight = eight
max-IsAlignment two one = two
max-IsAlignment two two = two
max-IsAlignment two four = four
max-IsAlignment two eight = eight
max-IsAlignment four one = four
max-IsAlignment four two = four
max-IsAlignment four four = four
max-IsAlignment four eight = eight
max-IsAlignment eight one = eight
max-IsAlignment eight two = eight
max-IsAlignment eight four = eight
max-IsAlignment eight eight = eight

pub max_alignment-IsAlignment :
    (align : TypeRef → Measure)
    → ((t : TypeRef) → Gives IsAlignment (align t))
    → (fields : List (Text × TypeRef)) → Gives IsAlignment (max_alignment align fields)
unfolding max_alignment
max_alignment-IsAlignment align h [] = gives one
max_alignment-IsAlignment align h ((name, t) ∷ []) = h t
max_alignment-IsAlignment align h ((name, t) ∷ f ∷ fields) = Gives-bind (h t) λ a ha.
    Gives-bind (max_alignment-IsAlignment align h (f ∷ fields))
      λ b hb. gives (max-IsAlignment ha hb)

pub alignof_type-IsAlignment :
    (tables : LayoutTables) (fuel : ℕ) (t : TypeRef)
    → Gives IsAlignment (alignof_type tables fuel t)
unfolding alignof_type
alignof_type-IsAlignment tables zero t = loops
alignof_type-IsAlignment tables (suc fuel) t =
    search
      (
        Gives-if,
        gives,
        refuses,
        one,
        two,
        four,
        eight,
        fields_of (lookup (type_key t) tables.struct_fields) (alignof_type-IsAlignment tables fuel),
      )
      depth 30
  where
    fields_of :
        (o : Option (List (Text × TypeRef)))
        → ((s : TypeRef) → Gives IsAlignment (alignof_type tables fuel s))
        → Gives IsAlignment (elim o [
          | some fields ↦ max_alignment (alignof_type tables fuel) fields
          | none ↦ raised (LayoutError.no_alignment (type_key t))
        ])
    fields_of none ih = refuses
    fields_of (some fields) ih = max_alignment-IsAlignment _ ih fields

pub multiple_of_8 : {a : ℕ} → IsAlignment a → (n : ℕ) → n % 8 ≡ 0 → n % a ≡ 0
multiple_of_8 one n h = omega arith
multiple_of_8 two n h = omega arith
multiple_of_8 four n h = omega arith
multiple_of_8 eight n h = h

pub align_to-same : {a : ℕ} → IsAlignment a → (n : ℕ) → n % a ≡ 0 → align_to n a ≡ n
unfolding align_to
align_to-same one n h = omega arith
align_to-same two n h = omega arith
align_to-same four n h = omega arith
align_to-same eight n h = omega arith

pub pos_of_IsAlignment : {a : ℕ} → IsAlignment a → 0 < a
pos_of_IsAlignment one = omega arith
pos_of_IsAlignment two = omega arith
pos_of_IsAlignment four = omega arith
pos_of_IsAlignment eight = omega arith

Gives-eq : (r : Measure) → Gives (λ n. r ≡ ok n) r
Gives-eq (ok n) = gives refl
Gives-eq (raised e) = refuses
Gives-eq out_of_fuel = loops

pub ok-eq : {r : Measure} {a b : ℕ} → r ≡ ok a → r ≡ ok b → a ≡ b
ok-eq e h = cc

not_ok : {y : LayoutError} {a : ℕ} → raised y ≡ ok a → ⊥
not_ok e = cc

abbrev the_end : Measure
the_end = out_of_fuel

not_done : {a : ℕ} → the_end ≡ ok a → ⊥
not_done e = cc

pub align_to-multiple : (value : ℕ) {m : ℕ} → IsAlignment m → align_to value m % m ≡ 0
align_to-multiple value {m} h = (align_to-least value m (pos_of_IsAlignment h)).0

max_assoc : (a b c : ℕ) → max (max a b) c ≡ max a (max b c)
max_assoc a b c = omega arith

module _ (size align : TypeRef → Measure) (h : (t : TypeRef) → Gives IsAlignment (align t)) where
  -- The size of fields is a multiple of the largest alignment so far and of their alignments.
  abbrev pub Rounded : ℕ → List (Text × TypeRef) → ℕ → Type 0
  Rounded m fields n = (a : ℕ) → max_alignment align fields ≡ ok a → n % max m a ≡ 0

  max_alignment-step :
      (name : Text) (t : TypeRef) (f : Text × TypeRef) (fields : List (Text × TypeRef)) (m x n : ℕ)
      → align t ≡ ok x
      → Rounded (max m x) (f ∷ fields) n
      → Rounded m ((name, t) ∷ f ∷ fields) n
  unfolding max_alignment
  max_alignment-step name t f fields m x n e rounded a he =
      last (max_alignment align (f ∷ fields)) refl
    where
      after : Measure → Measure
      after r = r >>= λ b. ok (max x b)

      joined : (r : Measure) → max_alignment align (f ∷ fields) ≡ r → after r ≡ ok a
      joined r hr = sym (rw (max_alignment, e, hr) refl) ∙ he

      last : (r : Measure) → max_alignment align (f ∷ fields) ≡ r → n % max m a ≡ 0
      last (ok b) hr =
          subst (λ k. n % max m k ≡ 0) (ok-eq refl (joined (ok b) hr))
            (subst (λ k. n % k ≡ 0) (max_assoc m x b) (rounded b hr))
      last (raised y) hr = absurd (not_ok (joined (raised y) hr))
      last out_of_fuel hr = absurd (not_done (joined out_of_fuel hr))

  pub fields_from-Rounded :
      (f : Text × TypeRef) (fields : List (Text × TypeRef)) (offset m : ℕ)
      → IsAlignment m
      → Gives (Rounded m (f ∷ fields)) (fields_from size align (f ∷ fields) offset m)
  unfolding fields_from max_alignment
  fields_from-Rounded (name, t) [] offset m hm =
      Gives-bind (Gives-both (Gives-eq (align t)) (h t)) λ x (e, hx).
        Gives-bind (Gives-eq (size t))
          λ s _. gives λ a ea. rw (sym (ok-eq e ea)) (align_to-multiple _ (max-IsAlignment hm hx))
  fields_from-Rounded (name, t) (g ∷ fields) offset m hm =
      Gives-bind (Gives-both (Gives-eq (align t)) (h t)) λ x (e, hx).
        Gives-bind (Gives-eq (size t)) λ s _.
          Gives-weaken
            (fields_from-Rounded g fields (align_to offset x + s) (max m x) (max-IsAlignment hm hx))
            λ n rounded. max_alignment-step name t g fields m x n e rounded
