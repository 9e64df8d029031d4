-- ===== src/Builtins/Arity.antt =====
-- compiler/builtins.py: the number of arguments of each builtin function.
use new_cl_lang.Base.{
  ℕ, Bool, true, false, ◌≡◌, ◌≢◌, refl, sym, ap, subst, ◌==◌, ◌&&◌, Option-cases, List, [], ◌∷◌,
  Option, none, some, if◌then◌else◌, length, arith, Outcome, ok, raised, Bool-cases, inl, inr,
}
use new_cl_lang.Base.Text.{Text, codes, text_eq, text_eq_iff, one_of}
use new_cl_lang.TypeRef.Syntax.{TypeRef}
use new_cl_lang.TypeRules.Kinds.{numeric_types}
use new_cl_lang.Builtins.{
  TypeError, arg_count, Checked, no_args, one_arg, two_args, infer_builtin_call, infer_scalar_call,
}

-- How many arguments a builtin function takes; none for other names.
unfoldable pub arity : Text → Option ℕ
arity name =
    if one_of name (
      codes "io.print"
      ∷ codes "io.println"
      ∷ codes "cap"
      ∷ codes "clear"
      ∷ codes "str"
      ∷ codes "__nc_bytes_alloc"
      ∷ codes "abs"
      ∷ codes "rune"
      ∷ codes "len"
      ∷ numeric_types)
    then some 1
    else if one_of name
        (codes "append" ∷ codes "copy" ∷ codes "delete" ∷ codes "min" ∷ codes "max" ∷ [])
    then some 2
    else if one_of name (codes "runtime.gc_collect" ∷ codes "runtime.gc_live" ∷ [])
    then some 0
    else none

-- The answer to a call where the number of arguments is wrong, or the name is no builtin's.
abbrev pub refused : Text → Option ℕ → List TypeRef → Checked
refused name none args = ok none
refused name (some n) args = raised (arg_count name n (length args))

no_args-refused :
    (name : Text) (args : List TypeRef) (k : Checked)
    → length args ≢ 0
    → no_args name args k ≡ refused name (some 0) args
unfolding no_args
no_args-refused name [] k h = absurd (h refl)
no_args-refused name (a ∷ args) k h = refl

one_arg-refused :
    (name : Text) (args : List TypeRef) (k : TypeRef → Checked)
    → length args ≢ 1
    → one_arg name args k ≡ refused name (some 1) args
unfolding one_arg
one_arg-refused name [] k h = refl
one_arg-refused name (a ∷ []) k h = absurd (h refl)
one_arg-refused name (a ∷ b ∷ args) k h = refl

two_args-refused :
    (name : Text) (args : List TypeRef) (k : TypeRef → TypeRef → Checked)
    → length args ≢ 2
    → two_args name args k ≡ refused name (some 2) args
unfolding two_args
two_args-refused name [] k h = refl
two_args-refused name (a ∷ []) k h = refl
two_args-refused name (a ∷ b ∷ []) k h = absurd (h refl)
two_args-refused name (a ∷ b ∷ c ∷ args) k h = refl

if-split :
    {A : Type 0} (b : Bool) {x y z : A}
    → (b ≡ true → x ≡ z)
    → (b ≡ false → y ≡ z)
    → (if b then x else y) ≡ z
if-split true hx hy = hx refl
if-split false hx hy = hy refl

unfoldable takes : ℕ → List Text → Bool
takes n [] = true
takes n (w ∷ ws) = elim (arity w) [ none ↦ false | some m ↦ m == n && takes n ws ]

takes-cons :
    (n : ℕ) (w : Text) (ws : List Text)
    → takes n (w ∷ ws) ≡ true
    → (arity w ≡ some n) × (takes n ws ≡ true)
unfolding takes
takes-cons n w ws h = elim (Option-cases (arity w)) [
  | inl e ↦ absurd (impossible e)
  | inr (m, e) ↦ found m e
]
  where
    impossible : arity w ≡ none → ⊥
    impossible e = ground (arith, h, takes)

    found : (m : ℕ) → arity w ≡ some m → (arity w ≡ some n) × (takes n ws ≡ true)
    found m e = ground (arith, h, takes)

one_of-takes :
    (n : ℕ) (name : Text) (ws : List Text)
    → takes n ws ≡ true
    → one_of name ws ≡ true
    → arity name ≡ some n
unfolding one_of
one_of-takes n name [] h e = cc
one_of-takes n name (w ∷ ws) h e = elim (Bool-cases (text_eq name w)) [
  | inl same ↦
      subst (λ v. arity v ≡ some n) (sym ((text_eq_iff name w).0 same)) (takes-cons n w ws h).0
  | inr other ↦ one_of-takes n name ws (takes-cons n w ws h).1 (ground arith)
]

one_of-false :
    (name w : Text) (ws : List Text)
    → one_of name (w ∷ ws) ≡ false
    → (text_eq name w ≡ false) × (one_of name ws ≡ false)
unfolding one_of
one_of-false name w ws h = ground arith

arity-none :
    (name : Text)
    → one_of name (codes "io.print" ∷ codes "io.println" ∷ []) ≡ false
    → text_eq name (codes "append") ≡ false
    → text_eq name (codes "cap") ≡ false
    → text_eq name (codes "copy") ≡ false
    → text_eq name (codes "clear") ≡ false
    → text_eq name (codes "delete") ≡ false
    → text_eq name (codes "str") ≡ false
    → text_eq name (codes "__nc_bytes_alloc") ≡ false
    → one_of name (codes "min" ∷ codes "max" ∷ []) ≡ false
    → text_eq name (codes "abs") ≡ false
    → text_eq name (codes "rune") ≡ false
    → one_of name numeric_types ≡ false
    → text_eq name (codes "runtime.gc_collect") ≡ false
    → text_eq name (codes "runtime.gc_live") ≡ false
    → text_eq name (codes "len") ≡ false
    → arity name ≡ none
unfolding arity one_of
arity-none name h1 h2 h3 h4 h5 h6 h7 h8 h9 h10 h11 h12 h13 h14 h15 =
    let (p, q) = one_of-false name (codes "io.print") (codes "io.println" ∷ []) h1 in
    let (v, w) = one_of-false name (codes "min") (codes "max" ∷ []) h9 in
    rw
      (
        p,
        (one_of-false name (codes "io.println") [] q).0,
        h3,
        h5,
        h7,
        h8,
        h10,
        h11,
        h15,
        h12,
        h2,
        h4,
        h6,
        v,
        (one_of-false name (codes "max") [] w).0,
        h13,
        h14,
      )
      refl

arity-word :
    (name w : Text) (n : ℕ) → arity w ≡ some n → text_eq name w ≡ true → arity name ≡ some n
arity-word name w n e h = subst (λ v. arity v ≡ some n) (sym ((text_eq_iff name w).0 h)) e

module _ (name : Text) (args : List TypeRef)
    (wrong : (n : ℕ) → arity name ≡ some n → length args ≢ n) where
  none_wrong :
      (k : Checked) → arity name ≡ some 0 → no_args name args k ≡ refused name (arity name) args
  none_wrong k e = rw e (no_args-refused name args k (wrong 0 e))

  one_wrong :
      (k : TypeRef → Checked)
      → arity name ≡ some 1
      → one_arg name args k ≡ refused name (arity name) args
  one_wrong k e = rw e (one_arg-refused name args k (wrong 1 e))

  two_wrong :
      (k : TypeRef → TypeRef → Checked)
      → arity name ≡ some 2
      → two_args name args k ≡ refused name (arity name) args
  two_wrong k e = rw e (two_args-refused name args k (wrong 2 e))

print_takes : takes 1 (codes "io.print" ∷ codes "io.println" ∷ []) ≡ true
unfolding takes arity one_of text_eq
print_takes = refl

extreme_takes : takes 2 (codes "min" ∷ codes "max" ∷ []) ≡ true
unfolding takes arity one_of text_eq
extreme_takes = refl

numeric_takes : takes 1 numeric_types ≡ true
unfolding takes arity one_of text_eq
numeric_takes = refl

-- A call with another number of arguments than the builtin takes is refused with the number it takes and the number
-- given, whatever the arguments' types and require_type are, and a name that is no builtin's has no answer.
pub infer_builtin_call-arity :
    (require_type : (given expected : TypeRef) → Text → Outcome TypeError (Unit {0})) (name : Text)
    (args : List TypeRef)
    → ((n : ℕ) → arity name ≡ some n → length args ≢ n)
    → infer_builtin_call require_type name args ≡ refused name (arity name) args
unfolding infer_builtin_call infer_scalar_call arity one_of text_eq
infer_builtin_call-arity require_type name args wrong =
    if-split _ (λ h. one_wrong name args wrong _ (one_of-takes 1 name _ print_takes h))
      λ h1.
        if-split _ (λ h. two_wrong name args wrong _ (arity-word name (codes "append") 2 refl h))
          λ h2.
            if-split _ (λ h. one_wrong name args wrong _ (arity-word name (codes "cap") 1 refl h))
              λ h3.
                if-split _
                  (λ h. two_wrong name args wrong _ (arity-word name (codes "copy") 2 refl h))
                  λ h4.
                    if-split _
                      (λ h. one_wrong name args wrong _ (arity-word name (codes "clear") 1 refl h))
                      λ h5.
                        if-split _
                          (λ h.
                            two_wrong name args wrong _ (arity-word name (codes "delete") 2 refl h))
                          λ h6.
                            if-split _
                              (λ h.
                                one_wrong name args wrong _
                                  (arity-word name (codes "str") 1 refl h))
                              λ h7.
                                if-split _
                                  (λ h.
                                    one_wrong name args wrong _
                                      (arity-word name (codes "__nc_bytes_alloc") 1 refl h))
                                  λ h8.
                                    if-split _
                                      (λ h.
                                        two_wrong name args wrong _
                                          (one_of-takes 2 name _ extreme_takes h))
                                      λ h9.
                                        if-split _
                                          (λ h.
                                            one_wrong name args wrong _
                                              (arity-word name (codes "abs") 1 refl h))
                                          λ h10.
                                            if-split _
                                              (λ h.
                                                one_wrong name args wrong _
                                                  (arity-word name (codes "rune") 1 refl h))
                                              λ h11.
                                                if-split _
                                                  (λ h.
                                                    one_wrong name args wrong _
                                                      (one_of-takes 1 name _ numeric_takes h))
                                                  λ h12.
                                                    if-split _
                                                      (λ h. none_wrong name args wrong _ (
                                                        arity-word name (codes "runtime.gc_collect")
                                                          0 refl h))
                                                      λ h13.
                                                        if-split _
                                                          (λ h. none_wrong name args wrong _ (
                                                            arity-word name
                                                            (codes "runtime.gc_live") 0 refl h))
                                                          λ h14.
                                                            if-split _
                                                            (λ h. one_wrong name args wrong _ (
                                                            arity-word name (codes "len") 1 refl h))
                                                            λ h15. sym (
                                                            ap (λ k. refused name k args)
                                                            (arity-none name h1 h2 h3 h4 h5 h6 h7 h8
                                                            h9 h10 h11 h12 h13 h14 h15))
