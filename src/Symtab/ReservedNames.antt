-- ===== src/Symtab/ReservedNames.antt =====
-- compiler/symtab.py: the names that `declare` and `_check_runtime_name` refuse.
use new_cl_lang.Base.{
  ◌≡◌, ◌↔◌, ◌⊎◌, inl, inr, refl, sym, Bool, true, false, not, ◌||◌, ◌&&◌, List, [], ◌∷◌, ◌++◌,
  subst, Bool-cases, Option-cases, arith,
}
use new_cl_lang.Base.Text.{Text, codes, text_eq, text_eq_iff, one_of, after_prefix}
use new_cl_lang.Lexer.Progress.{after_prefix-append}
use new_cl_lang.Symtab.Table.{
  is_magic_name, is_runtime_name, reserved_magic_names, reserved_runtime_names, has_prefix,
}

-- The names that stand for places in the source.
pub data MagicName (name : Text) : Type 0 where
  file : name ≡ codes "__FILE__" → MagicName name
  line : name ≡ codes "__LINE__" → MagicName name
  col : name ≡ codes "__COL__" → MagicName name
  func : name ≡ codes "__FUNC__" → MagicName name
  module_name : name ≡ codes "__MODULE__" → MagicName name

-- The functions of the C library that the runtime calls, `str`, and what begins with `__nc`.
pub data RuntimeName (name : Text) : Type 0 where
  c_div : name ≡ codes "div" → RuntimeName name
  c_exit : name ≡ codes "exit" → RuntimeName name
  c_malloc : name ≡ codes "malloc" → RuntimeName name
  c_free : name ≡ codes "free" → RuntimeName name
  c_printf : name ≡ codes "printf" → RuntimeName name
  c_strlen : name ≡ codes "strlen" → RuntimeName name
  c_memcpy : name ≡ codes "memcpy" → RuntimeName name
  c_memcmp : name ≡ codes "memcmp" → RuntimeName name
  str_function : name ≡ codes "str" → RuntimeName name
  internal : (rest : Text) → name ≡ codes "__nc" ++ rest → RuntimeName name

-- Membership in a list of words, as the case distinction that it is.
abbrev Word : Text → List Text → Type 0
Word s [] = ⊥
Word s (w ∷ ws) = (s ≡ w) ⊎ Word s ws

one_of-Word : (s : Text) (ws : List Text) → one_of s ws ≡ true → Word s ws
unfolding one_of
one_of-Word s [] h = cc
one_of-Word s (w ∷ ws) h = elim (Bool-cases (text_eq s w)) [
  | inl e ↦ inl ((text_eq_iff s w).0 e)
  | inr e ↦ inr (one_of-Word s ws (rw e at h))
]

Word-one_of : (s : Text) (ws : List Text) → Word s ws → one_of s ws ≡ true
unfolding one_of
Word-one_of s [] h = absurd h
Word-one_of s (w ∷ ws) (inl e) = rw ((text_eq_iff s w).1 e) refl
Word-one_of s (w ∷ ws) (inr h) = ground (arith, Word-one_of s ws h)

Word-MagicName : (name : Text) → Word name reserved_magic_names → MagicName name
Word-MagicName name (inl e) = file e
Word-MagicName name (inr (inl e)) = line e
Word-MagicName name (inr (inr (inl e))) = col e
Word-MagicName name (inr (inr (inr (inl e)))) = func e
Word-MagicName name (inr (inr (inr (inr (inl e))))) = module_name e
Word-MagicName name (inr (inr (inr (inr (inr x))))) = elim x [ ]

MagicName-Word : (name : Text) → MagicName name → Word name reserved_magic_names
MagicName-Word name (file e) = inl e
MagicName-Word name (line e) = inr (inl e)
MagicName-Word name (col e) = inr (inr (inl e))
MagicName-Word name (func e) = inr (inr (inr (inl e)))
MagicName-Word name (module_name e) = inr (inr (inr (inr (inl e))))

Word-RuntimeName : (name : Text) → Word name reserved_runtime_names → RuntimeName name
Word-RuntimeName name (inl e) = c_div e
Word-RuntimeName name (inr (inl e)) = c_exit e
Word-RuntimeName name (inr (inr (inl e))) = c_malloc e
Word-RuntimeName name (inr (inr (inr (inl e)))) = c_free e
Word-RuntimeName name (inr (inr (inr (inr (inl e))))) = c_printf e
Word-RuntimeName name (inr (inr (inr (inr (inr (inl e)))))) = c_strlen e
Word-RuntimeName name (inr (inr (inr (inr (inr (inr (inl e))))))) = c_memcpy e
Word-RuntimeName name (inr (inr (inr (inr (inr (inr (inr (inl e)))))))) = c_memcmp e
Word-RuntimeName name (inr (inr (inr (inr (inr (inr (inr (inr (inl e))))))))) = str_function e
Word-RuntimeName name (inr (inr (inr (inr (inr (inr (inr (inr (inr x))))))))) = elim x [ ]

or_right : (a b : Bool) → b ≡ true → (a || b) ≡ true
or_right a b h = ground arith

internal_prefix : (rest : Text) → has_prefix (codes "__nc") (codes "__nc" ++ rest) ≡ true
unfolding after_prefix
internal_prefix rest = refl

pub is_magic_name_iff : (name : Text) → (is_magic_name name ≡ true) ↔ MagicName name
is_magic_name_iff name = (
  λ h. Word-MagicName name (one_of-Word name _ h),
  λ m. Word-one_of name _ (MagicName-Word name m),
)

has_prefix_word : (p name : Text) → has_prefix p name ≡ true → (rest : Text) × (name ≡ p ++ rest)
has_prefix_word p name h = elim (Option-cases (after_prefix p name)) [
  | inl e ↦ ground arith
  | inr (rest, e) ↦ (rest, after_prefix-append p name rest e)
]

-- A word of the list is a runtime name.
Word-is_runtime_name :
    (name : Text) → Word name reserved_runtime_names → is_runtime_name name ≡ true
Word-is_runtime_name name w = rw (Word-one_of name _ w) refl

RuntimeName-is_runtime_name : (name : Text) → RuntimeName name → is_runtime_name name ≡ true
RuntimeName-is_runtime_name name (c_div e) = Word-is_runtime_name name (inl e)
RuntimeName-is_runtime_name name (c_exit e) = Word-is_runtime_name name (inr (inl e))
RuntimeName-is_runtime_name name (c_malloc e) = Word-is_runtime_name name (inr (inr (inl e)))
RuntimeName-is_runtime_name name (c_free e) = Word-is_runtime_name name (inr (inr (inr (inl e))))
RuntimeName-is_runtime_name name (c_printf e) =
    Word-is_runtime_name name (inr (inr (inr (inr (inl e)))))
RuntimeName-is_runtime_name name (c_strlen e) =
    Word-is_runtime_name name (inr (inr (inr (inr (inr (inl e))))))
RuntimeName-is_runtime_name name (c_memcpy e) =
    Word-is_runtime_name name (inr (inr (inr (inr (inr (inr (inl e)))))))
RuntimeName-is_runtime_name name (c_memcmp e) =
    Word-is_runtime_name name (inr (inr (inr (inr (inr (inr (inr (inl e))))))))
RuntimeName-is_runtime_name name (str_function e) =
    Word-is_runtime_name name (inr (inr (inr (inr (inr (inr (inr (inr (inl e)))))))))
RuntimeName-is_runtime_name name (internal rest e) =
    subst (λ n. is_runtime_name n ≡ true) (sym e) (or_right _ _ (internal_prefix rest))

pub is_runtime_name_iff : (name : Text) → (is_runtime_name name ≡ true) ↔ RuntimeName name
is_runtime_name_iff name = (found, RuntimeName-is_runtime_name name)
  where
    found : is_runtime_name name ≡ true → RuntimeName name
    found h = elim (Bool-cases (one_of name reserved_runtime_names)) [
      | inl e ↦ Word-RuntimeName name (one_of-Word name _ e)
      | inr e ↦
          (let (rest, eq) = has_prefix_word (codes "__nc") name (rw e at h) in internal rest eq)
    ]

pub not_magic : (name : Text) → ¬ MagicName name → is_magic_name name ≡ false
not_magic name h = elim (Bool-cases (is_magic_name name)) [
  | inl m ↦ absurd (h ((is_magic_name_iff name).0 m))
  | inr m ↦ m
]

pub excluded : (name : Text) → is_magic_name name ≡ false → ¬ MagicName name
excluded name h m = cc ((is_magic_name_iff name).1 m)

-- The test of runtime names lets the name pass.
pub permitted :
    (name : Text) (allow : Bool)
    → (allow ≡ true) ⊎ (¬ RuntimeName name)
    → (not allow && is_runtime_name name) ≡ false
permitted name allow (inl e) = rw e refl
permitted name allow (inr h) = elim (Bool-cases (is_runtime_name name)) [
  | inl r ↦ absurd (h ((is_runtime_name_iff name).0 r))
  | inr r ↦ and_false (not allow) (is_runtime_name name) r
]
  where
    and_false : (a b : Bool) → b ≡ false → (a && b) ≡ false
    and_false a b e = ground arith

pub permits :
    (name : Text) (allow : Bool)
    → (not allow && is_runtime_name name) ≡ false
    → (allow ≡ true) ⊎ (¬ RuntimeName name)
permits name true h = inl refl
permits name false h = inr (λ r. cc ((is_runtime_name_iff name).1 r))

pub refused_runtime :
    (name : Text) (allow : Bool)
    → (not allow && is_runtime_name name) ≡ true
    → (allow ≡ false) × RuntimeName name
refused_runtime name true h = cc
refused_runtime name false h = (refl, (is_runtime_name_iff name).0 h)
