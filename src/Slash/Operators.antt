-- ===== src/Slash/Operators.antt =====
-- The operators' names in src/slash/slash_csp_proc.c, read and printed.
use csp_proc.Common.{
  List, [], ◌∷◌, true, Option, some, ◌≡◌, refl, ◌↔◌, inl, inr, ◌==◌, ==_iff, Bool-cases, arith,
}
use csp_proc.Types.{ComparisonOp, UnaryOp, BinaryOp, op_eq, op_inc, op_add}
use csp_proc.Slash.{
  Text, text_eq, first_match, comparison_op_str, unary_op_str, binary_op_str,
  parse_comparison_op_enum, parse_unary_op_enum, parse_binary_op_enum,
}

text_eq_sound : (s t : Text) → text_eq s t ≡ true → s ≡ t
text_eq_sound [] [] h = refl
text_eq_sound [] (d ∷ t) h = cc
text_eq_sound (c ∷ s) [] h = cc
text_eq_sound (c ∷ s) (d ∷ t) h = elim (Bool-cases (c == d)) [
  | inl e ↦ cc ((==_iff c d).0 e, text_eq_sound s t (rw e at h))
  | inr e ↦ absurd (ground arith)
]

-- A chain maps only strings that `printed` gives back for the enumerator.
abbrev Prints : {A : Type 0} → (A → Option Text) → List (Text × A) → Type 0
Prints printed [] = Unit
Prints printed ((s, a) ∷ chain) = (printed a ≡ some s) × Prints printed chain

first_match-printed :
    {A : Type 0} (printed : A → Option Text) (chain : List (Text × A)) (str : Text) (a : A)
    → Prints printed chain
    → first_match chain str ≡ some a
    → printed a ≡ some str
unfolding first_match
first_match-printed printed [] str a ok h = cc
first_match-printed printed ((s, b) ∷ chain) str a ok h = elim (Bool-cases (text_eq str s)) [
  | inl e ↦ cc (rw e at h, text_eq_sound str s e, ok.0)
  | inr e ↦ first_match-printed printed chain str a ok.1 (rw e at h)
]

parse_comparison-str :
    (op : ComparisonOp) (str : Text)
    → comparison_op_str op ≡ some str
    → parse_comparison_op_enum str ≡ some op
unfolding comparison_op_str parse_comparison_op_enum first_match
parse_comparison-str op_eq str h = cc
parse_comparison-str _ str h = cc

-- A string is read as a comparison operator exactly when it is the operator's name in the printing array.
pub parse_comparison_op_enum_iff :
    (str : Text) (op : ComparisonOp)
    → (parse_comparison_op_enum str ≡ some op) ↔ (comparison_op_str op ≡ some str)
unfolding parse_comparison_op_enum comparison_op_str
parse_comparison_op_enum_iff str op = (
  λ h.
      first_match-printed comparison_op_str _ str op
        (refl, (refl, (refl, (refl, (refl, (refl, tt)))))) h,
  parse_comparison-str op str,
)

parse_unary-str :
    (op : UnaryOp) (str : Text) → unary_op_str op ≡ some str → parse_unary_op_enum str ≡ some op
unfolding unary_op_str parse_unary_op_enum first_match
parse_unary-str op_inc str h = cc
parse_unary-str _ str h = cc

-- A string is read as a unary operator exactly when it is the operator's name in the printing array.
pub parse_unary_op_enum_iff :
    (str : Text) (op : UnaryOp) → (parse_unary_op_enum str ≡ some op) ↔ (unary_op_str op ≡ some str)
unfolding parse_unary_op_enum unary_op_str
parse_unary_op_enum_iff str op = (
  λ h.
      first_match-printed unary_op_str _ str op (refl, (refl, (refl, (refl, (refl, (refl, tt))))))
        h,
  parse_unary-str op str,
)

parse_binary-str :
    (op : BinaryOp) (str : Text) → binary_op_str op ≡ some str → parse_binary_op_enum str ≡ some op
unfolding binary_op_str parse_binary_op_enum first_match
parse_binary-str op_add str h = cc
parse_binary-str _ str h = cc

-- A string is read as a binary operator exactly when it is the operator's name in the printing array.
pub parse_binary_op_enum_iff :
    (str : Text) (op : BinaryOp)
    → (parse_binary_op_enum str ≡ some op) ↔ (binary_op_str op ≡ some str)
unfolding parse_binary_op_enum binary_op_str
parse_binary_op_enum_iff str op = (
  λ h.
      first_match-printed binary_op_str _ str op
        (refl, (refl, (refl, (refl, (refl, (refl, (refl, (refl, (refl, (refl, tt)))))))))) h,
  parse_binary-str op str,
)
