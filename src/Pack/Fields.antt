-- ===== src/Pack/Fields.antt =====
-- What a successful reading of one field says about the bytes of the packet.
use csp_proc.Common.{
  ℕ, zero, suc, ◌^◌, ◌<◌, ◌≡◌, refl, sym, ap, subst, ◌∙◌, List, [], ◌∷◌, ◌++◌, append_assoc, length,
  All, arith,
}
use csp_proc.Common.Bytes.{IsByte, bytes_of, bytes_of-value_of, value_of-lt}
use csp_proc.Types.{
  ComparisonOp, comparison_code, comparison_of, comparison_code-of, unary_code-of, binary_code-of,
  Payload, type_code, IsText, IsValidPayload,
}
use csp_proc.Pack.{
  Outcome, past_end, unknown_type, done, ◌>>=◌, get_bytes, get_number, get_string, get_comparison,
  get_set, get_unop, get_binop, get_call,
}
use csp_proc.Pack.Format.{encode_string, encode_payload}

pub >>=-elim {ℓ κ} :
    {A : Type ℓ} {B : Type κ} (R : Type 0) (m : Outcome A) {f : A → List ℕ → Outcome B} {b : B}
    {rest : List ℕ}
    → (m >>= f) ≡ done b rest
    → ((a : A) (mid : List ℕ) → m ≡ done a mid → f a mid ≡ done b rest → R)
    → R
>>=-elim R past_end h k = cc
>>=-elim R unknown_type h k = cc
>>=-elim R (done a mid) h k = k a mid refl h

-- `d` is the bytes of a good `a` followed by `rest`, and the rest are bytes too.
pub record Reads {ℓ} {A : Type ℓ} (encode : A → List ℕ) (IsGood : A → Type 0) (a : A)
    (d rest : List ℕ) : Type 0 where
  pub good : IsGood a
  pub tail : All IsByte rest
  pub split : d ≡ encode a ++ rest

module _ {ℓ} {A : Type ℓ} {encode : A → List ℕ} {IsGood : A → Type 0} where
  pub Reads-done :
      (a b : A) (r s : List ℕ) {d : List ℕ}
      → done a r ≡ done b s
      → Reads encode IsGood a d r
      → Reads encode IsGood b d s
  Reads-done a b r s {d} h x =
      let e : a ≡ b = cc in
      let e' : r ≡ s = cc in
      subst (λ y. Reads encode IsGood y d s) e (subst (λ y. Reads encode IsGood a d y) e' x)

pub get_bytes_inv :
    (n : ℕ) (d : List ℕ) {bs rest : List ℕ}
    → All IsByte d
    → get_bytes n d ≡ done bs rest
    → Reads (λ xs. xs) (λ xs. (length xs ≡ n) × All IsByte xs) bs d rest
unfolding get_bytes
get_bytes_inv zero d hd h =
    Reads-done _ _ _ _ h (record { good = (refl, tt); tail = hd; split = refl })
get_bytes_inv (suc n) [] hd h = cc
get_bytes_inv (suc n) (b ∷ d) hd h = >>=-elim _ (get_bytes n d) h λ bs mid e last.
    let ih = get_bytes_inv n d hd.1 e in
    Reads-done _ _ _ _ last (record {
      good = (ap suc ih.good.0, (hd.0, ih.good.1));
      tail = ih.tail;
      split = ap (λ (xs : List ℕ). b ∷ xs) ih.split;
    })

pub get_number_inv :
    (n : ℕ) (d : List ℕ) {v : ℕ} {rest : List ℕ}
    → All IsByte d
    → get_number n d ≡ done v rest
    → Reads (bytes_of n) (λ x. x < 256 ^ n) v d rest
unfolding get_number
get_number_inv n d hd h = >>=-elim _ (get_bytes n d) h λ bs mid e last.
    let ih = get_bytes_inv n d hd e in
    Reads-done _ _ _ _ last (record {
      good = rw (← ih.good.0) (value_of-lt bs ih.good.1);
      tail = ih.tail;
      split = rw (← ih.good.0) (rw (bytes_of-value_of bs ih.good.1) ih.split);
    })

pub get_string_inv :
    (d : List ℕ) {s rest : List ℕ}
    → All IsByte d
    → get_string d ≡ done s rest
    → Reads encode_string IsText s d rest
unfolding get_string
get_string_inv [] hd h = cc
get_string_inv (zero ∷ d) hd h =
    Reads-done _ _ _ _ h (record { good = tt; tail = hd.1; split = refl })
get_string_inv (suc c ∷ d) hd h = >>=-elim _ (get_string d) h λ s mid e last.
    let ih = get_string_inv d hd.1 e in
    Reads-done _ _ _ _ last (record {
      good = ((omega arith, hd.0), ih.good);
      tail = ih.tail;
      split = ap (λ (xs : List ℕ). suc c ∷ xs) ih.split;
    })

-- Two parts read one after the other.
pub split_two :
    (x y rest : List ℕ) {d mid : List ℕ} → d ≡ x ++ mid → mid ≡ y ++ rest → d ≡ (x ++ y) ++ rest
split_two x y rest p q = p ∙ ap (λ (t : List ℕ). x ++ t) q ∙ sym (append_assoc x y rest)

-- A valid union under the tag `k`.
abbrev pub IsTagged : ℕ → Payload → Type 0
IsTagged k p = IsValidPayload p × (type_code p ≡ k)

unfoldable pub encode_comparison : List ℕ → ComparisonOp → List ℕ → List ℕ
encode_comparison a op b = encode_string a ++ (bytes_of 4 (comparison_code op) ++ encode_string b)

module _ (k : ℕ) (make : List ℕ → ComparisonOp → List ℕ → Payload)
    (make_bytes : (a : List ℕ) (op : ComparisonOp) (b : List ℕ)
      → encode_payload (make a op b) ≡ encode_comparison a op b)
    (make_good : (a : List ℕ) (op : ComparisonOp) (b : List ℕ)
      → IsText a
      → comparison_code op < 2 ^ 32
      → IsText b
      → IsTagged k (make a op b)) where
  pub get_comparison_inv :
      (d : List ℕ) {p : Payload} {rest : List ℕ}
      → All IsByte d
      → get_comparison make d ≡ done p rest
      → Reads encode_payload (IsTagged k) p d rest
  unfolding get_comparison
  get_comparison_inv d hd h = >>=-elim _ (get_string d) h λ a r₁ e₁ h₁.
      let x = get_string_inv d hd e₁ in
      >>=-elim _ (get_number 4 r₁) h₁ λ n r₂ e₂ h₂.
        let y = get_number_inv 4 r₁ x.tail e₂ in
        >>=-elim _ (get_string r₂) h₂ λ b r₃ e₃ h₃.
          let z = get_string_inv r₂ y.tail e₃ in
          Reads-done _ _ _ _ h₃ (record {
            good = make_good a (comparison_of n) b x.good (rw (comparison_code-of n) y.good) z.good;
            tail = z.tail;
            split = rw (make_bytes a (comparison_of n) b) (
                unfold encode_comparison in
                rw (comparison_code-of n) (
                  split_two (encode_string a) (bytes_of 4 n ++ encode_string b) r₃ x.split
                    (split_two (bytes_of 4 n) (encode_string b) r₃ y.split z.split)));
          })

pub get_set_inv :
    (d : List ℕ) {p : Payload} {rest : List ℕ}
    → All IsByte d
    → get_set d ≡ done p rest
    → Reads encode_payload (IsTagged 2) p d rest
unfolding get_set encode_payload
get_set_inv d hd h = >>=-elim _ (get_string d) h λ a r₁ e₁ h₁.
    let x = get_string_inv d hd e₁ in
    >>=-elim _ (get_string r₁) h₁ λ b r₂ e₂ h₂.
      let y = get_string_inv r₁ x.tail e₂ in
      Reads-done _ _ _ _ h₂ (record {
        good = ((x.good, y.good), refl);
        tail = y.tail;
        split = split_two (encode_string a) (encode_string b) r₂ x.split y.split;
      })

pub get_unop_inv :
    (d : List ℕ) {p : Payload} {rest : List ℕ}
    → All IsByte d
    → get_unop d ≡ done p rest
    → Reads encode_payload (IsTagged 3) p d rest
unfolding get_unop encode_payload
get_unop_inv d hd h = >>=-elim _ (get_string d) h λ a r₁ e₁ h₁.
    let x = get_string_inv d hd e₁ in
    >>=-elim _ (get_number 4 r₁) h₁ λ n r₂ e₂ h₂.
      let y = get_number_inv 4 r₁ x.tail e₂ in
      >>=-elim _ (get_string r₂) h₂ λ b r₃ e₃ h₃.
        let z = get_string_inv r₂ y.tail e₃ in
        Reads-done _ _ _ _ h₃ (record {
          good = ((x.good, rw (unary_code-of n) y.good, z.good), refl);
          tail = z.tail;
          split = rw (unary_code-of n) (
              split_two (encode_string a) (bytes_of 4 n ++ encode_string b) r₃ x.split
                (split_two (bytes_of 4 n) (encode_string b) r₃ y.split z.split));
        })

pub get_binop_inv :
    (d : List ℕ) {p : Payload} {rest : List ℕ}
    → All IsByte d
    → get_binop d ≡ done p rest
    → Reads encode_payload (IsTagged 4) p d rest
unfolding get_binop encode_payload
get_binop_inv d hd h = >>=-elim _ (get_string d) h λ a r₁ e₁ h₁.
    let x = get_string_inv d hd e₁ in
    >>=-elim _ (get_number 4 r₁) h₁ λ n r₂ e₂ h₂.
      let y = get_number_inv 4 r₁ x.tail e₂ in
      >>=-elim _ (get_string r₂) h₂ λ b r₃ e₃ h₃.
        let z = get_string_inv r₂ y.tail e₃ in
        >>=-elim _ (get_string r₃) h₃ λ c r₄ e₄ h₄.
          let w = get_string_inv r₃ z.tail e₄ in
          let last = encode_string b ++ encode_string c in
          Reads-done _ _ _ _ h₄ (record {
            good = ((x.good, rw (binary_code-of n) y.good, z.good, w.good), refl);
            tail = w.tail;
            split = rw (binary_code-of n) (
                split_two (encode_string a) (bytes_of 4 n ++ last) r₄ x.split (
                  split_two (bytes_of 4 n) last r₄ y.split
                    (split_two (encode_string b) (encode_string c) r₄ z.split w.split)));
          })

pub get_call_inv :
    (d : List ℕ) {p : Payload} {rest : List ℕ}
    → All IsByte d
    → get_call d ≡ done p rest
    → Reads encode_payload (IsTagged 5) p d rest
unfolding get_call encode_payload
get_call_inv d hd h = >>=-elim _ (get_number 1 d) h λ n r₁ e₁ h₁.
    let x = get_number_inv 1 d hd e₁ in
    Reads-done _ _ _ _ h₁ (record { good = (x.good, refl); tail = x.tail; split = x.split })
