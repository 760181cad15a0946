-- ===== src/Service/Peers/Totals.antt =====
-- Sums over the addresses of the peers that an event may name
-- (internal/service/handle_bgp_update.go).
use cloudgw.Prelude.{
  Bool, Bool-cases, List, String, [], absent, arith, false, inl, inr, length, refl, string_Eq, true,
  ℕ, ◌+◌, ◌==◌, ◌∷◌, ◌≡◌, ◌≤◌, ◌∙◌, ap, subst,
}

abbrev pub bit : Bool → ℕ
bit true = 1
bit false = 0

abbrev pub total : (String → ℕ) → List String → ℕ
total g [] = 0
total g (x ∷ xs) = g x + total g xs

-- No address occurs twice.
abbrev pub Distinct : List String → Type 0
Distinct [] = Unit
Distinct (x ∷ xs) = (absent x xs ≡ true) × Distinct xs

pub equal_sym : (a b : String) → (a == b) ≡ (b == a)
equal_sym a b = grind (arith, string_Eq.beq_iff a b, string_Eq.beq_iff b a)

module _ (g h : String → ℕ) (ip : String)
    (same : (j : String) → (ip == j) ≡ false → h j ≡ g j) where
  pub total-same : (xs : List String) → absent ip xs ≡ true → total h xs ≡ total g xs
  total-same [] a = refl
  total-same (x ∷ xs) a = elim (Bool-cases (x == ip)) [
    | inl e ↦ absurd (ground arith)
    | inr e ↦ omega (arith, same x (equal_sym ip x ∙ e), total-same xs (ground arith))
  ]

  pub total-update :
      (xs : List String)
      → Distinct xs
      → absent ip xs ≡ false
      → total h xs + g ip ≡ total g xs + h ip
  total-update [] d a = absurd (ground arith)
  total-update (x ∷ xs) d a = elim (Bool-cases (x == ip)) [
    | inl e ↦
        let p : x ≡ ip = (string_Eq.beq_iff x ip).0 e in
        omega
          (arith, total-same xs (subst (λ (y : String). absent y xs ≡ true) p d.0), ap g p, ap h p)
    | inr e ↦ omega (arith, same x (equal_sym ip x ∙ e), total-update xs d.1 (ground arith))
  ]

  pub total-member : (xs : List String) → absent ip xs ≡ false → g ip ≤ total g xs
  total-member [] a = absurd (ground arith)
  total-member (x ∷ xs) a = elim (Bool-cases (x == ip)) [
    | inl e ↦ omega (arith, ap g ((string_Eq.beq_iff x ip).0 e))
    | inr e ↦ omega (arith, total-member xs (ground arith))
  ]

pub total-bound :
    (g : String → ℕ) → ((j : String) → g j ≤ 1) → (xs : List String) → total g xs ≤ length xs
total-bound g b [] = omega arith
total-bound g b (x ∷ xs) = omega (arith, b x, total-bound g b xs)

pub total-ext :
    (g h : String → ℕ) → ((j : String) → h j ≡ g j) → (xs : List String) → total h xs ≡ total g xs
total-ext g h e [] = refl
total-ext g h e (x ∷ xs) = omega (arith, e x, total-ext g h e xs)
