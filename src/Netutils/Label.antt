-- ===== src/Netutils/Label.antt =====
-- The label of a VRF (pkg/netutils/mpls_label.go), with strings.ReplaceAll and strconv.Atoi of the
-- language on the code points of a text.
use Prim.Native.Char.{code}
use cloudgw.Netutils.{NetApi}
use cloudgw.Prelude.{
  Bool, List, Option, String, [], false, if◌then◌else◌, none, some, true, ℕ, ◌%◌, ◌^◌, ◌∷◌, ℤ, pos,
  negsuc, to_u32, arith, ◌-◌, ◌==◌, refl, ◌+◌, ◌&&◌, leb, ◌<◌, ◌*◌, suc, ◌≡◌, ltb, nat_Eq, ◌≤◌, ◌∙◌,
  inr, inl, Option-cases,
}

abbrev pub codes : String → List ℕ
codes String.[] = []
codes (String.◌∷◌ c s) = code c ∷ codes s

-- `strings.ReplaceAll(s, ".", "")`
unfoldable pub without_dots : List ℕ → List ℕ
without_dots [] = []
without_dots (c ∷ cs) = let rest = without_dots cs in if c == b'.' then rest else c ∷ rest

abbrev pub is_digit : ℕ → Bool
is_digit c = leb b'0' c && leb c b'9'

-- The value of digits, behind those that were read.
unfoldable pub read_digits : ℕ → List ℕ → Option ℕ
read_digits acc [] = some acc
read_digits acc (c ∷ cs) =
    let rest = read_digits (acc * 10 + (c - b'0')) cs in if is_digit c then rest else none

-- At least one digit, and a value in the range of a 64-bit integer.
abbrev pub signed : Bool → Option ℕ → Option ℤ
signed negative none = none
signed false (some n) = if ltb n (2 ^ 63) then some (pos n) else none
signed true (some n) =
    if n == 0 then some (pos 0) else if leb n (2 ^ 63) then some (negsuc (n - 1)) else none

unfoldable pub atoi : List ℕ → Option ℤ
unfolding read_digits
atoi [] = none
atoi (c ∷ []) = signed false (read_digits 0 (c ∷ []))
atoi (c ∷ d ∷ ds) =
    if c == b'-'
    then signed true (read_digits 0 (d ∷ ds))
    else if c == b'+'
    then signed false (read_digits 0 (d ∷ ds))
    else signed false (read_digits 0 (c ∷ d ∷ ds))

-- `z % 10000`, which has the sign of z
abbrev pub rem_10000 : ℤ → ℤ
rem_10000 (pos n) = pos (n % 10000)
rem_10000 (negsuc n) = if suc n % 10000 == 0 then pos 0 else negsuc (suc n % 10000 - 1)

unfoldable pub label_of : ℤ → ℕ
label_of z = (1000000 + to_u32 (rem_10000 z)) % 2 ^ 32

-- none stands for an error.
unfoldable pub mpls_label : NetApi → String → Option ℕ
unfolding without_dots atoi label_of
mpls_label n ip_prefix = elim (NetApi.parse_cidr n ip_prefix) [
  | none ↦ none
  | some (ip, net) ↦ elim (atoi (without_dots (codes (NetApi.show_ip n ip)))) [
    | none ↦ none
    | some z ↦ some (label_of z)
  ]
]

label_of_bounds : (z : ℤ) → (990000 < label_of z) × (label_of z < 1010000)
unfolding label_of
label_of_bounds (pos n) = omega arith
label_of_bounds (negsuc n) = ground arith

label_of-pos : (n : ℕ) → label_of (pos n) ≡ 1000000 + n % 10000
unfolding label_of
label_of-pos n = omega arith

-- The decimal value of digits.
pub value_of : ℕ → List ℕ → ℕ
value_of acc [] = acc
value_of acc (c ∷ cs) = value_of (acc * 10 + (c - b'0')) cs

abbrev pub all_digits : List ℕ → Bool
all_digits [] = true
all_digits (c ∷ cs) = is_digit c && all_digits cs

read_digits-value_of :
    (acc : ℕ) (cs : List ℕ) → all_digits cs ≡ true → read_digits acc cs ≡ some (value_of acc cs)
unfolding read_digits value_of
read_digits-value_of acc [] h = refl
read_digits-value_of acc (c ∷ cs) h =
    ground (arith, read_digits-value_of (acc * 10 + (c - b'0')) cs)

atoi-unsigned :
    (c d : ℕ) (ds : List ℕ)
    → (c == b'-') ≡ false
    → (c == b'+') ≡ false
    → atoi (c ∷ d ∷ ds) ≡ signed false (read_digits 0 (c ∷ d ∷ ds))
unfolding atoi
atoi-unsigned c d ds m p = rw (m, p) refl

signed-lt : (n : ℕ) → n < 2 ^ 63 → signed false (some n) ≡ some (pos n)
signed-lt n h = ground arith

atoi-value_of :
    (c : ℕ) (cs : List ℕ)
    → all_digits (c ∷ cs) ≡ true
    → value_of 0 (c ∷ cs) < 2 ^ 63
    → atoi (c ∷ cs) ≡ some (pos (value_of 0 (c ∷ cs)))
atoi-value_of c [] h b =
    let read : atoi (c ∷ []) ≡ signed false (read_digits 0 (c ∷ [])) = unfold atoi in refl in
    read ∙ rw (read_digits-value_of 0 (c ∷ []) h) (signed-lt _ b)
atoi-value_of c (d ∷ ds) h b =
    atoi-unsigned c d ds (ground arith) (ground arith)
    ∙ rw (read_digits-value_of 0 (c ∷ d ∷ ds) h) (signed-lt _ b)

module _ (n : NetApi) (ip_prefix : String) where
  label-cases : (l : ℕ) → mpls_label n ip_prefix ≡ some l → (z : ℤ) × (l ≡ label_of z)
  unfolding mpls_label
  label-cases l h = elim (Option-cases (NetApi.parse_cidr n ip_prefix)) [
    | inl e ↦ absurd (ground arith)
    | inr ((ip, net), e) ↦ elim (Option-cases (atoi (without_dots (codes (NetApi.show_ip n ip))))) [
      | inl f ↦ absurd (ground arith)
      | inr (z, f) ↦ (z, ground arith)
    ]
  ]

  -- Whatever the text of the address is, a label that is returned fits the 20 bits of a label, is
  -- none of the 16 reserved ones, and lies within ten thousand of a million.
  pub mpls_label_bounds :
      (l : ℕ)
      → mpls_label n ip_prefix ≡ some l
      → (16 ≤ l) × (990000 < l) × (l < 1010000) × (l < 2 ^ 20)
  mpls_label_bounds l h = let (z, e) = label-cases l h in omega (arith, label_of_bounds z)

  -- An address that is printed with digits and dots only has a label: a million and the
  -- last four of its digits.
  pub mpls_label-value_of :
      (ip : NetApi.Ip n) (net : NetApi.Net n) (c : ℕ) (cs : List ℕ)
      → NetApi.parse_cidr n ip_prefix ≡ some (ip, net)
      → without_dots (codes (NetApi.show_ip n ip)) ≡ c ∷ cs
      → all_digits (c ∷ cs) ≡ true
      → value_of 0 (c ∷ cs) < 2 ^ 63
      → mpls_label n ip_prefix ≡ some (1000000 + value_of 0 (c ∷ cs) % 10000)
  unfolding mpls_label
  mpls_label-value_of ip net c cs p w h b =
      rw (p, mpls_label, w, atoi-value_of c cs h b, label_of-pos (value_of 0 (c ∷ cs))) refl
