-- ===== src/Bfd/Removal/Shift.antt =====
-- Moving the entries of an array one place to the left, in place (DelSession of pkg/bfd/control.go).
use native.Mathlib.Nat.{zero-add, suc-add}
use cloudgw.Bfd.Control.{none_passes}
use cloudgw.Prelude.{
  Bool, List, [], ap, arith, false, length, refl, suc, true, zero, ℕ, ◌++◌, ◌+◌, ◌∷◌, ◌≡◌, take,
}

module _ {A : Type 0} where
  -- `copy(a[i:], a[i+1:i+1+n])`
  unfoldable pub shift_left : ℕ → ℕ → List A → List A
  shift_left i n [] = []
  shift_left zero n (x ∷ []) = x ∷ []
  shift_left zero zero (x ∷ y ∷ ys) = x ∷ y ∷ ys
  shift_left zero (suc n) (x ∷ y ∷ ys) = y ∷ shift_left zero n (y ∷ ys)
  shift_left (suc i) n (x ∷ xs) = x ∷ shift_left i n xs

  -- What the array holds from the place of a removed entry on.
  pub shifted : A → List A → List A
  shifted p [] = p ∷ []
  shifted p (y ∷ ys) = y ∷ shifted y ys

  shift_left-stays : (p : A) (spare : List A) → shift_left 0 0 (p ∷ spare) ≡ p ∷ spare
  unfolding shift_left
  shift_left-stays p [] = refl
  shift_left-stays p (x ∷ spare) = refl

  shift_left-zero :
      (p : A) (ys spare : List A)
      → shift_left 0 (length ys) (p ∷ (ys ++ spare)) ≡ shifted p ys ++ spare
  unfolding shifted shift_left
  shift_left-zero p [] spare = shift_left-stays p spare
  shift_left-zero p (y ∷ ys) spare = ap (λ l. y ∷ l) (shift_left-zero y ys spare)

  -- `spare` is the capacity behind the slice.
  pub shift_left-shifted :
      (xs : List A) (p : A) (ys spare : List A)
      → shift_left (length xs) (length ys) (xs ++ p ∷ (ys ++ spare)) ≡ xs ++ (shifted p ys ++ spare)
  unfolding shift_left
  shift_left-shifted [] p ys spare = shift_left-zero p ys spare
  shift_left-shifted (x ∷ xs) p ys spare = ap (λ l. x ∷ l) (shift_left-shifted xs p ys spare)

  -- The place of the removed entry, and the places after it.
  pub first_shifted : A → List A → A
  first_shifted p [] = p
  first_shifted p (y ∷ ys) = y

  unfoldable pub rest_shifted : A → List A → List A
  unfolding shifted
  rest_shifted p [] = []
  rest_shifted p (y ∷ ys) = shifted y ys

  pub shifted-split : (p : A) (ys : List A) → shifted p ys ≡ first_shifted p ys ∷ rest_shifted p ys
  unfolding shifted first_shifted rest_shifted
  shifted-split p [] = refl
  shifted-split p (y ∷ ys) = refl

  pub length-shifted : (p : A) (ys : List A) → length (shifted p ys) ≡ suc (length ys)
  unfolding shifted
  length-shifted p [] = refl
  length-shifted p (y ∷ ys) = ap suc (length-shifted y ys)

  pub length-rest_shifted : (p : A) (ys : List A) → length (rest_shifted p ys) ≡ length ys
  unfolding rest_shifted
  length-rest_shifted p [] = refl
  length-rest_shifted p (y ∷ ys) = length-shifted y ys

  take-shifted : (p : A) (ys spare : List A) → take (length ys) (shifted p ys ++ spare) ≡ ys
  unfolding shifted
  take-shifted p [] spare = refl
  take-shifted p (y ∷ ys) spare = ap (λ l. y ∷ l) (take-shifted y ys spare)

  pub take-append-shifted :
      (xs : List A) (p : A) (ys spare : List A)
      → take (length xs + length ys) (xs ++ (shifted p ys ++ spare)) ≡ xs ++ ys
  take-append-shifted [] p ys spare = rw (zero-add (length ys)) (take-shifted p ys spare)
  take-append-shifted (x ∷ xs) p ys spare =
      rw (suc-add (length xs) (length ys)) (ap (λ l. x ∷ l) (take-append-shifted xs p ys spare))

  -- Only the entries after the removed one are left in the array.
  none_passes-shifted :
      (test : A → Bool) (p : A) (ys : List A)
      → test p ≡ false
      → none_passes test ys ≡ true
      → none_passes test (shifted p ys) ≡ true
  unfolding shifted
  none_passes-shifted test p [] h n = rw h refl
  none_passes-shifted test p (y ∷ ys) h n = ground (arith, none_passes-shifted test y ys)

  pub none_passes-rest_shifted :
      (test : A → Bool) (p : A) (ys : List A)
      → none_passes test ys ≡ true
      → none_passes test (rest_shifted p ys) ≡ true
  unfolding rest_shifted
  none_passes-rest_shifted test p [] n = refl
  none_passes-rest_shifted test p (y ∷ ys) n =
      none_passes-shifted test y ys (ground arith) (ground arith)

  pub none_passes-rest_shifted_two :
      (test : A → Bool) (p q y : A) (zs : List A)
      → none_passes test (y ∷ zs) ≡ true
      → none_passes test (rest_shifted p (q ∷ y ∷ zs)) ≡ true
  unfolding rest_shifted shifted
  none_passes-rest_shifted_two test p q y zs n = ground (arith, none_passes-shifted test y zs)
