-- ===== src/Bfd/Removal/Removed.antt =====
-- What DelSession of pkg/bfd/control.go does to the slice of sessions.
use cloudgw.Bfd.Control.{none_passes}
use cloudgw.Bfd.Lifecycle.{on_client_quit}
use cloudgw.Bfd.Session.{close_conn}
use cloudgw.Bfd.Removal.{
  Control, returned, sessions_of, has_ip, quit, remove_session, removal_loop, del_session,
}
use cloudgw.Bfd.Removal.Shift.{
  shift_left, shifted, shift_left-shifted, rest_shifted, shifted-split, length-rest_shifted,
  first_shifted, take-append-shifted, none_passes-rest_shifted, none_passes-rest_shifted_two,
}
use native.Mathlib.Nat.{zero-add}
use mathlib.Core.Path.{fun_ext}
use mathlib.Core.List.{append_assoc}
use cloudgw.Prelude.{
  List, String, [], arith, false, index, length, length-append, ok, refl, suc, sym, true, ℕ, ◌++◌,
  ◌+◌, ◌-◌, ◌<◌, ◌∙◌, ◌∷◌, ◌≡◌, Bool-cases, inr, nat_eq_iff, ◌==◌, inl, nat_Eq, if◌then◌else◌, ap,
  subst,
}

index-append : (xs : List ℕ) (p : ℕ) (ys : List ℕ) → index (xs ++ p ∷ ys) (length xs) ≡ ok p
index-append [] p ys = refl
index-append (x ∷ xs) p ys = index-append xs p ys

-- The call returns: the slice is the two parts around the session, the session was told to quit,
-- and no other session was touched.
pub record IsRemoved (ip : String) (c : Control) (p : ℕ) (xs ys : List ℕ) : Type 0 where
  pub after : Control
  pub returns : del_session ip c ≡ returned after
  pub sessions : sessions_of after ≡ xs ++ ys
  pub stopped :
      (q : ℕ) → after.process q ≡ (if q == p then on_client_quit (c.process p) else c.process q)

module _ (ip : String) where
  removal_loop-skips :
      (k i p : ℕ) (c : Control)
      → index c.array i ≡ ok p
      → has_ip ip c p ≡ false
      → removal_loop (suc k) i ip c ≡ removal_loop k (i + 1) ip c
  unfolding removal_loop
  removal_loop-skips k i p c h e = rw (h, removal_loop, e) refl

  -- A stretch of sessions of other peers changes nothing.
  removal_loop-walks :
      (pre rest tail : List ℕ) (c : Control) (k n i : ℕ)
      → c.array ≡ pre ++ (rest ++ tail)
      → none_passes (has_ip ip c) rest ≡ true
      → n ≡ length rest + k
      → i ≡ length pre
      → removal_loop n i ip c ≡ removal_loop k (i + length rest) ip c
  removal_loop-walks pre [] tail c k n i a h e f =
      let n_k : n ≡ k = omega arith in let i_i : i + 0 ≡ i = omega arith in rw (n_k, i_i) refl
  removal_loop-walks pre (p ∷ rest) tail c k n i a h e f =
      let here : index c.array i ≡ ok p = rw (a, f) (index-append pre p (rest ++ tail)) in
      let other : has_ip ip c p ≡ false = ground arith in
      let n_suc : n ≡ suc (length rest + k) = omega arith in
      let moved : i + suc (length rest) ≡ i + 1 + length rest = omega arith in
      rw (n_suc, moved)
        (removal_loop-skips (length rest + k) i p c here other
          ∙ removal_loop-walks (pre ++ p ∷ []) rest tail c k (length rest + k) (i + 1)
              (a ∙ sym (append_assoc pre (p ∷ []) (rest ++ tail))) (ground arith) refl
              (omega (arith, length-append pre (p ∷ []))))

  remove_session-lt :
      (i : ℕ) (c : Control)
      → i < c.count
      → remove_session i c
        ≡ ok (record c { array = shift_left i (c.count - 1 - i) c.array; count = c.count - 1 })
  unfolding remove_session
  remove_session-lt i c h = ground arith

  removal_loop-removes :
      (k i p : ℕ) (c : Control)
      → index c.array i ≡ ok p
      → has_ip ip c p ≡ true
      → (c.process p).looping ≡ true
      → i < c.count
      → removal_loop (suc k) i ip c
        ≡ removal_loop k (i + 1) ip (record (quit p c) {
          array = shift_left i (c.count - 1 - i) c.array;
          count = c.count - 1;
        })
  unfolding removal_loop quit
  removal_loop-removes k i p c h e l b =
      rw (h, removal_loop, e, l, remove_session-lt i (quit p c) b) refl

  has_ip-quit :
      (p : ℕ) (c : Control) (a : List ℕ) (n q : ℕ)
      → has_ip ip (record (quit p c) { array = a; count = n }) q ≡ has_ip ip c q
  unfolding quit on_client_quit close_conn
  has_ip-quit p c a n q = elim (Bool-cases (q == p)) [
    | inl same ↦ rw (same, ← (nat_eq_iff q p).0 same) refl
    | inr other ↦ rw other refl
  ]

  module _ (c : Control) (xs : List ℕ) (p : ℕ) (ys spare : List ℕ)
      (whole : c.array ≡ xs ++ p ∷ (ys ++ spare)) (counted : c.count ≡ length xs + suc (length ys))
      (before : none_passes (has_ip ip c) xs ≡ true) (found : has_ip ip c p ≡ true)
      (running : (c.process p).looping ≡ true) where
    pub without : Control
    unfolding quit
    without = record (quit p c) {
      array = xs ++ (shifted p ys ++ spare);
      count = length xs + length ys;
    }

    at_place : index c.array (length xs) ≡ ok p
    at_place = rw whole (index-append xs p (ys ++ spare))

    after_place : c.count - 1 - length xs ≡ length ys
    after_place = omega arith

    less_one : c.count - 1 ≡ length xs + length ys
    less_one = omega arith

    without_lem :
        record (quit p c) {
          array = shift_left (length xs) (c.count - 1 - length xs) c.array;
          count = c.count - 1;
        }
        ≡ without
    unfolding without
    without_lem = rw (after_place, less_one, whole, shift_left-shifted xs p ys spare) refl

    reaches : del_session ip c ≡ removal_loop (length ys) (length xs + 1) ip without
    unfolding del_session
    reaches =
        let walked : removal_loop c.count 0 ip c ≡ removal_loop (suc (length ys)) (length xs) ip c =
          rw zero-add at (
            removal_loop-walks [] xs (p ∷ (ys ++ spare)) c (suc (length ys)) c.count 0 whole before
              counted refl) in
        walked
        ∙ removal_loop-removes (length ys) (length xs) p c at_place found running (omega arith)
        ∙ ap (removal_loop (length ys) (length xs + 1) ip) without_lem

    has_ip-without : has_ip ip without ≡ has_ip ip c
    unfolding without
    has_ip-without =
        fun_ext λ q. has_ip-quit p c (xs ++ (shifted p ys ++ spare)) (length xs + length ys) q

    array-without : without.array ≡ (xs ++ first_shifted p ys ∷ []) ++ (rest_shifted p ys ++ spare)
    unfolding without
    array-without =
        rw
          (
            shifted-split p ys,
            append_assoc xs (first_shifted p ys ∷ []) (rest_shifted p ys ++ spare),
          )
          refl

    -- The loop ends where no session that is still to come has the address.
    finishes :
        none_passes (has_ip ip c) (rest_shifted p ys) ≡ true → del_session ip c ≡ returned without
    unfolding removal_loop
    finishes n =
        reaches
        ∙ removal_loop-walks (xs ++ first_shifted p ys ∷ []) (rest_shifted p ys) spare without 0
            (length ys) (length xs + 1) array-without (rw has_ip-without n)
            (omega (arith, length-rest_shifted p ys))
            (omega (arith, length-append xs (first_shifted p ys ∷ [])))

    sessions_of-without : sessions_of without ≡ xs ++ ys
    unfolding without
    sessions_of-without = take-append-shifted xs p ys spare

    process-without :
        (q : ℕ) → without.process q ≡ (if q == p then on_client_quit (c.process p) else c.process q)
    unfolding without quit
    process-without q = refl

    removed : none_passes (has_ip ip c) (rest_shifted p ys) ≡ true → IsRemoved ip c p xs ys
    removed n = record {
      after = without;
      returns = finishes n;
      sessions = sessions_of-without;
      stopped = process-without;
    }

    -- A peer's session whose loop runs, with none of that peer before it nor behind it, is removed:
    -- its loop quits, and the other sessions stay, as they are and in their order.
    pub del_session-Removes : none_passes (has_ip ip c) ys ≡ true → IsRemoved ip c p xs ys
    del_session-Removes n = removed (none_passes-rest_shifted (has_ip ip c) p ys n)

    -- Of two sessions of a peer side by side, the second, q, is skipped by the loop and stays, where
    -- sessions of other peers follow.
    pub del_session-skips :
        (q y : ℕ) (zs : List ℕ)
        → ys ≡ q ∷ y ∷ zs
        → none_passes (has_ip ip c) (y ∷ zs) ≡ true
        → IsRemoved ip c p xs (q ∷ y ∷ zs)
    del_session-skips q y zs e n =
        subst (IsRemoved ip c p xs) e
          (removed (rw e (none_passes-rest_shifted_two (has_ip ip c) p q y zs n)))
