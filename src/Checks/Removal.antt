-- ===== src/Checks/Removal.antt =====
-- Sessions of three peers, and the removal of one (pkg/bfd/control.go).
use cloudgw.Bfd.Lifecycle.{Process}
use cloudgw.Bfd.Removal.{Control}
use cloudgw.Bfd.Removal.Removed.{IsRemoved, del_session-Removes, del_session-skips}
use cloudgw.Checks.Sessions.{live_session}
use cloudgw.Prelude.{String, [], false, if◌then◌else◌, refl, true, ◌==◌, ◌∷◌, nat_Eq}

abbrev process_of : String → Process
process_of ip = record {
  session = record live_session { remote_ip = ip };
  started = true;
  looping = true;
  detecting = false;
}

-- The sessions at 0 and 1 are of one peer, or of two.
abbrev control : String → Control
control second = record {
  process = λ q.
      if q == 0
      then process_of "10.0.0.8"
      else if q == 1
      then process_of second
      else process_of "10.0.0.9";
  array = 0 ∷ 1 ∷ 2 ∷ 0 ∷ [];
  count = 3;
}

del_session-Removes_example : IsRemoved "10.0.0.7" (control "10.0.0.7") 1 (0 ∷ []) (2 ∷ [])
del_session-Removes_example =
    del_session-Removes "10.0.0.7" (control "10.0.0.7") (0 ∷ []) 1 (2 ∷ []) (0 ∷ []) refl refl refl
      refl refl refl

del_session-skips_example : IsRemoved "10.0.0.8" (control "10.0.0.8") 0 [] (1 ∷ 2 ∷ [])
del_session-skips_example =
    del_session-skips "10.0.0.8" (control "10.0.0.8") [] 0 (1 ∷ 2 ∷ []) (0 ∷ []) refl refl refl refl
      refl 1 2 [] refl refl
