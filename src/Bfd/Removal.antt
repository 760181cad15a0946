-- ===== src/Bfd/Removal.antt =====
-- The removal of a session (DelSession of pkg/bfd/control.go). The slice of sessions holds
-- pointers, and `append(c.sessions[:i], c.sessions[i+1:]...)` moves them within the array that the
-- loop still ranges over. A value is received from `clientQuit` only while the loop of the session
-- runs, so the second one sent to a session blocks for ever.
pub mod Shift
pub mod Removed
use cloudgw.Bfd.Lifecycle.{Process, on_client_quit}
use cloudgw.Bfd.Session.{close_conn}
use cloudgw.Bfd.Removal.Shift.{shift_left}
use cloudgw.Prelude.{
  Bool, List, Outcome, String, false, if◌then◌else◌, index, ltb, ok, panic, suc, true, zero, ℕ, ◌+◌,
  ◌-◌, ◌==◌, take, nat_Eq, string_Eq, Eq,
}

-- The sessions by their pointers, the array behind the slice, and the length of the slice.
pub record Control : Type 0 where
  pub process : ℕ → Process
  pub array : List ℕ
  pub count : ℕ

pub data Removal : Type 0 where
  returned blocked : Control → Removal

-- `c.sessions`
abbrev pub sessions_of : Control → List ℕ
sessions_of c = take c.count c.array

abbrev pub has_ip : String → Control → ℕ → Bool
has_ip ip c p = (c.process p).session.remote_ip == ip

-- `session.clientQuit <- true`, received by the loop of the session
unfoldable pub quit : ℕ → Control → Control
unfolding on_client_quit close_conn
quit p c = record c { process = λ q. if q == p then on_client_quit (c.process p) else c.process q }

-- `append(c.sessions[:i], c.sessions[i+1:]...)`; the second slice is out of range unless i is below
-- the length, and the deferred recover ends the call.
unfoldable pub remove_session : ℕ → Control → Outcome Control
unfolding shift_left
remove_session i c =
    if ltb i c.count
    then ok (record c { array = shift_left i (c.count - 1 - i) c.array; count = c.count - 1 })
    else panic

-- The loop with the rounds that are left; the range is that of the slice before the call.
unfoldable pub removal_loop : ℕ → ℕ → String → Control → Removal
unfolding quit remove_session
removal_loop zero i ip c = returned c
removal_loop (suc k) i ip c = elim (index c.array i) [
  | panic ↦ returned c
  | ok p ↦ elim (has_ip ip c p) [
    | false ↦ removal_loop k (i + 1) ip c
    | true ↦ elim (c.process p).looping [
      | false ↦ blocked c
      | true ↦ elim (remove_session i (quit p c)) [
        | panic ↦ returned (quit p c)
        | ok c' ↦ removal_loop k (i + 1) ip c'
      ]
    ]
  ]
]

unfoldable pub del_session : String → Control → Removal
unfolding removal_loop
del_session ip c = removal_loop c.count 0 ip c
