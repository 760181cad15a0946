-- ===== src/Vpp/Dumps/Ends.antt =====
-- The loops of the dumps (internal/repository/vpp/vpp.go) over a forwarder that sends finitely many
-- messages before the reply to the control ping.
use cloudgw.Govpp.{SetupRequest, control_ping, control_ping_reply}
use cloudgw.Imdb.Memdb.{value}
use cloudgw.Vpp.{Reply, VppApi, setup, setup_reply}
use cloudgw.Vpp.Dumps.{Round, collected, dump, dump_loop, ended, more}
use cloudgw.Prelude.{List, [], arith, length, map, none, refl, suc, zero, ℕ, ◌<◌, ◌∷◌, ◌≡◌}

-- The rounds of a loop over the messages.
unfoldable pub fold_rounds {ℓ κ} : {X : Type ℓ} {A : Type κ} → (X → A → A) → A → List X → A
fold_rounds f a [] = a
fold_rounds f a (x ∷ xs) = fold_rounds f (f x a) xs

module _ (v : VppApi) where
  open v use {Address, Prefix, Stream, send, recv}

  -- The stream delivers the messages and then the reply to the ping.
  abbrev pub Serves : List Reply → Stream → Type 0
  Serves [] st = (recv st).0 ≡ value (setup_reply control_ping_reply)
  Serves (x ∷ xs) st = ((recv st).0 ≡ value x) × Serves xs (recv st).1

  -- The stream after them.
  abbrev pub served : List Reply → Stream → Stream
  served [] st = (recv st).1
  served (x ∷ xs) st = served xs (recv st).1

  -- The stream after the two requests of a dump.
  abbrev pub asked : SetupRequest Address Prefix → Stream → Stream
  asked r st = (send (setup control_ping) (send (setup r) st).1).1

  -- The stream takes both requests of a dump and delivers the messages.
  pub record Answered (r : SetupRequest Address Prefix) (xs : List Reply) (st : Stream)
      : Type 0 where
    pub request : (send (setup r) st).0 ≡ none
    pub ping : (send (setup control_ping) (send (setup r) st).1).0 ≡ none
    pub messages : Serves xs (asked r st)

  module _ {ℓ κ} {X : Type ℓ} {A : Type κ} (on : Reply → A → Round A) (msg : X → Reply)
      (f : X → A → A) (ends : (a : A) → on (setup_reply control_ping_reply) a ≡ ended)
      (goes : (x : X) (a : A) → on (msg x) a ≡ more (f x a)) where
    pub dump_loop-ends :
        (xs : List X) (fuel : ℕ) (a : A) (st : Stream)
        → Serves (map msg xs) st
        → length xs < fuel
        → dump_loop v on fuel a st ≡ (collected (fold_rounds f a xs), served (map msg xs) st)
    unfolding dump_loop fold_rounds
    dump_loop-ends xs zero a st s h = absurd (omega (arith, h))
    dump_loop-ends [] (suc fuel) a st s h = rw (s, ends a, dump_loop) refl
    dump_loop-ends (x ∷ xs) (suc fuel) a st s h =
        rw (s.0, goes x a, dump_loop)
          (dump_loop-ends xs fuel (f x a) (recv st).1 s.1 (omega (arith, h)))

    pub dump-ends :
        (r : SetupRequest Address Prefix) (xs : List X) (fuel : ℕ) (d a : A) (st : Stream)
        → Answered r (map msg xs) st
        → length xs < fuel
        → dump v on r fuel d a st
          ≡ (collected (fold_rounds f a xs), served (map msg xs) (asked r st))
    unfolding dump
    dump-ends r xs fuel d a st s h =
        rw (s.request, s.ping, dump) (dump_loop-ends xs fuel a (asked r st) s.messages h)
