-- ===== src/Transport/Loop.antt =====
-- The receive loop, one read at a time, over either parser.
use re_boot.Base.{ℕ, ◌≡◌, ap, some, List, ◌∷◌}
use re_boot.Transport.{Packet, Ret, Step, more, return, Read, receive_loop, after}

module _ {S : Type 0} (step : S → Packet → ℕ → Step S) where
  -- A byte after which the parser goes on.
  pub loop-more :
      (rx rx' : S) (pkt pkt' : Packet) (byte : ℕ) (reads : List Read)
      → step rx pkt byte ≡ more rx' pkt'
      → receive_loop step rx pkt (some byte ∷ reads) ≡ receive_loop step rx' pkt' reads
  unfolding receive_loop
  loop-more rx rx' pkt pkt' byte reads e =
      ap (after (λ rx' pkt'. receive_loop step rx' pkt' reads) reads) e

  -- A byte at which the call returns.
  pub loop-return :
      (rx rx' : S) (pkt pkt' : Packet) (ret : Ret) (byte : ℕ) (reads : List Read)
      → step rx pkt byte ≡ return ret rx' pkt'
      → receive_loop step rx pkt (some byte ∷ reads)
        ≡ record { ret = ret; rx = rx'; pkt = pkt'; rest = reads }
  unfolding receive_loop
  loop-return rx rx' pkt pkt' ret byte reads e =
      ap (after (λ rx' pkt'. receive_loop step rx' pkt' reads) reads) e
