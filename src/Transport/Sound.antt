-- ===== src/Transport/Sound.antt =====
-- Whatever the receiver accepts was a whole frame on the wire.
use re_boot.Base.{ℕ, ◌≡◌, ◌≢◌, refl, sym, ap, ◌∙◌}
use re_boot.Base.{none, some}
use re_boot.Base.{List, [], ◌∷◌, ◌++◌, length, take, arith, All, inl, inr}
use re_boot.Base.{append_assoc}
use re_boot.Crc.Word16.{IsByte}
use re_boot.Transport.{Packet, StreamRx, received, bad_crc, Step, more, return, Read, Received}
use re_boot.Transport.{stream_byte, parser_reset}
use re_boot.Transport.{stream_frame, receive_loop, receive_stream, comm_max_data}
use re_boot.Transport.{start_byte, after, stopped, bad_length, overrun}
use re_boot.Transport.Inv.{reset-IsStreamRx, IsStreamRx, IsStreamStep, stream_byte-IsStreamStep}
use re_boot.Transport.Steps.{seen, IsHalf, Extends, stream_byte-Extends}

-- The bytes that the reads delivered.
abbrev pub bytes_of : List Read → List ℕ
bytes_of [] = []
bytes_of (none ∷ reads) = bytes_of reads
bytes_of (some byte ∷ reads) = byte ∷ bytes_of reads

stopped≢received : (n : ℕ) → stopped ≢ received n
stopped≢received n e = cc

-- The reads that a call made, what they delivered behind `start`, and the frame at its end.
pub record IsFramed (start : List ℕ) (reads : List Read) (n : ℕ) (r : Received StreamRx)
    : Type 0 where
  pub made : List Read
  pub junk : List ℕ
  pub split : reads ≡ made ++ r.rest
  pub framed :
      start ++ bytes_of made
      ≡ junk ++ stream_frame r.pkt.command r.pkt.len (take r.pkt.len r.pkt.bytes)
  pub no_start : All (λ b. b ≢ start_byte) junk
  pub value : n ≡ r.pkt.len

module _ (rx : StreamRx) (pkt : Packet) (byte : ℕ) (reads : List Read) (n : ℕ) where
  abbrev start : List ℕ
  start = seen rx.state rx pkt

  -- A byte that extends what was seen, and one that is passed over.
  kept-IsFramed :
      (rx' : StreamRx) (pkt' : Packet) (r : Received StreamRx)
      → seen rx'.state rx' pkt' ≡ start ++ byte ∷ []
      → IsFramed (seen rx'.state rx' pkt') reads n r
      → IsFramed start (some byte ∷ reads) n r
  kept-IsFramed rx' pkt' r e rest = record {
    made = some byte ∷ rest.made;
    junk = rest.junk;
    split = ap (λ (t : List Read). some byte ∷ t) rest.split;
    framed =
        sym (append_assoc start (byte ∷ []) (bytes_of rest.made))
        ∙ ap (λ (t : List ℕ). t ++ bytes_of rest.made) (sym e)
        ∙ rest.framed;
    no_start = rest.no_start;
    value = rest.value;
  }

  passed-IsFramed :
      (rx' : StreamRx) (pkt' : Packet) (r : Received StreamRx)
      → rx.state ≡ 0
      → rx'.state ≡ 0
      → byte ≢ start_byte
      → IsFramed (seen rx'.state rx' pkt') reads n r
      → IsFramed start (some byte ∷ reads) n r
  passed-IsFramed rx' pkt' r e e' ne rest = record {
    made = some byte ∷ rest.made;
    junk = byte ∷ rest.junk;
    split = ap (λ (t : List Read). some byte ∷ t) rest.split;
    framed =
        ap (λ s. seen s rx pkt ++ byte ∷ bytes_of rest.made) e
        ∙ ap (λ (t : List ℕ). byte ∷ t)
            (ap (λ s. seen s rx' pkt' ++ bytes_of rest.made) (sym e') ∙ rest.framed);
    no_start = (ne, rest.no_start);
    value = rest.value;
  }

  after-IsFramed :
      (again : StreamRx → Packet → Received StreamRx) (s : Step StreamRx)
      → IsStreamStep s
      → Extends rx pkt byte s
      → ((rx' : StreamRx) (pkt' : Packet)
          → IsStreamRx rx' pkt'
          → IsHalf rx' pkt'
          → (again rx' pkt').ret ≡ received n
          → IsFramed (seen rx'.state rx' pkt') reads n (again rx' pkt'))
      → (after again reads s).ret ≡ received n
      → IsFramed start (some byte ∷ reads) n (after again reads s)
  after-IsFramed again (more rx' pkt') v (half, inl e) ih h =
      kept-IsFramed rx' pkt' (again rx' pkt') e (ih rx' pkt' v half h)
  after-IsFramed again (more rx' pkt') v (half, inr (e, e', ne)) ih h =
      passed-IsFramed rx' pkt' (again rx' pkt') e e' ne (ih rx' pkt' v half h)
  after-IsFramed again (return (received m) rx' pkt') v (len, e) ih h = record {
    made = some byte ∷ [];
    junk = [];
    split = refl;
    framed = e;
    no_start = tt;
    value = ground arith;
  }
  after-IsFramed again (return stopped rx' pkt') v e ih h = cc
  after-IsFramed again (return bad_length rx' pkt') v e ih h = cc
  after-IsFramed again (return bad_crc rx' pkt') v e ih h = cc
  after-IsFramed again (return overrun rx' pkt') v e ih h = cc

receive_IsFramed :
    (rx : StreamRx) (pkt : Packet) (reads : List Read) (n : ℕ)
    → IsStreamRx rx pkt
    → IsHalf rx pkt
    → All IsByte (bytes_of reads)
    → (receive_stream rx pkt reads).ret ≡ received n
    → IsFramed (seen rx.state rx pkt) reads n (receive_stream rx pkt reads)
unfolding receive_loop receive_stream
receive_IsFramed rx pkt [] n v half hb h = absurd (stopped≢received n h)
receive_IsFramed rx pkt (none ∷ reads) n v half hb h =
    let rest = receive_IsFramed rx pkt reads n v half hb h in
    record {
      made = none ∷ rest.made;
      junk = rest.junk;
      split = ap (λ (t : List Read). none ∷ t) rest.split;
      framed = rest.framed;
      no_start = rest.no_start;
      value = rest.value;
    }
receive_IsFramed rx pkt (some byte ∷ reads) n v half hb h =
    after-IsFramed rx pkt byte reads n (λ rx' pkt'. receive_stream rx' pkt' reads)
      (stream_byte rx pkt byte) (stream_byte-IsStreamStep rx pkt byte v)
      (stream_byte-Extends rx.state rx.index rx.len rx.crc pkt byte v half hb.0)
      (λ rx' pkt' v' half' h'. receive_IsFramed rx' pkt' reads n v' half' hb.1 h') h

-- If `transport_receive`, called with the serial, TCP and UDP parser reset, returns a length n, then
-- n is the packet's length, and the bytes that it read are bytes that are no start byte and behind
-- them exactly the frame that `transport_send` builds of the packet.
pub receive_stream-IsFramed :
    (pkt : Packet) (reads : List Read) (n : ℕ)
    → length pkt.bytes ≡ comm_max_data
    → All IsByte (bytes_of reads)
    → (receive_stream parser_reset pkt reads).ret ≡ received n
    → IsFramed [] reads n (receive_stream parser_reset pkt reads)
unfolding parser_reset
receive_stream-IsFramed pkt reads n size hb h =
    receive_IsFramed parser_reset pkt reads n (reset-IsStreamRx pkt size) (ground arith) hb h
