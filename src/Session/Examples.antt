-- ===== src/Session/Examples.antt =====
-- A session with a file of one record, and its packets.
use re_boot.Base.{ℕ, inl, inr, refl, arith, false, Option, none, some, List, [], ◌∷◌, All}
use re_boot.Pipeline.{HexRecord}
use re_boot.Pipeline.Segments.{total}
use re_boot.Transport.{Packet, serial}
use re_boot.Session.{Context, has_bytes, flash_addr, stored_segment_size}
use re_boot.Fsm.{Fsm}
use re_boot.Session.Loop.{session_start, session}
use re_boot.Session.Actions.{IsOk, Loaded, IsSane}
use re_boot.Session.Signals.{IsTrusted}
use re_boot.Session.Accepted.{IsAccepted}
use re_boot.Session.Target.{IsPlain, Finishes}
use re_boot.Session.Liveness.{session_start-Finishes}
use re_boot.Session.Loop.{signal_generation}
use re_boot.Session.Deaf.{NoAck, signal_generation-NoAck}
use re_boot.Session.Safety.{IsSound, session-IsSound}

abbrev two_bytes : HexRecord
two_bytes = record { address = 0x100; len = 2; bytes = 7 ∷ 9 ∷ []; kind = 0; checksum = 0 }

abbrev context : Context
context = record {
  records = two_bytes ∷ [];
  pipeline = record { sectors = []; sector_size = 0 };
  sector_size = 0;
  segment_size = 0;
  current_sector = 0;
  offset = 0;
  retry_count = 0;
  max_retries = 0;
  hex_base_address = 0x100;
  hex_end_address = 0x102;
  node_id = 2;
  fsm_running = false;
  copies = [];
  sent = [];
  fault = false;
}

abbrev reply : ℕ → List ℕ → Option Packet
reply command bytes = some (record { len = 8; command = command; bytes = bytes })

-- Flash from 0x100 on, sectors of four bytes, segments of two.
abbrev replies : List (Option Packet)
replies =
    reply 0x32 (0 ∷ 0 ∷ 1 ∷ 0 ∷ 0 ∷ 4 ∷ 0 ∷ 2 ∷ [])
    ∷ none
    ∷ reply 0x31 []
    ∷ reply 0x31 []
    ∷ reply 0x33 []
    ∷ reply 0x37 []
    ∷ []

context-Loaded : Loaded context.node_id context
unfolding Loaded IsOk total has_bytes
context-Loaded = ((refl, refl), refl, omega arith, omega arith)

replies-IsTrusted : All (IsTrusted context.node_id serial) replies
unfolding IsTrusted IsSane stored_segment_size
replies-IsTrusted = (
  inr (omega arith, omega arith, omega arith),
  (tt, (inl refl, (inl refl, (inl refl, (inl refl, tt))))),
)

session-IsSound_example : IsSound context.node_id (session serial replies (session_start context))
session-IsSound_example = session-IsSound serial _ _ context context-Loaded replies-IsTrusted

abbrev information : Packet
information = record { len = 8; command = 0x32; bytes = 0 ∷ 0 ∷ 1 ∷ 0 ∷ 0 ∷ 4 ∷ 0 ∷ 2 ∷ [] }

information-IsAccepted : IsAccepted serial context information
unfolding IsSane stored_segment_size flash_addr
information-IsAccepted = record {
  sane = (omega arith, omega arith, omega arith);
  own = refl;
  length_is = refl;
  image = omega arith;
  above = omega arith;
  small = omega arith;
}

context-IsPlain : IsPlain context.node_id
unfolding IsPlain
context-IsPlain = (refl, refl, refl)

session_start-Finishes_example : Finishes serial information (session_start context)
session_start-Finishes_example =
    session_start-Finishes serial information context context-Loaded information-IsAccepted
      context-IsPlain

-- The same for node 1.
abbrev first_node : Fsm Context
first_node = record { current = 3 ∷ []; user = record context { node_id = 1 }; queue = [] }

signal_generation-NoAck_example : All NoAck (signal_generation (reply 0x31 []) first_node).queue
signal_generation-NoAck_example = signal_generation-NoAck (reply 0x31 []) first_node refl tt
