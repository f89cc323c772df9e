-- ===== src/Session/Accepted.antt =====
-- `act_target_info` with information that lets the session go on.
use re_boot.Base.{
  ℕ, ◌+◌, ◌*◌, ◌%◌, ◌^◌, ◌≤◌, ◌<◌, ◌≡◌, refl, arith, ltb, leb, ◌==◌, true, false, [], ◌∷◌, ◌++◌,
  length, get_or,
}
use re_boot.Transport.{Packet}
use re_boot.Fsm.{FsmEvent}
use re_boot.Session.{Context, event_of, flash_addr, target_info, act_target_info}
use re_boot.Session.Actions.{IsOk, Loaded, Sized, IsSane, copy_at-last}

-- The target's information that a session goes on with.
pub record IsAccepted (driver : ℕ) (c : Context) (pkt : Packet) : Type 0 where
  pub sane : IsSane driver pkt
  pub own : pkt.command ≡ (0x30 + c.node_id) % 256
  pub length_is : pkt.len ≡ 8
  pub image : c.hex_base_address < c.hex_end_address
  pub above : flash_addr pkt.bytes ≤ c.hex_base_address
  pub small : get_or pkt.bytes 4 0 * 2 ^ 8 + get_or pkt.bytes 5 0 < 2 ^ 31

-- The information is stored.
unfoldable pub Stored : ℕ → Context → Type 0
Stored node c = Sized node c × (c.sector_size < 2 ^ 31) × (c.fsm_running ≡ true)

target_info-Stored :
    (node driver : ℕ) (pkt : Packet) (c c0 : Context)
    → IsAccepted driver c0 pkt
    → c.hex_base_address ≡ c0.hex_base_address
    → c.hex_end_address ≡ c0.hex_end_address
    → Loaded node c
    → c.fsm_running ≡ true
    → (c' : Context) × (target_info driver pkt c ≡ (c', event_of 1 ∷ [])) × Stored node c'
unfolding target_info Stored Sized Loaded IsOk IsSane
target_info-Stored node driver pkt c c0 accepted base end loaded on =
    let (sector, one, room) = accepted.sane in
    let long : (pkt.len == 8) ≡ true = ground (arith, accepted.length_is) in
    let span : leb c.hex_end_address c.hex_base_address ≡ false = ground (arith, accepted.image) in
    let fits : ltb c.hex_base_address (flash_addr pkt.bytes) ≡ false =
      ground (arith, accepted.above) in
    rw (long, span, fits) (_, refl, ((loaded, sector, one, room), accepted.small, on))

-- Likewise where its copy is the last one.
pub act_target_info-Stored :
    (node driver : ℕ) (pkt : Packet) (c c0 : Context)
    → IsAccepted driver c0 pkt
    → c.hex_base_address ≡ c0.hex_base_address
    → c.hex_end_address ≡ c0.hex_end_address
    → Loaded node c
    → c.fsm_running ≡ true
    → let copied : Context = record c { copies = c.copies ++ pkt ∷ [] } in
      let e : FsmEvent = record { kind = 2; payload = length c.copies + 1 } in
      (c' : Context) × (act_target_info driver e copied ≡ (c', event_of 1 ∷ [])) × Stored node c'
unfolding act_target_info Loaded IsOk
act_target_info-Stored node driver pkt c c0 accepted base end loaded on =
    rw (copy_at-last c.copies pkt, act_target_info)
      (target_info-Stored node driver pkt (record c { copies = c.copies ++ pkt ∷ [] }) c0 accepted
        base end loaded on)
