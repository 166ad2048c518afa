-- ===== src/IpStack/Session.antt =====
-- src/ipstack/IPStack.cpp: `connect`, `write`, `disconnect` and the other callbacks.
pub mod Closing
use pico_drone.Common.{
  ℕ, Option, none, some, Bool, true, false, List, [], ◌∷◌, ◌++◌, ◌==◌, if◌then◌else◌, length,
}
use pico_drone.IpStack.{Stack}

-- `ERR_OK`, `ERR_ARG`, `ERR_MEM`, `ERR_ABRT`, or another error of lwIP by its absolute value.
pub data Err : Type 0 where
  ok err_arg err_mem err_abrt : Err
  lwip : ℕ → Err

-- The calls of lwIP on a pcb, in their order; a callback is registered (`true`) or taken off.
pub data PcbCall : Type 0 where
  tcp_arg tcp_poll tcp_sent tcp_recv tcp_err : ℕ → Bool → PcbCall
  tcp_connect : ℕ → List ℕ → ℕ → PcbCall
  tcp_write : ℕ → List ℕ → PcbCall
  tcp_output tcp_close tcp_abort : ℕ → PcbCall

-- What lwIP answers: the address that a text spells, a new pcb, and the errors (0 is ERR_OK).
pub record Net : Type 0 where
  pub aton : List ℕ → Option (List ℕ)
  pub new_pcb : Option ℕ
  pub connect_err : ℕ
  pub write_err : ℕ
  pub output_err : ℕ
  pub close_err : ℕ

abbrev pub err_of : ℕ → Err
err_of e = if e == 0 then ok else lwip e

abbrev pub hooks : ℕ → Bool → List PcbCall
hooks h on = tcp_arg h on ∷ tcp_poll h on ∷ tcp_sent h on ∷ tcp_recv h on ∷ tcp_err h on ∷ []

-- `connect (hostname, port)`
unfoldable pub connect : Net → Stack → List ℕ → ℕ → Err × (Stack × List PcbCall)
connect net s hostname port = elim (net.aton hostname) [
  | none ↦ (err_arg, (s, []))
  | some addr ↦ elim net.new_pcb [
    | none ↦ (err_mem, (record s { tcp_pcb = none }, []))
    | some h ↦ (
      err_of net.connect_err,
      (record s { tcp_pcb = some h }, hooks h true ++ tcp_connect h addr port ∷ []),
    )
  ]
]

-- `tcp_client_connected`, with the error that lwIP passes.
unfoldable pub tcp_client_connected : Stack → ℕ → Stack × Err
tcp_client_connected s err = (record s { connected = true }, ok)

-- `len`, -1 or -2.
pub data Written : Type 0 where
  wrote : ℕ → Written
  minus_one minus_two : Written

-- `write`, on the pcb `h`.
unfoldable pub write : Net → ℕ → List ℕ → Written × List PcbCall
write net h bytes =
    let rv = if net.write_err == 0 then wrote (length bytes) else minus_one in
    (if net.output_err == 0 then rv else minus_two, tcp_write h bytes ∷ tcp_output h ∷ [])

unfoldable pub disconnect : Net → Stack → Err × (Stack × List PcbCall)
disconnect net s = elim s.tcp_pcb [
  | none ↦ (ok, (s, []))
  | some h ↦
      let s' = record s { tcp_pcb = none } in
      let calls = hooks h false ++ tcp_close h ∷ [] in
      if net.close_err == 0 then (ok, (s', calls)) else (err_abrt, (s', calls ++ tcp_abort h ∷ []))
]
