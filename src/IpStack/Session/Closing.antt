-- ===== src/IpStack/Session/Closing.antt =====
-- src/ipstack/IPStack.cpp: what `connect` opens, `disconnect` closes.
use pico_drone.Common.{
  ℕ, ◌≡◌, Bool, true, false, List, [], ◌∷◌, ◌++◌, ◌==◌, if◌then◌else◌, length, ◌⊎◌,
}
use pico_drone.IpStack.Session.{
  Err, ok, err_arg, err_mem, err_abrt, PcbCall, tcp_arg, tcp_poll, tcp_sent, tcp_recv, tcp_err,
  tcp_connect, tcp_write, tcp_output, tcp_close, tcp_abort,
}

-- Which of the five callbacks and arguments of a pcb are registered.
pub record Registered : Type 0 where
  pub arg : Bool
  pub poll : Bool
  pub sent : Bool
  pub recv : Bool
  pub err : Bool

abbrev pub all_five : Bool → Registered
all_five on = record { arg = on; poll = on; sent = on; recv = on; err = on }

-- What a call does to those of the pcb `h`, and what a sequence of calls does.
abbrev pub register : ℕ → PcbCall → Registered → Registered
register h (tcp_arg h' on) k = if h' == h then record k { arg = on } else k
register h (tcp_poll h' on) k = if h' == h then record k { poll = on } else k
register h (tcp_sent h' on) k = if h' == h then record k { sent = on } else k
register h (tcp_recv h' on) k = if h' == h then record k { recv = on } else k
register h (tcp_err h' on) k = if h' == h then record k { err = on } else k
register h (tcp_connect h' addr port) k = k
register h (tcp_write h' bytes) k = k
register h (tcp_output h') k = k
register h (tcp_close h') k = k
register h (tcp_abort h') k = k

abbrev pub registered : ℕ → List PcbCall → Registered → Registered
registered h [] k = k
registered h (call ∷ calls) k = registered h calls (register h call k)

-- How a session without data ends: nothing was opened, or the pcb is closed.
abbrev pub IsClosed : ℕ → Err → List PcbCall → Err → List PcbCall → Type 0
IsClosed port e opening e' closing =
    ((opening ≡ []) × (closing ≡ []) × ((e ≡ err_arg) ⊎ (e ≡ err_mem)) × (e' ≡ ok))
    ⊎ ((h : ℕ) × (addr : List ℕ) × (on : List PcbCall) × (off : List PcbCall) × (last : List
          PcbCall)
        × (opening ≡ on ++ tcp_connect h addr port ∷ [])
        × (length on ≡ 5)
        × (registered h on (all_five false) ≡ all_five true)
        × (closing ≡ off ++ tcp_close h ∷ last)
        × (length off ≡ 5)
        × (registered h off (all_five true) ≡ all_five false)
        × (((last ≡ []) × (e' ≡ ok)) ⊎ ((last ≡ tcp_abort h ∷ []) × (e' ≡ err_abrt))))
