-- ===== src/TcpServer.antt =====
-- src/src/Network/tcpserver.cpp: the server's pcb and the life of a connection.
pub mod Pages
pub mod Config
pub mod AccessPoint
pub mod Contract
pub mod Response
pub mod Requests
pub mod Acks
pub mod Wifi
mod Tests
use pico_drone.Common.{
  ℕ, ◌+◌, Option, none, some, Bool, true, false, List, [], ◌∷◌, ◌++◌, ◌==◌, leb, if◌then◌else◌, not,
  take, replicate,
}

-- `ERR_OK`, `ERR_MEM`, `ERR_VAL`, `ERR_ABRT`, `ERR_CLSD`, or another error of lwIP by its absolute
-- value.
pub data Err : Type 0 where
  ok err_mem err_val err_abrt err_clsd : Err
  lwip : ℕ → Err

-- The calls of lwIP and of the C library, in their order; a callback is registered (`true`) or
-- taken off. `free` is that of a `TCP_CONNECT_STATE_T`, `gpio_set` sets the LED.
pub data Call : Type 0 where
  tcp_arg tcp_poll tcp_sent tcp_recv tcp_err tcp_accept : ℕ → Bool → Call
  tcp_write : ℕ → List ℕ → Call
  tcp_recved : ℕ → ℕ → Call
  tcp_close tcp_abort : ℕ → Call
  pbuf_free free : Call
  gpio_set : Bool → Call

-- `TCP_CONNECT_STATE_T`; `gw` is what `ipaddr_ntoa` prints of it.
pub record Connection : Type 0 where
  pub pcb : ℕ
  pub sent_len : ℕ
  pub headers : List ℕ
  pub result : List ℕ
  pub header_len : ℕ
  pub result_len : ℕ
  pub gw : List ℕ

-- What a callback returns, the state of the connection (`none` once it is freed), and its calls.
pub record Outcome : Type 0 where
  pub err : Err
  pub con : Option Connection
  pub calls : List Call

-- `TCP_SERVER_T`, `gw` as above.
pub record Server : Type 0 where
  pub server_pcb : Option ℕ
  pub complete : Bool
  pub gw : List ℕ

-- What lwIP and `calloc` answer: errors by their absolute value, 0 for ERR_OK.
pub record Net : Type 0 where
  pub close_err : ℕ
  pub header_err : ℕ
  pub result_err : ℕ
  pub new_pcb : Option ℕ
  pub bind_err : ℕ
  pub listen_pcb : Option ℕ
  pub has_memory : Bool

abbrev pub err_of : ℕ → Err
err_of e = if e == 0 then ok else lwip e

abbrev pub hooks_off : ℕ → List Call
hooks_off h =
    tcp_arg h false ∷ tcp_poll h false ∷ tcp_sent h false ∷ tcp_recv h false ∷ tcp_err h false ∷ []

-- The pcb is the one of the connection, which the code asserts to be there.
unfoldable pub tcp_close_client_connection : Net → ℕ → Err → Outcome
tcp_close_client_connection net h close_err =
    if net.close_err == 0
    then record { err = close_err; con = none; calls = hooks_off h ++ tcp_close h ∷ free ∷ [] }
    else record {
      err = err_abrt;
      con = none;
      calls = hooks_off h ++ tcp_close h ∷ tcp_abort h ∷ free ∷ [];
    }

unfoldable pub tcp_server_close : Server → Server × List Call
tcp_server_close s = elim s.server_pcb [
  | none ↦ (s, [])
  | some h ↦ (record s { server_pcb = none }, tcp_arg h false ∷ tcp_close h ∷ [])
]

unfoldable pub tcp_server_sent : Net → Connection → ℕ → Outcome
tcp_server_sent net con len =
    let con' = record con { sent_len = con.sent_len + len } in
    if leb (con'.header_len + con'.result_len) con'.sent_len
    then tcp_close_client_connection net con.pcb ok
    else record { err = ok; con = some con'; calls = [] }

unfoldable pub tcp_server_poll : Net → Connection → Outcome
tcp_server_poll net con = tcp_close_client_connection net con.pcb ok

-- The error callback returns nothing; `ok` stands for that.
unfoldable pub tcp_server_err : Net → Connection → Err → Outcome
tcp_server_err net con err_abrt = record { err = ok; con = some con; calls = [] }
tcp_server_err net con e = record (tcp_close_client_connection net con.pcb e) { err = ok }

-- From the writes of `tcp_server_recv` on.
unfoldable pub respond : Net → Connection → ℕ → Outcome
respond net con tot_len =
    let con' = record con { sent_len = 0 } in
    let header = tcp_write con.pcb (take con.header_len con.headers) in
    let result = tcp_write con.pcb (take con.result_len con.result) in
    let done : Outcome = record {
      err = ok;
      con = some con';
      calls =
          header ∷ (if con.result_len == 0 then [] else result ∷ [])
          ++ tcp_recved con.pcb tot_len ∷ pbuf_free ∷ [];
    } in
    let failed_header = tcp_close_client_connection net con.pcb (lwip net.header_err) in
    let failed_result = tcp_close_client_connection net con.pcb (lwip net.result_err) in
    if not (net.header_err == 0)
    then record failed_header { calls = header ∷ failed_header.calls }
    else if con.result_len == 0
    then done
    else if not (net.result_err == 0)
    then record failed_result { calls = header ∷ result ∷ failed_result.calls }
    else done

abbrev pub hooks_on : ℕ → List Call
hooks_on h =
    tcp_arg h true ∷ tcp_sent h true ∷ tcp_recv h true ∷ tcp_poll h true ∷ tcp_err h true ∷ []

-- `tcp_server_accept`, with the sizes of the two arrays of the state.
unfoldable pub tcp_server_accept : ℕ → ℕ → Net → Server → Option ℕ → ℕ → Outcome
tcp_server_accept headers_size result_size net s none err = record {
  err = err_val;
  con = none;
  calls = [];
}
tcp_server_accept headers_size result_size net s (some h) err =
    if err == 0
    then (if net.has_memory
        then record {
          err = ok;
          con = some (record {
            pcb = h;
            sent_len = 0;
            headers = replicate headers_size 0;
            result = replicate result_size 0;
            header_len = 0;
            result_len = 0;
            gw = s.gw;
          });
          calls = hooks_on h;
        }
        else record { err = err_mem; con = none; calls = [] })
    else record { err = err_val; con = none; calls = [] }

unfoldable pub tcp_server_open : Net → Server → Bool × (Server × List Call)
tcp_server_open net s = elim net.new_pcb [
  | none ↦ (false, (s, []))
  | some h ↦
      if net.bind_err == 0
      then elim net.listen_pcb [
        | none ↦ (false, (record s { server_pcb = none }, tcp_close h ∷ []))
        | some l ↦
            (true, (record s { server_pcb = some l }, tcp_arg l true ∷ tcp_accept l true ∷ []))
      ]
      else (false, (s, []))
]
