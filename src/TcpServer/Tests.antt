-- ===== src/TcpServer/Tests.antt =====
-- Requests to both servers, a run of the task, and the theorems at them.
use pico_drone.Common.{
  ℕ, ◌≡◌, refl, none, some, true, false, List, [], ◌∷◌, ◌++◌, length, replicate, length-replicate,
  arith, Option,
}
use pico_drone.Common.Pbuf.{pbuf_of}
use pico_drone.Common.Text.{
  codes, c_string, strcmp, strncmp, strstr, skip_space, skip_sign, scan_digits, isspace, snprintf,
  digits, print_d,
}
use pico_drone.TcpServer.{
  Connection, Net, tcp_write, tcp_recved, pbuf_free, gpio_set, tcp_server_sent, tcp_server_poll,
  respond,
}
use pico_drone.TcpServer.Pages.{response_headers, connect_response_body, IsPrintf}
use pico_drone.TcpServer.Config
use pico_drone.TcpServer.AccessPoint
use pico_drone.TcpServer.Contract.{Follows, callbacks-Follows}
use pico_drone.TcpServer.Response.{IsAnswer}
use pico_drone.TcpServer.Requests.{recv-page}
use pico_drone.TcpServer.Wifi.{Keys, finished, waiting, returned, wifi_task}
use pico_drone.TcpServer.Wifi.Stopping.{disables, ready, up, tcp_up, down, wifi_task-stops}

abbrev net : Net
net = record {
  close_err = 0;
  header_err = 0;
  result_err = 0;
  new_pcb = some 1;
  bind_err = 0;
  listen_pcb = some 2;
  has_memory = true;
}

abbrev con : Connection
con = record {
  pcb = 7;
  sent_len = 0;
  headers = replicate 2048 0;
  result = replicate 2048 0;
  header_len = 0;
  result_len = 0;
  gw = codes "192.168.4.1";
}

abbrev led_con : Connection
led_con = record con { headers = replicate 128 0; result = replicate 256 0 }

-- A printer that takes no conversion.
abbrev print : List ℕ → List ℕ
print t = t

print-IsPrintf : IsPrintf print
print-IsPrintf t e = refl

-- The LED is switched on by a parameter.
access_point-led :
    (AccessPoint.tcp_server_recv false net led_con
      (some (pbuf_of (codes "GET /ledtest?led=1 HTTP/1.1")))).calls
    ≡ gpio_set true
      ∷ tcp_write 7 (response_headers 200 (length (AccessPoint.led_page true)))
      ∷ tcp_write 7 (AccessPoint.led_page true)
      ∷ tcp_recved 7 27
      ∷ pbuf_free
      ∷ []
unfolding AccessPoint.tcp_server_recv AccessPoint.answer AccessPoint.split_request
    AccessPoint.strchr AccessPoint.test_server_content AccessPoint.scan_led scan_digits skip_sign
    AccessPoint.led_test_body respond c_string strncmp skip_space isspace snprintf digits print_d
    response_headers
access_point-led = refl

abbrev rest : List ℕ
rest = codes "HTTP/1.1\r\n\r\nssid=a&password=b"

-- A filled-in form.
recv-page_example : IsAnswer con connect_response_body 43 (
    Config.tcp_server_recv print net con
      (some (pbuf_of (codes "POST /connect HTTP/1.1\r\n\r\nssid=a&password=b"))))
unfolding strcmp strncmp strstr connect_response_body isspace
recv-page_example =
    recv-page print net con true (codes "/connect") rest refl refl refl
      (length-replicate {A = ℕ} 2048 0)
      (refl, (refl, (refl, (refl, (refl, (refl, (refl, (refl, tt)))))))) (omega arith) (omega arith)
      (omega arith) (omega arith) (omega arith) (omega arith)

callbacks-Follows_example :
    Follows net 7 (Config.tcp_server_recv print net con none)
    × Follows net 7 (AccessPoint.tcp_server_recv false net con none)
    × Follows net 7 (tcp_server_sent net con 5)
    × Follows net 7 (tcp_server_poll net con)
callbacks-Follows_example = callbacks-Follows print false net con none 5

abbrev no_keys : Keys
no_keys = record {
  started = [];
  in_ap = [];
  served = [];
  opened = [];
  rounds = [];
  stopped = [];
  closed = [];
  freed = [];
}

-- A stop before the access point is up, and two of them in the second second of the loop.
wifi_task-stops_example :
    let early : Keys = record no_keys { started = some b'd' ∷ [] } in
    let two : List (Option ℕ) = some b'd' ∷ some b'x' ∷ some b'D' ∷ [] in
    (wifi_task (ready net 3 4 5 0) (record early { rounds = (none ∷ []) ∷ two ∷ [] })
      ≡ (finished, up 3 early ++ (tcp_up 5 early ++ (disables two ++ down 3 5 early))))
    × (wifi_task (ready net 3 4 5 0) (record early { rounds = (none ∷ []) ∷ [] })
        ≡ (waiting, up 3 early ++ tcp_up 5 early))
    × (wifi_task (ready net 3 4 5 8) early ≡ (returned, up 3 early))
wifi_task-stops_example =
    wifi_task-stops net 3 4 5 8 (record no_keys { started = some b'd' ∷ [] }) ((none ∷ []) ∷ []) []
      (some b'd' ∷ some b'x' ∷ some b'D' ∷ []) (refl, tt) (omega arith) (omega arith)
