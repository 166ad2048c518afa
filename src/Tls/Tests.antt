-- ===== src/Tls/Tests.antt =====
-- Runs of the client over TLS, and its theorems at them.
use pico_drone.Common.Find.{Contains, strstr-none}
use pico_drone.Common.Ints.{pos}
use pico_drone.Common.{◌≡◌, refl, ◌⊎◌, none, some, true, false, [], ◌∷◌, arith}
use pico_drone.Common.Pbuf.{pbuf_of}
use pico_drone.Common.Text.{codes, strncmp, digits, print_d, strstr}
use pico_drone.Tls.{
  Client, Net, ok, in_progress, dns_found, returned, waiting, altcp_recved, pbuf_free, init,
  tls_client_recv, run_tls_client_test, command_key, err,
}
use pico_drone.Tls.Setpoint.{recv-setpoint}
use pico_drone.Tls.Verdict.{run-verdict}

abbrev net : Net
net = record {
  has_config = true;
  has_memory = true;
  malloc = λ n. true;
  new_pcb = some 1;
  resolved = in_progress;
  connect_err = 0;
  write_err = 0;
  close_err = 0;
}

abbrev client : Client
client = init (codes "POST /") 0

no_command : ¬ Contains command_key (codes "OK")
unfolding strstr strncmp
no_command = strstr-none (codes "OK") command_key refl

recv-setpoint_example :
    (tls_client_recv net client 1 (some (pbuf_of (codes "{\"command_string\":\"1450\"}")))
      ≡ some
          (ok, record client { co2_setpoint = 1450; calls = altcp_recved 1 25 ∷ pbuf_free ∷ [] }))
    × (tls_client_recv net client 1 (some (pbuf_of (codes "OK")))
        ≡ some (ok, record client { calls = altcp_recved 1 2 ∷ pbuf_free ∷ [] }))
    × (tls_client_recv (record net { malloc = λ n. false }) client 1 (some (pbuf_of (codes "OK")))
        ≡ none)
unfolding strncmp digits print_d
recv-setpoint_example =
    recv-setpoint net client 1 (pos 1450) (codes "{") (codes "}") (codes "OK") (omega arith)
      (omega arith) (refl, tt) (omega arith) (omega arith) no_command

-- No address is found: the run still counts as a success.
run-verdict_example :
    let run = run_tls_client_test net (codes "a.b") (codes "POST /") 0 in
    ((c : Client) × (run (dns_found none ∷ []) ≡ returned true c))
    ⊎ ((run (dns_found none ∷ []) ≡ waiting)
        × ((c : Client) × (run (dns_found none ∷ err true ∷ []) ≡ returned true c)))
run-verdict_example =
    run-verdict net (codes "a.b") (codes "POST /") 0 1 (dns_found none ∷ []) [] (err true) refl refl
      (λ n. refl) refl (λ p. absurd (cc p)) (refl, tt) refl
