-- ===== src/Network.antt =====
-- src/src/Network/NetworkClass.cpp and .h: the credentials, and the form that sets them.
pub mod Credentials
mod Tests
use pico_drone.Common.{
  ℕ, zero, suc, ◌+◌, ◌-◌, Option, none, some, Bool, true, false, not, ◌&&◌, List, [], ◌∷◌, ◌++◌,
  ◌==◌, ltb, if◌then◌else◌, length, replicate, get_or, blit,
}
use pico_drone.Common.Memory.{◌>>=◌}
use pico_drone.Common.Udp as Udp
use pico_drone.Dhcp.Server as Dhcp
use pico_drone.Common.Text.{codes, c_string, strcmp, pad}

-- The static members.
pub record Network : Type 0 where
  pub ssid : List ℕ
  pub password : List ℕ
  pub is_credentials_set : Bool

abbrev pub ssid_size : ℕ
ssid_size = 32

abbrev pub password_size : ℕ
password_size = 64

abbrev pub fresh : Network
fresh = record {
  ssid = replicate ssid_size 0;
  password = replicate password_size 0;
  is_credentials_set = false;
}

-- `strcpy` of a text; `none` writes behind the array.
unfoldable pub strcpy : List ℕ → List ℕ → Option (List ℕ)
strcpy dst src = if ltb (length src) (length dst) then some (blit dst 0 (src ++ 0 ∷ [])) else none

-- `strncpy` of a text.
unfoldable pub strncpy : List ℕ → List ℕ → ℕ → List ℕ
strncpy dst src n = blit dst 0 (pad n src)

-- `setCredentials`
unfoldable pub set_credentials : Network → List ℕ → List ℕ → Option Network
set_credentials s new_ssid new_password = strcpy s.ssid new_ssid >>= λ ssid'.
    strcpy s.password new_password >>= λ password'.
    some (record { ssid = ssid'; password = password'; is_credentials_set = true })

-- The loop of `cgi_handler` over the names and values of the form, with `gssid` and `gpassword`.
-- Each value is a text: NULL, which lwIP gives for a name without `=`, is not one for `strncpy`.
unfoldable pub read_form : List (List ℕ × List ℕ) → List ℕ → List ℕ → List ℕ × List ℕ
read_form [] gssid gpassword = (gssid, gpassword)
read_form ((name, value) ∷ params) gssid gpassword =
    let is_ssid = strcmp name (codes "ssid") in
    let is_password = not is_ssid && strcmp name (codes "password") in
    read_form params (if is_ssid then strncpy gssid value (ssid_size - 1) else gssid)
      (if is_password then strncpy gpassword value (password_size - 1) else gpassword)

abbrev pub confirm_page : List ℕ
confirm_page = codes "/confirm.html"

abbrev pub index_page : List ℕ
index_page = codes "/index.html"

-- `cgi_handler`: the page, and the members afterwards.
unfoldable pub cgi_handler : Network → List (List ℕ × List ℕ) → Option (List ℕ × Network)
cgi_handler s params =
    let (gssid, gpassword) = read_form params (replicate ssid_size 0) (replicate password_size 0) in
    let stored =
      set_credentials s (c_string gssid) (c_string gpassword) >>= λ s'. some (confirm_page, s') in
    if not (get_or gssid 0 0 == 0) && not (get_or gpassword 0 0 == 0)
    then stored
    else some (index_page, s)

unfoldable pub are_credentials_set : Network → Bool
are_credentials_set s = s.is_credentials_set

-- `cgi_handler` of src/src/Network/lwiphttpdserver.cpp, which stores nothing.
unfoldable pub cgi_page : List (List ℕ × List ℕ) → List ℕ
cgi_page params =
    let (ssid, password) = read_form params (replicate 32 0) (replicate 64 0) in
    if not (get_or ssid 0 0 == 0) && not (get_or password 0 0 == 0)
    then confirm_page
    else index_page

-- What the class asks of the Wi-Fi chip and of lwIP.
pub data Call : Type 0 where
  arch_init arch_deinit enable_sta_mode disable_sta_mode disable_ap_mode : Call
  httpd_init http_set_cgi_handlers : Call
  connect_timeout_ms : List ℕ → List ℕ → ℕ → Call
  enable_ap_mode : List ℕ → List ℕ → Call
  udp : Udp.Call → Call

abbrev udps : List Udp.Call → List Call
udps [] = []
udps (c ∷ cs) = udp c ∷ udps cs

unfoldable pub init : List Call
init = arch_init ∷ []

unfoldable pub deinit : List Call
deinit = disable_sta_mode ∷ arch_deinit ∷ []

-- `connect`, with whether the chip fails to join.
unfoldable pub connect : Bool → Network → ℕ × List Call
connect failed s = (
  if failed then 0 else 1,
  enable_sta_mode ∷ connect_timeout_ms (c_string s.ssid) (c_string s.password) 30000 ∷ [],
)

-- `ap_init`, which goes on if the chip does not start; the DHCP server is the member `dhcp_server`.
unfoldable pub ap_init : Option ℕ → Dhcp.Server × List Call
ap_init udp_new =
    let gw = 192 ∷ 168 ∷ 4 ∷ 1 ∷ [] in
    let mask = 255 ∷ 255 ∷ 255 ∷ 0 ∷ [] in
    let (dhcp_server, calls) = Dhcp.init udp_new gw mask in
    (
      dhcp_server,
      init
          ++ (enable_ap_mode (codes "picow_test") (codes "password")
              ∷ (udps calls ++ httpd_init ∷ http_set_cgi_handlers ∷ [])),
    )

unfoldable pub ap_disconnect : Bool × List Call
ap_disconnect = (true, disable_ap_mode ∷ [])
