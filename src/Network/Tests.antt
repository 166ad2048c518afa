-- ===== src/Network/Tests.antt =====
-- A form, and the theorem at it.
use pico_drone.Common.{ℕ, ◌<◌, ◌≡◌, refl, ◌⊎◌, some, true, false, List, [], ◌∷◌, arith}
use pico_drone.Common.Text.{codes, strcmp, pad}
use pico_drone.Network.{
  Network, fresh, confirm_page, index_page, cgi_handler, cgi_page, read_form, strncpy,
  are_credentials_set, connect, enable_sta_mode, connect_timeout_ms,
}
use pico_drone.Network.Credentials.{Holds, cgi_handler-credentials}

abbrev form : List (List ℕ × List ℕ)
form = (codes "password", codes "b") ∷ (codes "ssid", codes "old") ∷ (codes "ssid", codes "a") ∷ []

cgi_page-form : cgi_page form ≡ confirm_page
unfolding cgi_page read_form strncpy strcmp pad
cgi_page-form = refl

cgi_handler-credentials_example :
    ((s' : Network) × (cgi_handler fresh form ≡ some (confirm_page, s'))
      × (cgi_page form ≡ confirm_page)
      × Holds s'.ssid 32 (codes "a")
      × Holds s'.password 64 (codes "b")
      × (are_credentials_set s' ≡ true)
      × (connect false s'
          ≡ (1, enable_sta_mode ∷ connect_timeout_ms (codes "a") (codes "b") 30000 ∷ []))
      × (0 < 1)
      × (0 < 1))
    ⊎ ((cgi_handler fresh form ≡ some (index_page, fresh))
        × (cgi_page form ≡ index_page)
        × ((codes "a" ≡ []) ⊎ (codes "b" ≡ [])))
unfolding strcmp
cgi_handler-credentials_example = cgi_handler-credentials fresh form false refl refl (omega arith)
