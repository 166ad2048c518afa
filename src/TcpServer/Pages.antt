-- ===== src/TcpServer/Pages.antt =====
-- src/src/Network/tcpserver.cpp: the texts of the server.
use pico_drone.Common.{
  Bool, true, false, ◌==◌, if◌then◌else◌, ℕ, ◌≤◌, ◌≡◌, refl, List, [], ◌∷◌, ◌++◌, length,
  length-append, arith,
}
use pico_drone.Common.Text.{codes, print_d, length-print_d}

-- `HTTP_RESPONSE_HEADERS` of a status and a length.
unfoldable pub response_headers : ℕ → ℕ → List ℕ
response_headers status len =
    codes "HTTP/1.1 "
    ++ (print_d status
        ++ (codes " OK\nContent-Length: "
            ++ (print_d len
                ++ codes "\nContent-Type: text/html; charset=utf-8\nConnection: close\n\n")))

-- `CONNECT_RESPONSE_BODY`
unfoldable pub connect_response_body : List ℕ
connect_response_body =
    codes "<html><head><style>"
    ++ (codes
          "body { font-family: Arial, sans-serif; background-color: #f4f4f9; margin: 0; padding: 0; }"
        ++ (codes "h1 { text-align: center; color: #333; padding-top: 50px; }"
            ++ (codes
                  ".message { text-align: center; font-size: 20px; color: #333; padding-top: 20px; }"
                ++ (codes
                      "body { display: flex; justify-content: center; align-items: center; height: 100vh; }"
                    ++ (codes ".container { text-align: center; }"
                        ++ (codes "h1 { color: #4CAF50; font-size: 32px; }"
                            ++ (codes "</style></head><body>"
                                ++ (codes "<div class=\"container\">"
                                    ++ (codes "<h1>Connecting to WiFi...</h1>"
                                        ++ (codes
                                              "<div class=\"message\">Please wait while we establish the connection.</div>"
                                            ++ (codes "</div>" ++ codes "</body></html>")))))))))))

pub length-connect_response_body : length connect_response_body ≡ 572
unfolding connect_response_body
length-connect_response_body = refl

pub length-response_headers : (status len : ℕ) → length (response_headers status len) ≤ 200
unfolding response_headers
length-response_headers status len = omega (
  arith,
  length-print_d status,
  length-print_d len,
  length-append (codes "HTTP/1.1 "),
  length-append (print_d status),
  length-append (codes " OK\nContent-Length: "),
  length-append (print_d len),
)

-- `CONNECT_FORM_BODY`, the format of the other page.
unfoldable pub connect_form_body : List ℕ
connect_form_body =
    codes "<html><head><style>"
    ++ (codes
          "body { font-family: Arial, sans-serif; background-color: #f4f4f9; margin: 0; padding: 0; }"
        ++ (codes "h1 { text-align: center; color: #333; padding-top: 20px; }"
            ++ (codes
                  "form { width: 300px; margin: 20px auto; padding: 20px; border: 1px solid #ccc; background-color: #fff; border-radius: 8px; box-shadow: 0 4px 6px rgba(0, 0, 0, 0.1); }"
                ++ (codes
                      "label { display: block; margin-bottom: 8px; font-size: 14px; color: #333; }"
                    ++ (codes
                          "input[type='text'], input[type='password'] { width: 100%; padding: 8px; margin-bottom: 15px; border: 1px solid #ccc; border-radius: 4px; box-sizing: border-box; }"
                        ++ (codes
                              "input[type='submit'] { width: 100%; padding: 10px; background-color: #4CAF50; color: white; border: none; border-radius: 4px; cursor: pointer; font-size: 16px; }"
                            ++ (codes "input[type='submit']:hover { background-color: #45a049; }"
                                ++ (codes "@media (max-width: 600px) { "
                                    ++ (codes
                                          "form { width: 90%; margin: 10px auto; padding: 15px; }"
                                        ++ (codes "h1 { font-size: 24px; padding-top: 15px; }"
                                            ++ (codes "label { font-size: 16px; }"
                                                ++ (codes
                                                      "input[type='text'], input[type='password'], input[type='submit'] { font-size: 14px; padding: 12px; }"
                                                    ++ (codes "}"
                                                        ++ (codes "</style></head><body>"
                                                            ++ (codes "<h1>WiFi Config</h1>"
                                                            ++ (codes
                                                            "<form method=\"POST\" action=\"/connect\">"
                                                            ++ (codes
                                                            "<label for=\"ssid\">SSID:</label>"
                                                            ++ (codes
                                                            "<input type=\"text\" id=\"ssid\" name=\"ssid\"><br>"
                                                            ++ (codes
                                                            "<label for=\"password\">Password:</label>"
                                                            ++ (codes
                                                            "<input type=\"password\" id=\"password\" name=\"password\"><br>"
                                                            ++ (codes
                                                            "<input type=\"submit\" value=\"Connect\">"
                                                            ++ (codes "</form>"
                                                            ++ codes
                                                            "</body></html>"))))))))))))))))))))))

length-connect_form_body : length connect_form_body ≡ 1348
unfolding connect_form_body
length-connect_form_body = refl

-- A format without a conversion.
unfoldable pub is_literal : List ℕ → Bool
is_literal [] = true
is_literal (c ∷ cs) = if c == b'%' then false else is_literal cs

-- What C documents of printing a format with no arguments, if it has no conversion.
abbrev pub IsPrintf : (List ℕ → List ℕ) → Type 0
IsPrintf printf = (t : List ℕ) → is_literal t ≡ true → printf t ≡ t

connect_response_body-is_literal : is_literal connect_response_body ≡ true
unfolding connect_response_body is_literal
connect_response_body-is_literal = refl

-- The page of the form is no literal: its widths in percent are conversions that C does not have.
connect_form_body-is_literal : is_literal connect_form_body ≡ false
unfolding connect_form_body is_literal
connect_form_body-is_literal = refl
