-- ===== src/Lib.antt =====
-- The firmware of the pico-drone board: its network services and its drivers.
--
-- The board (a Raspberry Pi Pico W) opens an access point. On it a DHCP server hands out eight
-- addresses and a DNS server answers every name with the board's own address, so that a client ends
-- up at the configuration page. As a station, the board talks to its broker through a TCP client
-- stack with a ring buffer. An EEPROM and a clock chip hang on an I2C bus. The servers and the
-- TCP client are callbacks of lwIP; the drivers are called by FreeRTOS tasks under a mutex.
--
-- The files, and the code that each one models:
--
--   Common       shared names, lists as C arrays (reads, writes, memcpy), fixed widths, bit
--                operations, lwIP's packets and UDP calls, texts of C and the numbers in them
--   Dhcp         src/ipstack/dhcpserver.c and .h
--     Options      opt_find, opt_write_n, opt_write_u8, opt_write_u32
--     Leases       the lease table: the loop of DHCPDISCOVER (scan, with probe for one round), the
--                  slot test of DHCPREQUEST (grant), the 16-bit expiry (is_expired, expiry_after)
--     Server       dhcp_socket_sendto, dhcp_server_process (process, handle, dispatch, on_discover,
--                  on_request, request_at, grant_slot, reply), dhcp_server_init, dhcp_server_deinit
--   Dns          src/ipstack/dnsserver.c and .h: dns_socket_sendto, dns_server_process (process,
--                handle, is_query, walk, after_name, respond), dns_server_init, dns_server_deinit
--   IpStack      src/ipstack/IPStack.cpp and .h: tcp_client_recv (receive, first_part, second_part),
--                read (wait, take_out); IpStack/Session: connect, write, disconnect, and
--                Session/Closing
--   TcpServer    src/src/Network/tcpserver.cpp: the life of a connection (tcp_server_accept, _sent, _poll,
--                _err, tcp_close_client_connection) and of the server (tcp_server_open, tcp_server_close)
--     Pages        the texts of the pages and of the headers
--     Config       handle_request, tcp_server_recv (find_body, answer)
--     AccessPoint  src/ipstack/picow_access_point.c: test_server_content, tcp_server_recv
--                  (split_request, answer), and the life of a connection, which is the same code
--     Wifi         key_pressed_func, wifi_task (serve, wait), with the DHCP server of Dhcp; Wifi/Stopping
--     Contract, Response, Requests, Acks    how connections end, and what a browser gets
--   Tls          src/ipstack/tls_common.c: the callbacks, tls_client_open, run_tls_client_test (wait), and
--                extract_co2_setpoint
--   Network      src/src/Network/NetworkClass.cpp and .h: the credentials, the form that sets them
--                (cgi_handler: read_form, set_credentials), connect and ap_init; cgi_page is cgi_handler of
--                src/src/Network/lwiphttpdserver.cpp
--   Mqtt         src/src/MqttWifiManager.cpp and .h: messageArrivedCallback (automatic_of, value_of)
--   MqttClient   src/src/MQTT/MQTTClient.cpp and .h, and internet_task of src/main.cpp (wait_credentials,
--                run_mqtt, publish_loop), with the NetworkClass of Network
--     Waiting, Internet    the wait for the form, and the order of all calls
--   Blinker      src/blinker.cpp and .h: on, off and the rounds of the task (obey, run_round)
--   I2c          src/i2c/PicoI2C.cpp and .h: the interface that the drivers take as a parameter
--     Fifo         tx_fill_fifo, rx_fill_fifo, isr (receive, refill, drained, finish), transaction
--                  (set_up, start, counted), write, read
--     Instance     the constructor, i2c0_irq, i2c1_irq
--     Commands     the commands that a transaction means to send, and its invariant; Steps and
--                  Transfer follow it through the interrupts
--   Uart         src/uart/PicoOsUart.cpp and .h: the constructor, both handlers, read, write (enqueue,
--                begin_sending), send, flush, uart_irq_rx, uart_irq_tx, get_fifo_level; Uart/Rtos is
--                the queue of FreeRTOS that it takes as a parameter
--   Eeprom       src/src/eeprom/EEPROM.cpp: crc16, writeToMemory, readFromMemory
--   Rtc          src/src/RTC/RTC.cpp: the conversions and every operation of the class
--   Irqs         src/src/SwIRQ/irqs.cpp and src/src/irqs.h: the interrupt handler of the buttons (button,
--                rotary, callback)
--
-- The Tests modules hold runs of the code and the theorems at concrete inputs.
--
-- How the state is modelled. A struct or class is a record, an array a list of bytes, a pointer into
-- an array an index. A handler takes the state and gives the state and what it hands to lwIP, in
-- order. A read or write outside an array, which C leaves undefined, ends in `none` (or in the
-- constructors `overrun`, `outside`, `lost` and `undefined`); uninitialised arrays are a parameter (`stack`). Fixed-width arithmetic
-- wraps explicitly (u8, u16, u32). What the code asks of lwIP, of the SDK, of a device or of the
-- mutex is a parameter: a record of answers (Env, Net), a packet with its copies (Pbuf), a bus with a
-- device state (Bus), a queue (Queue), an explicit sequence of polls or of interrupts. Where a theorem
-- needs what lwIP or a chip documents, it is a named hypothesis (IsPbuf, Carries, Keeps, KeepsTime,
-- IsQueue), and the Tests modules give an instance of each.
--
-- When things happen. What other tasks, interrupts and users do is a sequence that a definition takes,
-- at the places that its comment names: interrupts while a task waits at a queue (Uart), keys between
-- the calls of wifi_task and in each second of its loop (Keys), forms before, in and behind the loop of
-- internet_task (World), callbacks between two tests of a loop, and for tls_client_err also a test
-- between its two stores (Event). Nothing else runs in the middle of a definition.
--
-- Fuel. The loop of opt_find has 155 rounds, since each moves on by 2 of 308 at least. The loop over
-- the labels of a DNS question has 289, one more than the bytes behind the header. Both are shown to
-- be enough. The loop of flush (Uart) ends with one round more than there are bytes. All other loops
-- are recursions on lists or numbers.
--
-- Not modelled: printed messages; assertions, but the one of run_tls_client_test; pbuf_free, where a
-- handler calls it on every path; delays behind a write to a chip; the Wi-Fi start in the constructor
-- of IPStack; the MQTT test programs, the shared settings, the other tasks of src/main.cpp, the page
-- data, and FreeRTOS.
pub mod Common
pub mod Dhcp
pub mod Dns
pub mod IpStack
pub mod I2c
pub mod Eeprom
pub mod Rtc
pub mod Irqs
pub mod Uart
pub mod TcpServer
pub mod Tls
pub mod Network
pub mod Mqtt
pub mod MqttClient
pub mod Blinker
