-- ===== src/Uart/Tests.antt =====
-- The serial port over a queue of four bytes, and its theorems at it.
use pico_drone.Common.{
  ℕ, ◌≤◌, ◌≡◌, refl, Option, none, some, true, List, [], ◌∷◌, ◌++◌, ltb, take, length, arith,
  if◌then◌else◌,
}
use pico_drone.Uart.{Uart, Irq, construct, write, read, enqueue, begin_sending, fill, handle_all}
use pico_drone.Uart.Rtos.{Queue, IsQueue}
use pico_drone.Uart.Order.{line, IsDriven, write-line, write-sent}
use pico_drone.Uart.Reading.{read-fifo}

-- A queue of four bytes: a full one gives up on a byte.
abbrev receive_from : List ℕ → Option (ℕ × List ℕ)
receive_from [] = none
receive_from (c ∷ q) = some (c, q)

abbrev four : Queue (List ℕ)
four = record {
  send = λ q c. if ltb (length q) 4 then some (q ++ c ∷ []) else none;
  receive = receive_from;
  waiting = length;
  contents = λ q. q;
  capacity = λ q. 4;
}

received_from :
    (q q' : List ℕ) (c : ℕ) → receive_from q ≡ some (c, q') → (q ≡ c ∷ q') × (◌≡◌ {A = ℕ} 4 4)
received_from [] q' c e = absurd (cc e)
received_from (x ∷ q) q' c e = (ground arith, refl)

nothing_from : (q : List ℕ) → receive_from q ≡ none → q ≡ []
nothing_from [] e = refl
nothing_from (x ∷ q) e = absurd (cc e)

four-IsQueue : IsQueue four
four-IsQueue = record {
  sent = λ q q' c e. (ground arith, refl, ground arith);
  refused = λ q c e. ground arith;
  received = received_from;
  empty = nothing_from;
  waiting_is = λ q. refl;
}

abbrev idle : Uart (List ℕ)
idle = construct four (λ size. []) 9600 4 4

abbrev quiet : ℕ → List Irq
quiet i = []

-- A byte arrives while `write` or `read` waits, and at first none leaves the FIFO.
abbrev busy : ℕ → List Irq
busy i = record { readable = 9 ∷ []; writable = 0 } ∷ []

-- Two bytes arrive while `read` waits.
abbrev crowded : ℕ → List Irq
crowded i = record { readable = 1 ∷ 2 ∷ []; writable = 0 } ∷ []

write-runs :
    write four quiet 1 (1 ∷ 2 ∷ 3 ∷ 4 ∷ 5 ∷ []) idle
    ≡ (4, record { tx = 2 ∷ 3 ∷ 4 ∷ []; rx = []; tx_irq = true; dr = 1 ∷ []; speed = 9600 })
unfolding write enqueue begin_sending fill handle_all construct
write-runs = refl

write-line_example :
    let (count, u') = write four busy 1 (1 ∷ 2 ∷ 3 ∷ []) idle in
    let u'' = handle_all four (busy 0) u' in
    (count ≤ 3)
    × (line four u'' ≡ line four idle ++ take count (1 ∷ 2 ∷ 3 ∷ []))
    × IsDriven four u'
    × IsDriven four u''
write-line_example = write-line four four-IsQueue busy 1 (1 ∷ 2 ∷ 3 ∷ []) idle (busy 0)

abbrev writable : List Irq
writable = record { readable = []; writable = 1 } ∷ record { readable = []; writable = 3 } ∷ []

write-sent_example :
    (handle_all four writable (write four quiet 1 (1 ∷ 2 ∷ 3 ∷ []) idle).1).dr
    ≡ line four idle ++ take (write four quiet 1 (1 ∷ 2 ∷ 3 ∷ []) idle).0 (1 ∷ 2 ∷ 3 ∷ [])
unfolding write enqueue begin_sending fill handle_all construct
write-sent_example =
    write-sent four four-IsQueue quiet 1 (1 ∷ 2 ∷ 3 ∷ []) idle writable (omega arith) (omega arith)

-- Three bytes wait; before each of the two reads two arrive, and the second one is refused.
read-fifo_example :
    let (bytes, u') = read four crowded 2 (record idle { rx = 5 ∷ 6 ∷ 7 ∷ [] }) in
    ◌≡◌ {A = List ℕ × List ℕ} (bytes, u'.rx) (5 ∷ 6 ∷ [], 7 ∷ 1 ∷ 1 ∷ [])
read-fifo_example =
    read-fifo four four-IsQueue crowded 2 (record idle { rx = 5 ∷ 6 ∷ 7 ∷ [] }) (omega arith)
