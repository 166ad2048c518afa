-- ===== src/Uart/Rtos.antt =====
-- The queue of FreeRTOS as src/uart/PicoOsUart.cpp uses it.
use pico_drone.Common.{ℕ, ◌≤◌, ◌<◌, ◌≡◌, Option, none, some, List, [], ◌∷◌, ◌++◌, length}

-- `xQueueSendToBack` (`none` unless pdTRUE), `xQueueReceive` and `uxQueueMessagesWaiting`, with
-- their versions for an interrupt.
pub record Queue (Q : Type 0) : Type 0 where
  pub send : Q → ℕ → Option Q
  pub receive : Q → Option (ℕ × Q)
  pub waiting : Q → ℕ
  pub contents : Q → List ℕ
  pub capacity : Q → ℕ

-- What FreeRTOS documents: a queue is first in, first out, keeps its capacity, and refuses an item
-- exactly when it is full.
pub record IsQueue {Q : Type 0} (queue : Queue Q) : Type 0 where
  pub sent :
      (q q' : Q) (c : ℕ)
      → queue.send q c ≡ some q'
      → (queue.contents q' ≡ queue.contents q ++ c ∷ [])
        × (queue.capacity q' ≡ queue.capacity q)
        × (length (queue.contents q) < queue.capacity q)
  pub refused :
      (q : Q) (c : ℕ) → queue.send q c ≡ none → queue.capacity q ≤ length (queue.contents q)
  pub received :
      (q q' : Q) (c : ℕ)
      → queue.receive q ≡ some (c, q')
      → (queue.contents q ≡ c ∷ queue.contents q') × (queue.capacity q' ≡ queue.capacity q)
  pub empty : (q : Q) → queue.receive q ≡ none → queue.contents q ≡ []
  pub waiting_is : (q : Q) → queue.waiting q ≡ length (queue.contents q)
