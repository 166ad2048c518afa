-- ===== src/I2c/Transfer.antt =====
-- src/i2c/PicoI2C.cpp: `transaction` as a whole.
use mathlib.Core.List.{append_assoc, append-nil}
use pico_drone.Common.{
  Bool-cases, ◌⊎◌, inl, inr, ℕ, ◌+◌, ◌-◌, ◌^◌, ◌≤◌, ◌<◌, ◌≡◌, refl, ap, sym, ◌∙◌, some, true, false,
  List, [], ◌∷◌, ◌++◌, if◌then◌else◌, length, length-append, arith,
}
use pico_drone.I2c.Fifo.{
  Mask, Command, Driver, Irq, rx_fill_fifo, run, set_up, start, counted, transaction, write,
}
use pico_drone.I2c.Commands.{
  IsRunning, commands, left, rest-commands, tx_fill_fifo-IsRunning, rx_fill_fifo-IsRunning,
  wbuf_empty, left_nil,
}
use pico_drone.I2c.Steps.{pending, IsOpen, isr-IsRunning}

set_up-IsRunning :
    (d : Driver) (addr : ℕ) (w : List ℕ) (n : ℕ)
    → IsRunning (d.data_cmd ++ commands w n) (length w) n (set_up d addr w n)
unfolding set_up left
set_up-IsRunning d addr w n = record {
  wctr_is = refl;
  sent = ap (λ l. d.data_cmd ++ l) (rest-commands w n);
  stored = omega arith;
  written = omega arith;
}

-- A transfer has begun.
record IsBegun (w : List ℕ) (n room : ℕ) (d' : Driver) : Type 0 where
  open_ : IsOpen d'
  rbuf_is : d'.rbuf ≡ []
  rcnt_is : d'.rcnt ≡ n
  pending_is : pending d' ≤ length w + n
  filled : n ≡ 0 → length w ≤ room → pending d' ≡ 0

start-IsRunning :
    (d : Driver) (addr : ℕ) (w : List ℕ) (n room : ℕ)
    → (d' : Driver) × (start d addr w n room ≡ some d')
      × IsRunning (d.data_cmd ++ commands w n) (length w) n d'
      × IsBegun w n room d'
unfolding start set_up
start-IsRunning d addr [] n room =
    let (r, kept, w', n') =
      rx_fill_fifo-IsRunning room (set_up d addr [] n) _ 0 n refl (set_up-IsRunning d addr [] n) in
    (
      rx_fill_fifo room (set_up d addr [] n),
      refl,
      r,
      record {
        open_ = (
          ap (λ (m : Mask). m.stop_det) kept.mask_kept,
          λ _. ap (λ (m : Mask). m.tx_empty) kept.mask_kept,
        );
        rbuf_is = kept.rbuf_kept;
        rcnt_is = kept.rcnt_kept;
        pending_is = omega (arith, w', n');
        filled = λ z _. omega (arith, w', n');
      },
    )
start-IsRunning d addr (b ∷ bs) n room =
    let (d', ran, r, kept, w', n') =
      tx_fill_fifo-IsRunning room (set_up d addr (b ∷ bs) n) _ (length (b ∷ bs)) n
        (set_up-IsRunning d addr (b ∷ bs) n) in
    (
      d',
      ground (arith, ran),
      r,
      record {
        open_ = (
          ap (λ (m : Mask). m.stop_det) kept.mask_kept,
          λ _. ap (λ (m : Mask). m.tx_empty) kept.mask_kept,
        );
        rbuf_is = kept.rbuf_kept;
        rcnt_is = kept.rcnt_kept;
        pending_is = omega (arith, w', n');
        filled = λ z h. omega (arith, w', n');
      },
    )

-- A sequence of interrupts goes through: it stays in the buffers.
run-IsRunning :
    (irqs : List Irq) (d : Driver) (all : List Command) (m n : ℕ)
    → IsRunning all m n d
    → (d' : Driver) × (run irqs d ≡ some d') × IsRunning all m n d'
unfolding run
run-IsRunning [] d all m n r = (d, refl, r)
run-IsRunning (irq ∷ irqs) d all m n r =
    let (d1, ran, r1, served) = isr-IsRunning d irq all m n r in
    let (d2, ran', r2) = run-IsRunning irqs d1 all m n r1 in (d2, rw (ran, ran') refl, r2)

-- Interrupts that find room for a command and no stop.
abbrev pub Filling : List Irq → Type 0
Filling [] = Unit
Filling (irq ∷ irqs) =
    (irq.tx_empty ≡ true) × (irq.stop_det ≡ false) × (0 < irq.room) × Filling irqs

-- What they receive together.
abbrev pub received : List Irq → List ℕ
received [] = []
received (irq ∷ irqs) = irq.rx ++ received irqs

run-Filling :
    (irqs : List Irq) (last : Irq) (d : Driver) (all : List Command) (m n : ℕ)
    → IsRunning all m n d
    → IsOpen d
    → Filling irqs
    → last.stop_det ≡ true
    → length (received irqs ++ last.rx) ≤ d.rcnt
    → (d' : Driver) × (run (irqs ++ last ∷ []) d ≡ some d')
      × IsRunning all m n d'
      × (d'.notified ≡ true)
      × (pending d' ≤ pending d - length irqs)
      × (d'.rbuf ≡ d.rbuf ++ (received irqs ++ last.rx))
      × (d'.rcnt ≡ d.rcnt - length (received irqs ++ last.rx))
unfolding run
run-Filling [] last d all m n r open_ fills stop fit =
    let (d1, ran, r1, served) = isr-IsRunning d last all m n r in
    let s = served open_ in
    (d1, rw ran refl, r1, s.stopped stop, omega (arith, s.fewer), (s.taken fit).0, (s.taken fit).1)
run-Filling (irq ∷ irqs) last d all m n r open_ (empty, no_stop, room, fills) stop fit =
    let (d1, ran, r1, served) = isr-IsRunning d irq all m n r in
    let s = served open_ in
    let more = s.progress empty in
    let split = append_assoc irq.rx (received irqs) last.rx in
    let sizes = ap length split ∙ length-append irq.rx (received irqs ++ last.rx) in
    let (rbuf1, rcnt1) = s.taken (omega (arith, sizes)) in
    let (d2, ran', r2, notified, fewer, rbuf2, rcnt2) =
      run-Filling irqs last d1 all m n r1 (s.open_kept no_stop) fills stop (omega (arith, sizes)) in
    (
      d2,
      rw (ran, ran') refl,
      r2,
      notified,
      omega arith,
      rbuf2
          ∙ ap (λ l. l ++ (received irqs ++ last.rx)) rbuf1
          ∙ append_assoc d.rbuf irq.rx (received irqs ++ last.rx)
          ∙ ap (λ l. d.rbuf ++ l) (sym split),
      omega (arith, sizes),
    )

counted_lem :
    (d : Driver) (all : List Command) (m n : ℕ)
    → IsRunning all m n d
    → m + n < 2 ^ 32
    → counted (m + n) d ≡ (if d.notified then m + n - (d.rcnt + d.wctr) else 0)
unfolding counted
counted_lem d all m n r small = let e = r.stored in let h = r.written in ground arith

counted-sum :
    (d : Driver) (all : List Command) (m n : ℕ)
    → IsRunning all m n d
    → m + n < 2 ^ 32
    → (counted (m + n) d ≡ 0) ⊎ (counted (m + n) d + (length d.wbuf + (n - length d.rbuf)) ≡ m + n)
counted-sum d all m n r small =
    let c = counted_lem d all m n r small in
    let e = r.stored in
    let h = r.written in
    let w = r.wctr_is in
    elim (Bool-cases d.notified) [ inr none_ ↦ inl (ground arith) | inl told ↦ inr (ground arith) ]

-- Every transaction stays in its buffers and stores no more than `rlength` bytes. Whatever
-- interrupts come, the commands that it has sent are a beginning of the bytes to write, RESTART
-- in between, and the reads, with STOP at the last one only; those left are the others. It returns
-- 0, or a count that lacks exactly the bytes still to write and those not received.
pub transaction-commands :
    (d : Driver) (addr : ℕ) (wbuffer : List ℕ) (rlength room : ℕ) (irqs : List Irq)
    → length wbuffer + rlength < 2 ^ 32
    → (count : ℕ) × (d' : Driver) × (transaction d addr wbuffer rlength room irqs
        ≡ some (count, d'))
      × (d'.data_cmd ++ left d' ≡ d.data_cmd ++ commands wbuffer rlength)
      × (length d'.rbuf ≤ rlength)
      × ((count ≡ 0)
          ⊎ (count + (length d'.wbuf + (rlength - length d'.rbuf)) ≡ length wbuffer + rlength))
unfolding transaction left
transaction-commands d addr w n room irqs small =
    let (d1, ran1, r1, begun) = start-IsRunning d addr w n room in
    let (d2, ran2, r2) = run-IsRunning irqs d1 _ (length w) n r1 in
    let e = r2.stored in
    (
      counted (length w + n) d2,
      record d2 { notified = false },
      rw (ran1, ran2) refl,
      r2.sent,
      omega arith,
      counted-sum d2 _ (length w) n r2 small,
    )

-- A transaction completes. If TX_EMPTY comes at least as often as there are commands, each time
-- with room for one, before the stop, and the bytes that the interrupts deliver are as many as asked
-- for, then it returns both lengths together, has sent exactly its commands, and `rbuf` holds these
-- bytes in their order.
pub transaction-full :
    (d : Driver) (addr : ℕ) (wbuffer : List ℕ) (rlength room : ℕ) (irqs : List Irq) (last : Irq)
    → length wbuffer + rlength < 2 ^ 32
    → length wbuffer + rlength ≤ length irqs
    → Filling irqs
    → last.stop_det ≡ true
    → length (received irqs ++ last.rx) ≡ rlength
    → (d' : Driver) × (transaction d addr wbuffer rlength room (irqs ++ last ∷ [])
        ≡ some (length wbuffer + rlength, d'))
      × (d'.data_cmd ≡ d.data_cmd ++ commands wbuffer rlength)
      × (d'.rbuf ≡ received irqs ++ last.rx)
unfolding transaction
transaction-full d addr w n room irqs last small enough fills stop sizes =
    let (d1, ran1, r1, begun) = start-IsRunning d addr w n room in
    let rcnt1 = begun.rcnt_is in
    let (d2, ran2, r2, notified, fewer, stored, rcnt2) =
      run-Filling irqs last d1 _ (length w) n r1 begun.open_ fills stop (omega arith) in
    let bound = begun.pending_is in
    let none_left : pending d2 ≡ 0 = omega arith in
    let written = wbuf_empty d2.wbuf d2.wctr r2.wctr_is (omega arith) in
    let none : left d2 ≡ [] = left_nil d2 written (omega arith) in
    let count = counted_lem d2 _ (length w) n r2 small in
    let full : counted (length w + n) d2 ≡ length w + n = ground arith in
    (
      record d2 { notified = false },
      rw (ran1, ran2) (rw full refl),
      sym (append-nil d2.data_cmd) ∙ ap (λ l. d2.data_cmd ++ l) (sym none) ∙ r2.sent,
      stored ∙ ap (λ l. l ++ (received irqs ++ last.rx)) begun.rbuf_is,
    )

-- A write that fits the room of the FIFO returns its whole length at the first stop: also
-- when no device has acknowledged it and the hardware drops the bytes.
pub write-no_ack :
    (d : Driver) (addr : ℕ) (buffer : List ℕ) (room : ℕ) (last : Irq)
    → length buffer < 2 ^ 32
    → length buffer ≤ room
    → last.stop_det ≡ true
    → (d' : Driver) × (write d addr buffer room (last ∷ []) ≡ some (length buffer, d'))
unfolding transaction write run
write-no_ack d addr w room last small fits stop =
    let (d1, ran1, r1, begun) = start-IsRunning d addr w 0 room in
    let (d2, ran2, r2, served) = isr-IsRunning d1 last _ (length w) 0 r1 in
    let s = served begun.open_ in
    let notified = s.stopped stop in
    let fewer = s.fewer in
    let e = r2.stored in
    let rcnt1 = begun.rcnt_is in
    let rcnt2 : d2.rcnt ≡ 0 = omega arith in
    let filled = begun.filled refl fits in
    let written : d2.wctr ≡ 0 = omega arith in
    let count = counted_lem d2 _ (length w) 0 r2 (omega arith) in
    let full : counted (length w + 0) d2 ≡ length w = ground arith in
    (record d2 { notified = false }, rw (ran1, ran2) (rw full refl))
