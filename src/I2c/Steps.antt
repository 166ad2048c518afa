-- ===== src/I2c/Steps.antt =====
-- src/i2c/PicoI2C.cpp: what one interrupt of a transfer does.
use mathlib.Core.List.{append_assoc, append-nil}
use pico_drone.Common.{
  ℕ, ◌+◌, ◌-◌, ◌≤◌, ◌<◌, ◌≡◌, refl, ap, sym, ◌∙◌, inl, inr, some, Bool, true, false, ◌&&◌, min,
  if◌then◌else◌, List, [], ◌∷◌, ◌++◌, ◌==◌, ltb, length, length-append, arith, Bool-cases,
}
use pico_drone.I2c.Fifo.{Command, Driver, Irq, rx_fill_fifo, receive, drained, refill, finish, isr}
use pico_drone.I2c.Commands.{
  IsRunning, IsFill, left, tx_fill_fifo-IsRunning, rx_fill_fifo-IsRunning, rx_fill_fifo_stop,
  wbuf_empty,
}

-- The commands that are not sent yet.
abbrev pub pending : Driver → ℕ
pending d = d.wctr + d.rctr

-- The interrupts that the transfer needs are not masked.
abbrev pub IsOpen : Driver → Type 0
IsOpen d = (d.intr_mask.stop_det ≡ true) × (0 < pending d → d.intr_mask.tx_empty ≡ true)

-- What stays while bytes are received.
record IsReceived (d d' : Driver) : Type 0 where
  wbuf_kept : d'.wbuf ≡ d.wbuf
  wctr_kept : d'.wctr ≡ d.wctr
  rctr_kept : d'.rctr ≡ d.rctr
  cmd_kept : d'.data_cmd ≡ d.data_cmd
  restart_kept : d'.restart_on_next ≡ d.restart_on_next
  mask_kept : d'.intr_mask ≡ d.intr_mask
  notified_kept : d'.notified ≡ d.notified

receive-IsReceived : (rx : List ℕ) (d : Driver) → IsReceived d (receive rx d)
unfolding receive
receive-IsReceived [] d = record {
  wbuf_kept = refl;
  wctr_kept = refl;
  rctr_kept = refl;
  cmd_kept = refl;
  restart_kept = refl;
  mask_kept = refl;
  notified_kept = refl;
}
receive-IsReceived (b ∷ bs) d =
    let taken = record d { rbuf = d.rbuf ++ b ∷ []; rcnt = d.rcnt - 1 } in
    let ih = receive-IsReceived bs taken in ground arith

receive-stored :
    (rx : List ℕ) (d : Driver) (n : ℕ)
    → length d.rbuf + d.rcnt ≡ n
    → length (receive rx d).rbuf + (receive rx d).rcnt ≡ n
unfolding receive
receive-stored [] d n e = e
receive-stored (b ∷ bs) d n e =
    let taken = record d { rbuf = d.rbuf ++ b ∷ []; rcnt = d.rcnt - 1 } in
    ground (arith, receive-stored bs taken n, length-append d.rbuf (b ∷ []))

receive-all :
    (rx : List ℕ) (d : Driver)
    → length rx ≤ d.rcnt
    → ((receive rx d).rbuf ≡ d.rbuf ++ rx) × ((receive rx d).rcnt ≡ d.rcnt - length rx)
unfolding receive
receive-all [] d h = (sym (append-nil d.rbuf), omega arith)
receive-all (b ∷ bs) d h =
    let taken = record d { rbuf = d.rbuf ++ b ∷ []; rcnt = d.rcnt - 1 } in
    ground (arith, receive-all bs taken, append_assoc d.rbuf (b ∷ []) bs)

receive-IsRunning :
    (rx : List ℕ) (d : Driver) (all : List Command) (m n : ℕ)
    → IsRunning all m n d
    → IsRunning all m n (receive rx d)
unfolding left
receive-IsRunning rx d all m n r =
    let k = receive-IsReceived rx d in
    record {
      wctr_is = k.wctr_kept ∙ r.wctr_is ∙ ap length (sym k.wbuf_kept);
      sent = rw (k.cmd_kept, k.wbuf_kept, k.restart_kept, k.rctr_kept) r.sent;
      stored = receive-stored rx d n r.stored;
      written = omega (arith, k.wctr_kept, r.written);
    }

drained-IsRunning :
    (d : Driver) (all : List Command) (m n : ℕ)
    → IsRunning all m n d
    → IsRunning all m n (drained d)
unfolding drained left
drained-IsRunning d all m n r = elim (Bool-cases (d.wctr == 0 && d.rctr == 0)) [
  | inl e ↦
      rw e (record { wctr_is = r.wctr_is; sent = r.sent; stored = r.stored; written = r.written })
  | inr e ↦ rw e r
]

-- What a refill leaves alone, what it makes of the commands left, and that it goes on.
record IsRefilled (room : ℕ) (d d' : Driver) : Type 0 where
  rbuf_kept : d'.rbuf ≡ d.rbuf
  rcnt_kept : d'.rcnt ≡ d.rcnt
  notified_kept : d'.notified ≡ d.notified
  stop_kept : d'.intr_mask.stop_det ≡ true
  empty_kept : 0 < pending d' → d'.intr_mask.tx_empty ≡ true
  less : pending d' ≤ pending d - min room 1

drained-IsRefilled :
    (room : ℕ) (d d' : Driver)
    → IsFill d d'
    → pending d' ≤ pending d - min room 1
    → d.intr_mask.stop_det ≡ true
    → d.intr_mask.tx_empty ≡ true
    → IsRefilled room d (drained d')
unfolding drained
drained-IsRefilled room d d' kept less stop empty =
    let mask = kept.mask_kept in
    elim (Bool-cases (d'.wctr == 0 && d'.rctr == 0)) [
      | inl e ↦ rw e (record {
        rbuf_kept = kept.rbuf_kept;
        rcnt_kept = kept.rcnt_kept;
        notified_kept = kept.notified_kept;
        stop_kept = refl;
        empty_kept = λ h. ground arith;
        less = less;
      })
      | inr e ↦ rw e (record {
        rbuf_kept = kept.rbuf_kept;
        rcnt_kept = kept.rcnt_kept;
        notified_kept = kept.notified_kept;
        stop_kept = cc;
        empty_kept = λ h. cc;
        less = less;
      })
    ]

refill-IsRunning :
    (room : ℕ) (d : Driver) (all : List Command) (m n : ℕ)
    → IsRunning all m n d
    → (d' : Driver) × (refill room d ≡ some d')
      × IsRunning all m n d'
      × (IsOpen d → d.intr_mask.tx_empty ≡ true → IsRefilled room d d')
unfolding refill
refill-IsRunning room d all m n r = elim (Bool-cases (ltb 0 d.wctr)) [
  | inl writes ↦
      let (d', ran, r', kept, w', n') = tx_fill_fifo-IsRunning room d all m n r in
      (
        drained d',
        rw writes (rw ran refl),
        drained-IsRunning d' all m n r',
        λ open_ empty. drained-IsRefilled room d d' kept (ground arith) open_.0 empty,
      )
  | inr none_left ↦
      let e : d.wctr ≡ 0 = ground arith in
      let (r', kept, w', n') =
        rx_fill_fifo-IsRunning room d all m n (wbuf_empty d.wbuf d.wctr r.wctr_is e) r in
      let same : (if ltb 0 d.rctr then rx_fill_fifo room d else d) ≡ rx_fill_fifo room d =
        ground (arith, rx_fill_fifo_stop room d) in
      (
        drained (rx_fill_fifo room d),
        rw (none_left, same) refl,
        drained-IsRunning _ all m n r',
        λ open_ empty.
            drained-IsRefilled room d (rx_fill_fifo room d) kept (omega arith) open_.0 empty,
      )
]

finish-IsRunning :
    (stop : Bool) (d : Driver) (all : List Command) (m n : ℕ)
    → IsRunning all m n d
    → IsRunning all m n (finish stop d)
unfolding finish left
finish-IsRunning stop d all m n r = elim (Bool-cases (stop && d.intr_mask.stop_det)) [
  | inl e ↦
      rw e (record { wctr_is = r.wctr_is; sent = r.sent; stored = r.stored; written = r.written })
  | inr e ↦ rw e r
]

-- What an interrupt does to an open transfer: the bytes that it takes, a command at least when there
-- is room for one, and the notification when the transfer stops.
pub record IsServed (irq : Irq) (d d' : Driver) : Type 0 where
  pub taken :
      length irq.rx ≤ d.rcnt → (d'.rbuf ≡ d.rbuf ++ irq.rx) × (d'.rcnt ≡ d.rcnt - length irq.rx)
  pub fewer : pending d' ≤ pending d
  pub progress : irq.tx_empty ≡ true → pending d' ≤ pending d - min irq.room 1
  pub open_kept : irq.stop_det ≡ false → IsOpen d'
  pub stopped : irq.stop_det ≡ true → d'.notified ≡ true

finish-IsServed :
    (irq : Irq) (d d' : Driver)
    → d'.rbuf ≡ (receive irq.rx d).rbuf
    → d'.rcnt ≡ (receive irq.rx d).rcnt
    → IsOpen d'
    → pending d' ≤ pending d
    → (irq.tx_empty ≡ true → pending d' ≤ pending d - min irq.room 1)
    → IsServed irq d (finish irq.stop_det d')
unfolding finish
finish-IsServed irq d d' eb ec open_ fewer progress =
    let all = receive-all irq.rx d in
    elim (Bool-cases irq.stop_det) [
      | inl e ↦
          rw (e, open_.0)
            (record {
              taken = λ h. (eb ∙ (all h).0, ec ∙ (all h).1);
              fewer = fewer;
              progress = progress;
              open_kept = λ no_stop. cc no_stop;
              stopped = λ _. refl;
            })
      | inr e ↦ rw e (record {
        taken = λ h. (eb ∙ (all h).0, ec ∙ (all h).1);
        fewer = fewer;
        progress = progress;
        open_kept = λ _. open_;
        stopped = λ stop. cc stop;
      })
    ]

pub isr-IsRunning :
    (d : Driver) (irq : Irq) (all : List Command) (m n : ℕ)
    → IsRunning all m n d
    → (d' : Driver) × (isr d irq ≡ some d') × IsRunning all m n d' × (IsOpen d → IsServed irq d d')
unfolding isr
isr-IsRunning d irq all m n r =
    let d1 = receive irq.rx d in
    let k = receive-IsReceived irq.rx d in
    let r1 = receive-IsRunning irq.rx d all m n r in
    elim (Bool-cases (irq.tx_empty && d1.intr_mask.tx_empty)) [
      | inl fills ↦
          let (d2, ran, r2, refilled) = refill-IsRunning irq.room d1 all m n r1 in
          (
            finish irq.stop_det d2,
            rw (fills, ran) refl,
            finish-IsRunning irq.stop_det d2 all m n r2,
            λ open_.
                let f = refilled (ground arith) (ground arith) in
                finish-IsServed irq d d2 f.rbuf_kept f.rcnt_kept (f.stop_kept, f.empty_kept)
                  (omega (arith, f.less, k.wctr_kept, k.rctr_kept))
                  (λ _. omega (arith, f.less, k.wctr_kept, k.rctr_kept)),
          )
      | inr shut ↦ (
        finish irq.stop_det d1,
        rw shut refl,
        finish-IsRunning irq.stop_det d1 all m n r1,
        λ open_.
            finish-IsServed irq d d1 refl refl (ground arith)
              (omega (arith, k.wctr_kept, k.rctr_kept)) (λ raised. ground arith),
      )
    ]
