-- ===== src/I2c/Commands.antt =====
-- src/i2c/PicoI2C.cpp: which commands a transaction means to send, and what of them is left.
use mathlib.Core.List.{append_assoc}
use pico_drone.Common.{
  ℕ, zero, suc, ◌+◌, ◌-◌, ◌≤◌, ◌≡◌, refl, ap, sym, ◌∙◌, ◌⊎◌, inl, inr, some, Bool, true, false, not,
  ◌&&◌, List, [], ◌∷◌, ◌++◌, ◌==◌, length, arith,
}
use pico_drone.I2c.Fifo.{
  Command, Driver, tx_command, rx_command, tx_put, tx_fill_fifo, rx_put, rx_fill_fifo,
}

-- The bytes to write, the last one with STOP if nothing is to be read.
pub write_commands : Bool → List ℕ → List Command
write_commands stop [] = []
write_commands stop (b ∷ bs) =
    record { restart = false; stop = length bs == 0 && stop; is_read = false; byte = b }
    ∷ write_commands stop bs

-- `n` reads, the last one with STOP, the first one with RESTART if the bus is in a transfer.
pub read_commands : Bool → ℕ → List Command
read_commands restart zero = []
read_commands restart (suc n) =
    record { restart = restart; stop = n == 0; is_read = true; byte = 0 } ∷ read_commands false n

-- The commands of a transaction: the writes, then the reads.
unfoldable pub commands : List ℕ → ℕ → List Command
commands [] rlength = read_commands false rlength
commands (b ∷ bs) rlength = write_commands (rlength == 0) (b ∷ bs) ++ read_commands true rlength

-- What is left of them: from `wbuf` on, with RESTART on the next command or not.
unfoldable pub rest : List ℕ → Bool → ℕ → List Command
rest [] restart n = read_commands restart n
rest (b ∷ bs) restart n =
    record { restart = restart; stop = length bs == 0 && n == 0; is_read = false; byte = b }
    ∷ rest bs (length bs == 0 && not (n == 0)) n

unfoldable pub left : Driver → List Command
left d = rest d.wbuf d.restart_on_next d.rctr

rest-commands_step :
    (b : ℕ) (bs : List ℕ) (n : ℕ)
    → rest (b ∷ bs) false n ≡ write_commands (n == 0) (b ∷ bs) ++ read_commands true n
unfolding rest write_commands read_commands
rest-commands_step b [] zero = ground arith
rest-commands_step b [] (suc n) = ground arith
rest-commands_step b (c ∷ bs) n = ground (arith, rest-commands_step c bs n)

pub rest-commands : (w : List ℕ) (n : ℕ) → rest w false n ≡ commands w n
unfolding rest commands
rest-commands [] n = refl
rest-commands (b ∷ bs) n = rest-commands_step b bs n

-- The invariant of a transaction that has the commands `all` to send, `m` bytes to write and `n` to read: `wbuf`
-- points at `wctr` bytes, the commands sent and those left are `all`, and the bytes received and
-- those still expected are `n` together.
pub record IsRunning (all : List Command) (m n : ℕ) (d : Driver) : Type 0 where
  pub wctr_is : d.wctr ≡ length d.wbuf
  pub sent : d.data_cmd ++ left d ≡ all
  pub stored : length d.rbuf + d.rcnt ≡ n
  pub written : d.wctr ≤ m

-- What a fill leaves alone.
pub record IsFill (d d' : Driver) : Type 0 where
  pub rbuf_kept : d'.rbuf ≡ d.rbuf
  pub rcnt_kept : d'.rcnt ≡ d.rcnt
  pub mask_kept : d'.intr_mask ≡ d.intr_mask
  pub notified_kept : d'.notified ≡ d.notified

IsFill-refl : (d : Driver) → IsFill d d
IsFill-refl d = record {
  rbuf_kept = refl;
  rcnt_kept = refl;
  mask_kept = refl;
  notified_kept = refl;
}

one_more : (k : ℕ) → (suc k == 1) ≡ (k == 0)
one_more k = ground arith

list-cases : (l : List ℕ) → (l ≡ []) ⊎ ((b : ℕ) × (bs : List ℕ) × (l ≡ b ∷ bs))
list-cases [] = inl refl
list-cases (b ∷ bs) = inr (b, bs, refl)

tx_put-left :
    (d : Driver) (b : ℕ) (bs : List ℕ)
    → d.wbuf ≡ b ∷ bs
    → d.wctr ≡ suc (length bs)
    → left d ≡ tx_command d b ∷ left (tx_put d b bs)
unfolding tx_put tx_command left rest
tx_put-left d b bs e ew = rw (e, ew, one_more (length bs)) refl

rx_put-left :
    (d : Driver) (k : ℕ) → d.wbuf ≡ [] → d.rctr ≡ suc k → left d ≡ rx_command d ∷ left (rx_put d)
unfolding rx_put rx_command left rest read_commands
rx_put-left d k e ek = let less : suc k - 1 ≡ k = omega arith in rw (e, ek, one_more k, less) refl

sent_more :
    (c : Command) (cs before after : List Command)
    → before ≡ c ∷ after
    → (cs ++ c ∷ []) ++ after ≡ cs ++ before
sent_more c cs before after e = append_assoc cs (c ∷ []) after ∙ ap (λ l. cs ++ l) (sym e)

tx_put-IsRunning :
    (d : Driver) (all : List Command) (m n b : ℕ) (bs : List ℕ)
    → d.wbuf ≡ b ∷ bs
    → IsRunning all m n d
    → IsRunning all m n (tx_put d b bs)
unfolding tx_put left
tx_put-IsRunning d all m n b bs e r =
    let ew : d.wctr ≡ suc (length bs) = r.wctr_is ∙ ap length e in
    record {
      wctr_is = omega arith;
      sent = sent_more (tx_command d b) d.data_cmd _ _ (tx_put-left d b bs e ew) ∙ r.sent;
      stored = r.stored;
      written = omega (arith, r.written);
    }

rx_put-IsRunning :
    (d : Driver) (all : List Command) (m n k : ℕ)
    → d.wbuf ≡ []
    → d.rctr ≡ suc k
    → IsRunning all m n d
    → IsRunning all m n (rx_put d)
unfolding rx_put left
rx_put-IsRunning d all m n k e ek r = record {
  wctr_is = r.wctr_is;
  sent = sent_more (rx_command d) d.data_cmd _ _ (rx_put-left d k e ek) ∙ r.sent;
  stored = r.stored;
  written = omega (arith, r.written);
}

-- A fill stays in the buffer, sends what is next, and as much of it as there is room for.
pub tx_fill_fifo-IsRunning :
    (room : ℕ) (d : Driver) (all : List Command) (m n : ℕ)
    → IsRunning all m n d
    → (d' : Driver) × (tx_fill_fifo room d ≡ some d')
      × IsRunning all m n d'
      × IsFill d d'
      × (d'.wctr ≡ d.wctr - room)
      × (d'.rctr ≡ d.rctr)
unfolding tx_fill_fifo tx_put
tx_fill_fifo-IsRunning zero d all m n r = (d, refl, r, IsFill-refl d, omega arith, refl)
tx_fill_fifo-IsRunning (suc room) d all m n r = elim (list-cases d.wbuf) [
  | inl e ↦
      let none_left : d.wctr ≡ 0 = r.wctr_is ∙ ap length e in
      (d, ground arith, r, IsFill-refl d, omega arith, refl)
  | inr (b, bs, e) ↦
      let more : d.wctr ≡ suc (length bs) = r.wctr_is ∙ ap length e in
      let (d', ran, r', kept, w', n') =
        tx_fill_fifo-IsRunning room (tx_put d b bs) all m n (tx_put-IsRunning d all m n b bs e r) in
      (
        d',
        ground (arith, e, ran),
        r',
        record {
          rbuf_kept = kept.rbuf_kept;
          rcnt_kept = kept.rcnt_kept;
          mask_kept = kept.mask_kept;
          notified_kept = kept.notified_kept;
        },
        omega (arith, w'),
        n',
      )
]

pub wbuf_empty : (l : List ℕ) (k : ℕ) → k ≡ length l → k ≡ 0 → l ≡ []
wbuf_empty [] k e z = refl
wbuf_empty (b ∷ bs) k e z = absurd (omega arith)

-- Nothing is left when all bytes are written and all reads are sent.
pub left_nil : (d : Driver) → d.wbuf ≡ [] → d.rctr ≡ 0 → left d ≡ []
unfolding left rest read_commands
left_nil d e z = rw (e, z) refl

nat_cases : (n : ℕ) → (n ≡ 0) ⊎ ((k : ℕ) × (n ≡ suc k))
nat_cases zero = inl refl
nat_cases (suc k) = inr (k, refl)

rx_fill_fifo_step :
    (room : ℕ) (d : Driver) (k : ℕ)
    → d.rctr ≡ suc k
    → rx_fill_fifo (suc room) d ≡ rx_fill_fifo room (rx_put d)
unfolding rx_fill_fifo
rx_fill_fifo_step room d k e = ground arith

rx_fill_fifo-zero : (d : Driver) → rx_fill_fifo zero d ≡ d
unfolding rx_fill_fifo
rx_fill_fifo-zero d = refl

pub rx_fill_fifo_stop : (room : ℕ) (d : Driver) → d.rctr ≡ 0 → rx_fill_fifo room d ≡ d
unfolding rx_fill_fifo
rx_fill_fifo_stop zero d e = refl
rx_fill_fifo_stop (suc room) d e = ground arith

pub rx_fill_fifo-IsRunning :
    (room : ℕ) (d : Driver) (all : List Command) (m n : ℕ)
    → d.wbuf ≡ []
    → IsRunning all m n d
    → let d' = rx_fill_fifo room d in
      IsRunning all m n d' × IsFill d d' × (d'.wctr ≡ d.wctr) × (d'.rctr ≡ d.rctr - room)
unfolding rx_put
rx_fill_fifo-IsRunning zero d all m n e r =
    rw (rx_fill_fifo-zero d) (r, IsFill-refl d, refl, omega arith)
rx_fill_fifo-IsRunning (suc room) d all m n e r = elim (nat_cases d.rctr) [
  | inl none_left ↦
      rw (rx_fill_fifo_stop (suc room) d none_left) (r, IsFill-refl d, refl, omega arith)
  | inr (k, ek) ↦
      let (r', kept, w', n') =
        rx_fill_fifo-IsRunning room (rx_put d) all m n e (rx_put-IsRunning d all m n k e ek r) in
      rw (rx_fill_fifo_step room d k ek) (
        r',
        record {
          rbuf_kept = kept.rbuf_kept;
          rcnt_kept = kept.rcnt_kept;
          mask_kept = kept.mask_kept;
          notified_kept = kept.notified_kept;
        },
        w',
        omega (arith, n'),
      )
]
