-- ===== src/Netstack/Tcp/Repeats.antt =====
-- A write that fails in pumpToLwip of session_tcp.cc.
use candy.Base.{
  ℕ, ◌^◌, ◌<◌, ◌≤◌, ◌≡◌, refl, sym, ap, ◌∙◌, subst, true, false, List, [], ◌∷◌, ◌++◌, arith, length,
  take,
}
use candy.Netstack.Tcp.State.{Event, to_pcb, SessionTcp, Wrote, fits, refused, Answers}
use candy.Netstack.Tcp.Stack.{
  close_from_stack, Pump, add_chunk, pump_loop, update_read_interest, take_out, close_if_drained,
  after_pump, pump_to_lwip, no_chunk, on_sent, space_of, chunk_of,
}
use candy.Netstack.Tcp.Calls.{acknowledged, call}
use candy.Netstack.Tcp.Backward.Flow.{passed}

chunk_fits :
    (buf : List ℕ) (k : ℕ) (w : Wrote) (p : Pump)
    → p.offset ≡ 0
    → k ≤ length buf
    → k < 2 ^ 16
    → (space_of (record { space = k; wrote = w }) ≡ k)
      × (chunk_of buf (record { space = k; wrote = w }) p ≡ k)
unfolding space_of chunk_of
chunk_fits buf k w p first less small = omega arith

module _ (buf : List ℕ) (k : ℕ) (l : List Event) (pos : 0 < k) (small : k < 2 ^ 16) where
  abbrev at_start : Pump
  at_start = record { offset = 0; written = false; failed = false; log = l }

  -- A chunk is written, and the next one is refused.
  torn_pump :
      k < length buf
      → let p =
          pump_loop buf
            (record { space = k; wrote = fits } ∷ record { space = k; wrote = refused } ∷ [])
            at_start in
        (p.failed ≡ true) × (p.log ≡ to_pcb (take k buf) ∷ l)
  unfolding pump_loop add_chunk
  torn_pump less = ground (arith, chunk_fits buf k fits at_start, chunk_fits buf k refused at_start)

  whole_pump :
      k ≡ length buf
      → let p = pump_loop buf (record { space = k; wrote = fits } ∷ []) at_start in
        (p.failed ≡ false) × (p.log ≡ to_pcb (take k buf) ∷ l)
  unfolding pump_loop add_chunk
  whole_pump whole = ground (arith, chunk_fits buf k fits at_start)

take_all : (buf : List ℕ) → take (length buf) buf ≡ buf
take_all [] = refl
take_all (x ∷ buf) = ap (◌∷◌ x) (take_all buf)

failed_pump :
    (e : Answers) (s : SessionTcp) (l : List Event)
    → s.pcb ≡ true
    → let p = pump_loop s.backward_buf e.rooms (no_chunk s) in
      (p.failed ≡ true) × (p.log ≡ l) → on_sent e s ≡ record s { log = l }
unfolding on_sent pump_to_lwip after_pump
failed_pump e s l up h = ground arith

passed_pump :
    (e : Answers) (s : SessionTcp) (l : List Event)
    → s.pcb ≡ true
    → let p = pump_loop s.backward_buf e.rooms (no_chunk s) in
      (p.failed ≡ false) × (p.log ≡ l) → passed (on_sent e s).log ≡ passed l
unfolding on_sent pump_to_lwip after_pump close_if_drained close_from_stack update_read_interest
    take_out passed
passed_pump e s l up h = ground arith

-- A pcb whose tcp_write takes a first chunk and then refuses another with an error that is not
-- ERR_MEM, and takes all at the next call: the first chunk goes to it twice.
pub pump_error_repeats_bytes :
    (s : SessionTcp) (e e' : Answers) (k : ℕ)
    → s.pcb ≡ true
    → 0 < k
    → k < length s.backward_buf
    → length s.backward_buf < 2 ^ 16
    → e.rooms ≡ record { space = k; wrote = fits } ∷ record { space = k; wrote = refused } ∷ []
    → e'.rooms ≡ record { space = length s.backward_buf; wrote = fits } ∷ []
    → passed (call e' acknowledged (call e acknowledged s)).log
      ≡ (passed s.log ++ take k s.backward_buf) ++ s.backward_buf
unfolding call passed
pump_error_repeats_bytes s e e' k up pos less small at at' =
    let buf = s.backward_buf in
    let l = to_pcb (take k buf) ∷ s.log in
    let torn =
      subst (λ rs. let p = pump_loop buf rs (no_chunk s) in (p.failed ≡ true) × (p.log ≡ l))
        (sym at) (torn_pump buf k s.log pos (omega arith) less) in
    let t = record s { log = l } in
    let whole =
      subst
        (λ rs.
          let p = pump_loop buf rs (no_chunk t) in
          (p.failed ≡ false) × (p.log ≡ to_pcb (take (length buf) buf) ∷ l))
        (sym at') (whole_pump buf (length buf) l (omega arith) small refl) in
    ap (λ u. passed (on_sent e' u).log) (failed_pump e s l up torn)
    ∙ passed_pump e' t (to_pcb (take (length buf) buf) ∷ l) up whole
    ∙ ap (λ b. (passed s.log ++ take k buf) ++ b) (take_all buf)
