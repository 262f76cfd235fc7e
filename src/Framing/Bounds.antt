-- ===== src/Framing/Bounds.antt =====
-- `get_packet` on any stream of characters: the buffer keeps its end, and no access is outside it.
use libgdb.Prelude.{
  ℕ, suc, ◌+◌, ◌-◌, ◌%◌, ◌*◌, ◌≤◌, ◌<◌, ◌≡◌, refl, ap, ◌∙◌, true, ◌&&◌, [], ◌∷◌, length, length-set,
  set, get_elem?-set_self, get_elem?-set_ne, get_elem?-some, arith, ltb, ◌==◌, ==_iff, ne_of,
  Bool-cases, inl, inr, get_elem?, some,
}
use libgdb.Prelude.Outcome.{Outcome, or_fault, out_of_bounds, Returns, Returns-bind, Returns-if}
use libgdb.Util.Buffer.{Bytes, store}
use libgdb.Util.Hex.{hexchar_to_int}
use libgdb.Gdb.State.{bufsize}
use libgdb.Framing.{
  Link, Mode, start, reading, high, low, Step, wait, return, accept, take_char, get_packet_step,
  Received, waiting, packet, after_sent, resume, get_packet,
}

-- The buffer has its size, and its last byte is NUL.
pub record Terminated (buf : Bytes) : Type 0 where
  pub size : length buf ≡ bufsize
  pub end : get_elem? buf (bufsize - 1) ≡ some 0

-- There is room for another character of the text.
abbrev pub HasRoom : Mode → Type 0
HasRoom (reading cksum count) = count < bufsize - 1
HasRoom start = Unit
HasRoom (high cksum) = Unit
HasRoom (low cksum h) = Unit

abbrev pub IsSafe : Step → Type 0
IsSafe (wait mode buf out) = HasRoom mode × Terminated buf
IsSafe (return p buf out) = (p ≤ 3) × Terminated buf

store-Terminated :
    (buf : Bytes) (p v : ℕ)
    → Terminated buf
    → p < bufsize
    → (p ≡ bufsize - 1 → v ≡ 0)
    → Returns Terminated (store buf p v)
unfolding store
store-Terminated buf p v h inside last =
    let fits : ltb p (length buf) ≡ true = ground (arith, h.size) in
    (set buf p v, rw fits refl, record { size = length-set buf p v ∙ h.size; end = at_end })
  where
    at_end : get_elem? (set buf p v) (bufsize - 1) ≡ some 0
    at_end = elim (Bool-cases (p == (bufsize - 1))) [
      | inl here ↦
          let same = (==_iff p (bufsize - 1)).0 here in
          rw (← same) (get_elem?-set_self buf p v (omega (arith, h.size)) ∙ ap some (last same))
      | inr other ↦ get_elem?-set_ne buf p (bufsize - 1) v (ne_of other) ∙ h.end
    ]

read-Returns :
    (buf : Bytes) (i : ℕ)
    → length buf ≡ bufsize
    → i < bufsize
    → Returns (λ c. Unit {0}) (or_fault (get_elem? buf i) out_of_bounds)
read-Returns buf i size inside =
    let (c, e) = get_elem?-some buf i (omega (arith, size)) in (c, rw e refl, tt)

module _ (link : Link) where
  accept-IsSafe :
      (buf : Bytes)
      → link.echo_from + 1 < bufsize
      → Terminated buf
      → Returns IsSafe (accept link buf)
  unfolding accept
  accept-IsSafe buf fits h = Returns-bind (read-Returns buf 2 h.size (omega arith)) λ third _.
      Returns-if (third == b':')
        (λ _. Returns-bind (read-Returns buf link.echo_from h.size (omega arith)) λ a _.
          Returns-bind (read-Returns buf (link.echo_from + 1) h.size fits)
            λ b _. (return 3 buf (b'+' ∷ a ∷ b ∷ []), refl, (omega arith, h)))
        (λ _. (return 0 buf (b'+' ∷ []), refl, (omega arith, h)))

  take_char-IsSafe :
      (cksum count : ℕ) (buf : Bytes) (c : ℕ)
      → count < bufsize - 1
      → Terminated buf
      → Returns IsSafe (take_char cksum count buf c)
  unfolding take_char
  take_char-IsSafe cksum count buf c room h =
      Returns-bind (store-Terminated buf count c h (omega arith) (λ e. absurd (omega arith)))
        λ buf₁ h₁.
          Returns-if (ltb (count + 1) (bufsize - 1))
            (λ more.
              (wait (reading ((cksum + c) % 256) (count + 1)) buf₁ [], refl, (ground arith, h₁)))
            (λ _.
              Returns-bind (store-Terminated buf₁ (count + 1) 0 h₁ (omega arith) (λ _. refl))
                λ buf₂ h₂. (wait start buf₂ [], refl, (tt, h₂)))

  get_packet_step-IsSafe :
      (mode : Mode) (buf : Bytes) (c : ℕ)
      → link.echo_from + 1 < bufsize
      → HasRoom mode
      → Terminated buf
      → Returns IsSafe (get_packet_step link mode buf c)
  unfolding get_packet_step
  get_packet_step-IsSafe start buf c fits room h =
      Returns-if (c == b'$') (λ _. (wait (reading 0 0) buf [], refl, (omega arith, h)))
        (λ _.
          Returns-if (link.interrupts && c == 3)
            (λ _.
              Returns-bind (store-Terminated buf 0 c h (omega arith) (λ e. absurd (omega arith)))
                λ buf₁ h₁.
                  Returns-bind (store-Terminated buf₁ 1 0 h₁ (omega arith) (λ _. refl))
                    λ buf₂ h₂. (return 0 buf₂ [], refl, (omega arith, h₂)))
            (λ _. (wait start buf [], refl, (tt, h))))
  get_packet_step-IsSafe (reading cksum count) buf c fits room h =
      Returns-if (c == b'$') (λ _. (wait (reading 0 0) buf [], refl, (omega arith, h)))
        (λ _.
          Returns-if (c == b'#')
            (λ _.
              Returns-bind (store-Terminated buf count 0 h (omega arith) (λ _. refl))
                λ buf₁ h₁. (wait (high cksum) buf₁ [], refl, (tt, h₁)))
            (λ _. take_char-IsSafe cksum count buf c room h))
  get_packet_step-IsSafe (high cksum) buf c fits room h = (wait (low cksum c) buf [], refl, (tt, h))
  get_packet_step-IsSafe (low cksum d) buf c fits room h =
      Returns-if (cksum == (hexchar_to_int d * 16 % 256 + hexchar_to_int c) % 256)
        (λ _. accept-IsSafe buf fits h) (λ _. (wait start buf (b'-' ∷ []), refl, (tt, h)))

-- Of a stream of `n` characters, what is left of it is shorter when a packet is returned.
abbrev pub IsSafeReceived : ℕ → Received → Type 0
IsSafeReceived n (waiting mode buf sent) = HasRoom mode × Terminated buf
IsSafeReceived n (packet p buf rest sent) = (p ≤ 3) × Terminated buf × (length rest < n)

after_sent-IsSafe :
    (n : ℕ) (out : Bytes) (r : Received)
    → IsSafeReceived n r
    → IsSafeReceived (suc n) (after_sent out r)
after_sent-IsSafe n out (waiting mode buf sent) h = h
after_sent-IsSafe n out (packet p buf rest sent) (near, h, shorter) = (near, h, omega arith)

resume-IsSafe :
    (more : Mode → Bytes → Outcome Received) (stream : Bytes)
    → ((mode : Mode) (buf : Bytes)
        → HasRoom mode
        → Terminated buf
        → Returns (IsSafeReceived (length stream)) (more mode buf))
    → (s : Step) → IsSafe s
    → Returns (IsSafeReceived (suc (length stream))) (resume more stream s)
resume-IsSafe more stream ih (wait mode buf out) (room, h) =
    Returns-bind (ih mode buf room h)
      λ r safe. (after_sent out r, refl, after_sent-IsSafe (length stream) out r safe)
resume-IsSafe more stream ih (return p buf out) (near, h) =
    (packet p buf stream out, refl, (near, h, omega arith))

-- From a buffer of BUFSIZE bytes whose last one is NUL, with room for a character where one is to be
-- stored, and for a link whose two echoed bytes are inside the buffer, every stream of characters is
-- taken without a fault. Either get_packet waits on with room and with such a buffer, or it returns a
-- pointer to one of the first four places of such a buffer and has used a character of the stream at
-- least.
pub get_packet-IsSafe :
    (link : Link) (mode : Mode) (buf stream : Bytes)
    → link.echo_from + 1 < bufsize
    → HasRoom mode
    → Terminated buf
    → Returns (IsSafeReceived (length stream)) (get_packet link mode buf stream)
unfolding get_packet
get_packet-IsSafe link mode buf [] fits room h = (waiting mode buf [], refl, (room, h))
get_packet-IsSafe link mode buf (c ∷ stream) fits room h =
    Returns-bind (get_packet_step-IsSafe link mode buf c fits room h) (
      resume-IsSafe (λ mode' buf'. get_packet link mode' buf' stream) stream
        (λ mode' buf'. get_packet-IsSafe link mode' buf' stream fits))
