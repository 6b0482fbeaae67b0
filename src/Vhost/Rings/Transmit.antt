-- ===== src/Vhost/Rings/Transmit.antt =====
-- What the guest's packets come to (oathgate-vhost/src/queue.rs, `kick_tx`).
use oathgate.Common.{
  ℕ, zero, suc, ◌*◌, ◌%◌, ◌^◌, ◌≤◌, ◌<◌, ◌≡◌, ◌≢◌, refl, ap, ◌∙◌, arith, true, List, [], ◌∷◌, ◌++◌,
  length, take, drop, Option, none, some, Outcome, ok, err, panic, length-take, dec_lt, length-drop,
  take-append-drop,
}
use oathgate.Net.Error.{ProtocolError}
use oathgate.Vhost.Error.{Error}
use oathgate.Vhost.NetHeader.{VirtioNetHeader, extract}
use oathgate.Vhost.Queue.{VirtioQueue}
use oathgate.Vhost.Device.{Syscall, continue}
use oathgate.Common.Bytes.{le_at}
use oathgate.Vhost.Rings.{
  Switch, Rings, used, called, notification, buffer_sz, Port, append_to, read_round, read_chain,
  rounds_of, transmit, transmit_all, kicked, kick_tx, process, switched, add_used, notice,
  set_rings, mapped, chains_of, call, write_call,
}

-- A reader that can be read gives the bytes of its chain in order, as many as are asked for while
-- there are so many, and can be read on; it says how many are left.
pub record IsReading (vq : VirtioQueue) (rings : Rings vq) : Type 1 where
  pub bytes : rings.Reader → List ℕ
  pub after : ℕ → rings.Reader → rings.Reader
  pub IsReadable : rings.Reader → Type 0
  pub read_lem :
      (n : ℕ) (r : rings.Reader)
      → IsReadable r
      → rings.read n r ≡ some (after n r, take n (bytes r))
  pub after-IsReadable : (n : ℕ) (r : rings.Reader) → IsReadable r → IsReadable (after n r)
  pub bytes-after : (n : ℕ) (r : rings.Reader) → bytes (after n r) ≡ drop n (bytes r)
  pub available_lem : (r : rings.Reader) → rings.available_bytes r ≡ length (bytes r)

-- The first bytes are all of them where there are fewer.
short_take : (n : ℕ) (xs : List ℕ) → length xs < n → take n xs ≡ xs
short_take zero xs h = absurd (omega arith)
short_take (suc n) [] h = refl
short_take (suc n) (x ∷ xs) h = ap (◌∷◌ x) (short_take n xs (omega arith))

module _ (vq : VirtioQueue) (rings : Rings vq) (sw : Switch) (os : Syscall → Option ℕ)
    (v : IsReading vq rings) where
  read_round_short :
      (again : rings.Reader → Outcome Error (List ℕ)) (r' : rings.Reader) (got : List ℕ)
      → length got < buffer_sz
      → read_round vq rings sw os again (some (r', got)) ≡ ok got
  unfolding read_round
  read_round_short again r' got h = ground arith

  read_round_long :
      (again : rings.Reader → Outcome Error (List ℕ)) (r' : rings.Reader) (got more : List ℕ)
      → buffer_sz ≤ length got
      → again r' ≡ ok more
      → read_round vq rings sw os again (some (r', got)) ≡ ok (got ++ more)
  unfolding read_round append_to
  read_round_long again r' got more h e = ground (arith, e)

  -- Reading a chain ends with all of its bytes, if there are rounds enough.
  read_chain_lem :
      (rounds : ℕ) (r : rings.Reader)
      → v.IsReadable r
      → length (v.bytes r) < rounds * buffer_sz
      → read_chain vq rings sw os rounds r ≡ ok (v.bytes r)
  unfolding read_chain
  read_chain_lem zero r can h = absurd (omega arith)
  read_chain_lem (suc rounds) r can h =
      let xs = v.bytes r in
      let again = read_chain vq rings sw os rounds in
      let step = ap (read_round vq rings sw os again) (v.read_lem buffer_sz r can) in
      elim (dec_lt (length xs) buffer_sz) [
        | yes short ↦
            step
            ∙ read_round_short again (v.after buffer_sz r) (take buffer_sz xs)
                (omega (arith, length-take buffer_sz xs))
            ∙ ap ok (short_take buffer_sz xs short)
        | no long ↦
            step
            ∙ read_round_long again (v.after buffer_sz r) (take buffer_sz xs) (drop buffer_sz xs)
                (omega (arith, length-take buffer_sz xs))
                (read_chain_lem rounds (v.after buffer_sz r) (v.after-IsReadable buffer_sz r can)
                    (omega (arith, ap length (v.bytes-after buffer_sz r), length-drop buffer_sz xs))
                  ∙ ap ok (v.bytes-after buffer_sz r))
            ∙ ap ok (take-append-drop buffer_sz xs)
      ]

  -- The port after one frame: the switch's new state, and the chain given back to the queue.
  abbrev pub sent :
      rings.Chain → List ℕ → sw.State → vq.Queue → Port vq rings sw os → Port vq rings sw os
  sent chain frame s q p = record p {
    queue = record (p.queue) { queue = q };
    switch = s;
    notices = used (rings.head_index chain) (length frame % 2 ^ 32) ∷ p.notices;
  }

  -- The chains are handled one after the other: each can be read and holds a header and a frame, the
  -- switch accepts the frame, and the chain can be given back. The second port is what the first
  -- becomes.
  pub data Accepts (mem : vq.Memory) (port : ℕ)
      : List rings.Chain → Port vq rings sw os → Port vq rings sw os → Type 0 where
    accepts_none : (p : Port vq rings sw os) → Accepts mem port [] p p
    accepts_one :
        (chain : rings.Chain) (chains : List rings.Chain) (p p' : Port vq rings sw os)
        (r : rings.Reader) (hdr : VirtioNetHeader) (frame : List ℕ) (s : sw.State) (q : vq.Queue)
        → rings.reader mem chain ≡ some r
        → v.IsReadable r
        → extract (v.bytes r) ≡ ok (hdr, frame)
        → sw.process port frame p.switch ≡ (s, ok tt)
        → rings.add_used mem (rings.head_index chain) (length frame % 2 ^ 32) p.queue.queue ≡ some q
        → Accepts mem port chains (sent chain frame s q p) p'
        → Accepts mem port (chain ∷ chains) p p'

  rounds_enough : (r : rings.Reader) → length (v.bytes r) < rounds_of vq rings sw os r * buffer_sz
  unfolding rounds_of
  rounds_enough r = omega (arith, v.available_lem r)

  pub transmit_accepted :
      (mem : vq.Memory) (port : ℕ) (chain : rings.Chain) (p : Port vq rings sw os)
      (r : rings.Reader) (hdr : VirtioNetHeader) (frame : List ℕ) (s : sw.State) (q : vq.Queue)
      → rings.reader mem chain ≡ some r
      → v.IsReadable r
      → extract (v.bytes r) ≡ ok (hdr, frame)
      → sw.process port frame p.switch ≡ (s, ok tt)
      → rings.add_used mem (rings.head_index chain) (length frame % 2 ^ 32) p.queue.queue ≡ some q
      → transmit vq rings sw os mem port chain p ≡ (sent chain frame s q p, ok tt)
  unfolding transmit process switched add_used notice set_rings
  transmit_accepted mem port chain p r hdr frame s q found can behind accepted returned = ground (
    arith,
    found,
    behind,
    accepted,
    read_chain_lem (rounds_of vq rings sw os r) r can (rounds_enough r),
    returned,
  )

  transmit_all_accepted :
      (mem : vq.Memory) (port : ℕ) (chains : List rings.Chain) (p p' : Port vq rings sw os)
      → Accepts mem port chains p p'
      → transmit_all vq rings sw os mem port chains p ≡ (p', ok tt)
  unfolding transmit_all
  transmit_all_accepted mem port _ p _ (accepts_none _) = refl
  transmit_all_accepted mem port _ p p'
        (accepts_one chain chains _ _ r hdr frame s q found can behind accepted returned rest) =
      ap (λ t. continue t (λ _. transmit_all vq rings sw os mem port chains))
        (transmit_accepted mem port chain p r hdr frame s q found can behind accepted returned)
      ∙ transmit_all_accepted mem port chains (sent chain frame s q p) p' rest

  -- A kick of the transmit queue hands the frames of all available chains to the switch in their
  -- order, gives each chain back, and then notifies the driver once: this where the number
  -- written is not zero, the memory is mapped, the ring can be walked, the queue is enabled at the
  -- end with a descriptor to call, the write to it succeeds, and every chain can be read, holds a
  -- header and a frame that the switch accepts, and can be given back.
  pub kick_tx_lem :
      (pkt : List ℕ) (port number fd : ℕ) (mem : vq.Memory) (q : vq.Queue)
      (chains : List rings.Chain) (p p' : Port vq rings sw os)
      → number ≢ 0
      → le_at {E = Error} 8 pkt 0 ≡ ok number
      → p.queue.mem ≡ some mem
      → rings.iter mem p.queue.queue ≡ some (q, chains)
      → Accepts mem port chains (record p { queue = record (p.queue) { queue = q } }) p'
      → p'.queue.enabled ≡ true
      → p'.queue.call_fd ≡ some fd
      → os (Syscall.write fd notification) ≡ none
      → kick_tx vq rings sw os pkt port p
        ≡ (record p' { notices = called fd notification ∷ p'.notices }, ok tt)
  unfolding kick_tx kicked mapped chains_of set_rings call write_call notice
  kick_tx_lem pkt port number fd mem q chains p p' nonzero reads has found accepted enabled calls
        wrote =
      ground (
        arith,
        has,
        found,
        enabled,
        calls,
        wrote,
        reads,
        transmit_all_accepted mem port chains (record p { queue = record (p.queue) { queue = q } })
            p' accepted,
      )

  -- A frame that the switch refuses panics the device's thread, before its chain is given back:
  -- the driver is told nothing.
  pub transmit-refused :
      (mem : vq.Memory) (port : ℕ) (chain : rings.Chain) (p : Port vq rings sw os)
      (r : rings.Reader) (hdr : VirtioNetHeader) (frame : List ℕ) (s : sw.State) (e : ProtocolError)
      → rings.reader mem chain ≡ some r
      → v.IsReadable r
      → extract (v.bytes r) ≡ ok (hdr, frame)
      → sw.process port frame p.switch ≡ (s, err e)
      → transmit vq rings sw os mem port chain p ≡ (record p { switch = s }, panic)
  unfolding transmit process switched
  transmit-refused mem port chain p r hdr frame s e found can behind refused = ground (
    arith,
    found,
    behind,
    refused,
    read_chain_lem (rounds_of vq rings sw os r) r can (rounds_enough r),
  )
