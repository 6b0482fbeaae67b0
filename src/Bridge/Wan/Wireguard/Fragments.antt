-- ===== src/Bridge/Wan/Wireguard/Fragments.antt =====
-- Fragments that come through the tunnel (oathgate-bridge/src/net/wan/wireguard.rs,
-- `handle_tun_result`, with oathgate-net/src/ipv4.rs, `add_fragment_data` and `finalize`).
use oathgate.Common.{
  ℕ, ◌+◌, ◌≤◌, ◌<◌, ◌≡◌, ◌≢◌, refl, sym, ap, ◌∙◌, arith, true, false, List, [], ◌∷◌, ◌++◌, length,
  length-append, Option, none, some, ℕ_discrete, ok, err,
}
use mathlib.Core.List.{append_assoc}
use oathgate.Common.HashMap.{get-insert_self}
use oathgate.Common.HashMap
use oathgate.Net.Ipv4.{Ipv4Packet, has_fragments, payload, add_fragment_data, finalize}
use oathgate.Bridge.Wan.{missing_fragment}
use oathgate.Bridge.Wan.Wireguard.{Tunn, WgDevice, Step, continue, rebuild, add_to, complete}
use oathgate.Bridge.Wan.Wireguard.Kept.{
  IsKept, payload-kept, IsKept-payload, extended, add_fragment_data-next, extended-IsKept,
  completed, completed-IsKept, finalize-kept,
}

-- The fragments that follow when so many bytes of payload have come, in their order, and what they
-- hold: each begins where the one before ended, and only the last one says that none follow.
pub data Follows (id : ℕ) : ℕ → List Ipv4Packet → List ℕ → Type 0 where
  last :
      (n : ℕ) (pkt : Ipv4Packet) (body : List ℕ)
      → pkt.header.id ≡ id
      → has_fragments pkt ≡ false
      → pkt.header.frag_offset ≡ n
      → payload pkt ≡ ok body
      → Follows id n (pkt ∷ []) body
  more :
      (n : ℕ) (pkt : Ipv4Packet) (pkts : List Ipv4Packet) (body bodies all : List ℕ)
      → pkt.header.id ≡ id
      → has_fragments pkt ≡ true
      → pkt.header.frag_offset ≡ n
      → payload pkt ≡ ok body
      → Follows id (n + length body) pkts bodies
      → all ≡ body ++ bodies
      → Follows id n (pkt ∷ pkts) all

module _ (tunn : Tunn) (send : List ℕ → Option ℕ) where
  -- The packets that a sequence of packets gives, in the order they are complete.
  unfoldable pub rebuild_each : List Ipv4Packet → Step tunn send (List Ipv4Packet)
  rebuild_each [] d = (d, ok [])
  rebuild_each (pkt ∷ pkts) d = continue tunn send (rebuild tunn send pkt d) (λ o d'.
      continue tunn send (rebuild_each pkts d')
        (λ rest d''. (d'', ok (elim o [ none ↦ rest | some p ↦ p ∷ rest ]))))

  rebuild-first :
      (pkt : Ipv4Packet) (d : WgDevice tunn send)
      → has_fragments pkt ≡ true
      → pkt.header.frag_offset ≡ 0
      → rebuild tunn send pkt d
        ≡ (record d { cache = HashMap.insert ℕ_discrete d.cache pkt.header.id pkt }, ok none)
  unfolding rebuild
  rebuild-first pkt d frag first = ground arith

  rebuild-middle :
      (pkt kept : Ipv4Packet) (so_far body : List ℕ) (d : WgDevice tunn send)
      → HashMap.get ℕ_discrete d.cache pkt.header.id ≡ some kept
      → IsKept kept so_far
      → 0 < length so_far
      → has_fragments pkt ≡ true
      → pkt.header.frag_offset ≡ length so_far
      → payload pkt ≡ ok body
      → rebuild tunn send pkt d ≡ (
        record d { cache = HashMap.insert ℕ_discrete d.cache pkt.header.id (extended kept body) },
        ok none,
      )
  unfolding rebuild add_to
  rebuild-middle pkt kept so_far body d found k some_far frag at_end holds =
      ground (arith, found, holds, add_fragment_data-next kept so_far body k)

  rebuild-later :
      (pkt : Ipv4Packet) (d : WgDevice tunn send)
      → pkt.header.frag_offset ≢ 0
      → has_fragments pkt ≡ false
      → rebuild tunn send pkt d
        ≡ complete tunn send pkt.header.id pkt.header.frag_offset pkt
            (HashMap.get ℕ_discrete d.cache pkt.header.id)
            d
  unfolding rebuild
  rebuild-later pkt d later frag = ground arith

  complete-some :
      (id offset : ℕ) (pkt kept longer whole : Ipv4Packet) (body : List ℕ) (d : WgDevice tunn send)
      → payload pkt ≡ ok body
      → add_fragment_data kept offset body ≡ ok longer
      → finalize longer ≡ ok whole
      → complete tunn send id offset pkt (some kept) d
        ≡ (record d { cache = HashMap.remove ℕ_discrete d.cache id }, ok (some whole))
  unfolding complete
  complete-some id offset pkt kept longer whole body d holds added finished =
      rw holds (rw added (rw finished refl))

  rebuild_complete :
      (pkt kept longer whole : Ipv4Packet) (body : List ℕ) (d : WgDevice tunn send)
      → HashMap.get ℕ_discrete d.cache pkt.header.id ≡ some kept
      → pkt.header.frag_offset ≢ 0
      → has_fragments pkt ≡ false
      → payload pkt ≡ ok body
      → add_fragment_data kept pkt.header.frag_offset body ≡ ok longer
      → finalize longer ≡ ok whole
      → rebuild tunn send pkt d
        ≡ (record d { cache = HashMap.remove ℕ_discrete d.cache pkt.header.id }, ok (some whole))
  rebuild_complete pkt kept longer whole body d found later frag holds added finished =
      rebuild-later pkt d later frag
      ∙ ap (λ o. complete tunn send pkt.header.id pkt.header.frag_offset pkt o d) found
      ∙ complete-some pkt.header.id pkt.header.frag_offset pkt kept longer whole body d holds added
          finished

  rebuild-last :
      (pkt kept : Ipv4Packet) (so_far body : List ℕ) (d : WgDevice tunn send)
      → HashMap.get ℕ_discrete d.cache pkt.header.id ≡ some kept
      → IsKept kept so_far
      → 0 < length so_far
      → has_fragments pkt ≡ false
      → pkt.header.frag_offset ≡ length so_far
      → payload pkt ≡ ok body
      → rebuild tunn send pkt d ≡ (
        record d { cache = HashMap.remove ℕ_discrete d.cache pkt.header.id },
        ok (some (completed (extended kept body))),
      )
  rebuild-last pkt kept so_far body d found k some_far frag at_end holds =
      rebuild_complete pkt kept (extended kept body) (completed (extended kept body)) body d found
        (λ e. absurd (omega arith)) frag holds
        (ap (λ n. add_fragment_data kept n body) at_end ∙ add_fragment_data-next kept so_far body k)
        (finalize-kept (extended kept body) (so_far ++ body) (extended-IsKept kept so_far body k))

  -- The last fragment of a packet of which no fragment is kept is an error.
  pub rebuild-missing :
      (pkt : Ipv4Packet) (d : WgDevice tunn send)
      → HashMap.get ℕ_discrete d.cache pkt.header.id ≡ none
      → has_fragments pkt ≡ false
      → pkt.header.frag_offset ≢ 0
      → rebuild tunn send pkt d ≡ (d, err missing_fragment)
  unfolding rebuild complete
  rebuild-missing pkt d lost frag later = ground (arith, lost)

  -- A packet that is kept, with what it says of itself.
  abbrev pub SameFlow : Ipv4Packet → Ipv4Packet → Type 0
  SameFlow p q =
      (p.header.src ≡ q.header.src)
      × (p.header.dst ≡ q.header.dst)
      × (p.header.protocol ≡ q.header.protocol)
      × (p.header.id ≡ q.header.id)

  -- What comes of a packet that is kept, when the fragments that follow have come.
  rebuild_each-Follows :
      (id n : ℕ) (kept : Ipv4Packet) (so_far : List ℕ) (pkts : List Ipv4Packet) (all : List ℕ)
      (d : WgDevice tunn send)
      → Follows id n pkts all
      → n ≡ length so_far
      → 0 < n
      → HashMap.get ℕ_discrete d.cache id ≡ some kept
      → IsKept kept so_far
      → (d' : WgDevice tunn send) × (whole : Ipv4Packet) × (rebuild_each pkts d
          ≡ (d', ok (whole ∷ [])))
        × (payload whole ≡ ok (so_far ++ all))
        × (has_fragments whole ≡ false)
        × SameFlow whole kept
  unfolding rebuild_each has_fragments
  rebuild_each-Follows id n kept so_far _ all d (last _ pkt body same frag at_n holds) e some_far
        found k =
      let found' = ap (λ i. HashMap.get ℕ_discrete d.cache i) same ∙ found in
      let whole = completed (extended kept body) in
      (
        record d { cache = HashMap.remove ℕ_discrete d.cache pkt.header.id },
        whole,
        ground (
          arith,
          rebuild-last pkt kept so_far body d found' k (omega arith) frag (at_n ∙ e) holds,
        ),
        payload-kept whole (so_far ++ body) (
            completed-IsKept (extended kept body) (so_far ++ body)
              (extended-IsKept kept so_far body k)),
        refl,
        (refl, refl, refl, refl),
      )
  rebuild_each-Follows id n kept so_far _ all d
        (more _ pkt pkts body bodies _ same frag at_n holds rest joined) e some_far found k =
      let found' = ap (λ i. HashMap.get ℕ_discrete d.cache i) same ∙ found in
      let next = extended kept body in
      let d1 : WgDevice tunn send = record d {
        cache = HashMap.insert ℕ_discrete d.cache pkt.header.id next;
      } in
      let (d', whole, runs, holds_all, whole_frag, flow) =
        rebuild_each-Follows id (n + length body) next (so_far ++ body) pkts bodies d1 rest
          (omega (arith, length-append {0} so_far body)) (omega arith)
          (ap (HashMap.get ℕ_discrete d1.cache) (sym same)
            ∙ get-insert_self ℕ_discrete d.cache pkt.header.id next)
          (extended-IsKept kept so_far body k) in
      (
        d',
        whole,
        ground (
          arith,
          rebuild-middle pkt kept so_far body d found' k (omega arith) frag (at_n ∙ e) holds,
          runs,
        ),
        holds_all ∙ ap ok (append_assoc so_far body bodies ∙ ap (λ t. so_far ++ t) (sym joined)),
        whole_frag,
        flow,
      )

  -- The fragments of a packet that come through the tunnel in their order are put together to one
  -- packet: its payload is all they held, one after the other, it says that no fragments follow, and
  -- it has the addresses, the protocol and the identification of the first. This for a first fragment
  -- that holds some payload behind a header of five words or more.
  pub rebuild_in_order :
      (first : Ipv4Packet) (pkts : List Ipv4Packet) (body bodies : List ℕ) (d : WgDevice tunn send)
      → has_fragments first ≡ true
      → first.header.frag_offset ≡ 0
      → 5 ≤ first.header.ihl
      → payload first ≡ ok body
      → 0 < length body
      → Follows first.header.id (length body) pkts bodies
      → (d' : WgDevice tunn send) × (whole : Ipv4Packet) × (rebuild_each (first ∷ pkts) d
          ≡ (d', ok (whole ∷ [])))
        × (payload whole ≡ ok (body ++ bodies))
        × (has_fragments whole ≡ false)
        × SameFlow whole first
  unfolding rebuild_each
  rebuild_in_order first pkts body bodies d frag at_0 ihl holds some_body follows =
      let d1 : WgDevice tunn send = record d {
        cache = HashMap.insert ℕ_discrete d.cache first.header.id first;
      } in
      let (d', whole, runs, holds_all, whole_frag, flow) =
        rebuild_each-Follows first.header.id (length body) first body pkts bodies d1 follows refl
          some_body (get-insert_self ℕ_discrete d.cache first.header.id first)
          (IsKept-payload first body ihl holds) in
      (
        d',
        whole,
        ground (arith, rebuild-first first d frag at_0, runs),
        holds_all,
        whole_frag,
        flow,
      )
