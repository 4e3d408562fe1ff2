-- ===== src/Net/Core/Packets.antt =====
-- net/net.c: where the packets of the pool are.
use scepter.Net.Proto.{net_proto_rx}
use mathlib.Core.Path.{subst}
use scepter.Net.Core.{
  enqueue, Net, net_transmit, net_pool_size, Iface, net_rx, net_recv, answer, count_rx, bump,
  net_max_frame, count_tx, net_proto_rx,
}
use scepter.Base.{
  ℕ, ◌+◌, length, ◌≡◌, Bool, ap, List, ◌∙◌, arith, sym, true, refl, suc, ◌⊎◌, [], inl, ◌∷◌, inr,
  none, if◌then◌else◌, ◌++◌, false, zero, some, Option, length-append, ltb, List-cases, ◌^◌, min,
  Option-cases, ◌||◌, ◌-◌, ◌==◌, take, not, Bool-cases,
}

-- The packets of the pool are free, in this queue, or in those of the other interfaces.
pub record IsBalanced (others : ℕ) (s : Net) : Type 0 where
  pub packets : s.pool_free + length s.iface.rx_queue + others ≡ net_pool_size
  pub counted : s.iface.rx_count ≡ length s.iface.rx_queue

-- Two states with the same free packets, queue and counter.
pub record SameQueue (s s' : Net) : Type 0 where
  pub free : s'.pool_free ≡ s.pool_free
  pub queue : s'.iface.rx_queue ≡ s.iface.rx_queue
  pub counter : s'.iface.rx_count ≡ s.iface.rx_count

SameQueue-IsBalanced :
    (others : ℕ) (s s' : Net) → SameQueue s s' → IsBalanced others s → IsBalanced others s'
SameQueue-IsBalanced others s s' same b =
    let size : length s'.iface.rx_queue ≡ length s.iface.rx_queue = ap length same.queue in
    record {
      packets = omega (arith, same.free, b.packets);
      counted = same.counter ∙ b.counted ∙ sym size;
    }

abbrev Kept : Iface → Option (List ℕ) × Iface → Type 0
Kept i r = (r.1.rx_queue ≡ i.rx_queue) × (r.1.rx_count ≡ i.rx_count)

Kept-tests :
    (i : Iface) (a b c : Bool) (r : Option (List ℕ) × Iface)
    → Kept i r
    → Kept i (if a then (none, i) else if b then (none, i) else if c then (none, i) else r)
Kept-tests i true b c r k = (refl, refl)
Kept-tests i false true c r k = (refl, refl)
Kept-tests i false false true r k = (refl, refl)
Kept-tests i false false false r k = k

net_transmit-Kept :
    (accepts : List ℕ → Bool) (bytes : List ℕ) (i : Iface) → Kept i (net_transmit accepts bytes i)
unfolding net_transmit
net_transmit-Kept accepts bytes i =
    Kept-tests i (not i.has_transmit) (not i.up)
      ((length bytes == 0) || ltb net_max_frame (length bytes))
      (some bytes, record i { stats = count_tx (accepts bytes) (length bytes) i.stats })
      (refl, refl)

answer-Kept :
    (accepts : List ℕ → Bool) (reply : Option (List ℕ)) (i : Iface)
    → Kept i (none, answer accepts reply i)
answer-Kept accepts none i = (refl, refl)
answer-Kept accepts (some reply) i = net_transmit-Kept accepts reply i

ℕ-cases : (n : ℕ) → (n ≡ 0) ⊎ ((m : ℕ) × (n ≡ suc m))
ℕ-cases zero = inl refl
ℕ-cases (suc m) = inr (m, refl)

length-snoc : (xs : List (List ℕ)) (x : List ℕ) → length (xs ++ (x ∷ [])) ≡ length xs + 1
length-snoc xs x = length-append xs (x ∷ [])

enqueue-IsBalanced :
    (others : ℕ) (bytes : List ℕ) (s : Net)
    → IsBalanced others s
    → IsBalanced others (enqueue bytes s).1
unfolding enqueue
enqueue-IsBalanced others bytes s b = elim (ℕ-cases s.pool_free) [
  | inl e ↦
      let full : enqueue bytes s ≡ (
        false,
        record s {
          iface = record s.iface {
            stats = record s.iface.stats { rx_dropped = bump s.iface.stats.rx_dropped 1 };
          };
        },
      ) =
        rw (enqueue, e, e) refl in
      subst (λ r. IsBalanced others r.1) (sym full)
        (record { packets = b.packets; counted = b.counted })
  | inr (n, e) ↦
      let room : enqueue bytes s ≡ (
        true,
        record {
          iface = record s.iface {
            rx_queue = s.iface.rx_queue ++ (bytes ∷ []);
            rx_count = bump s.iface.rx_count 1;
          };
          pool_free = n;
        },
      ) =
        rw (enqueue, e) refl in
      let longer = length-snoc s.iface.rx_queue bytes in
      subst (λ r. IsBalanced others r.1) (sym room)
        (record {
          packets = omega (arith, b.packets, longer);
          counted = omega (arith, b.counted, b.packets, longer);
        })
]

net_rx-IsBalanced :
    (others : ℕ) (accepts : List ℕ → Bool) (frame : List ℕ) (len : ℕ) (s : Net)
    → IsBalanced others s
    → IsBalanced others (net_rx accepts frame len s).1
unfolding net_rx
net_rx-IsBalanced others accepts frame len s b =
    let i = count_rx len s.iface in
    elim (Bool-cases ((len == 0) || ltb net_max_frame len)) [
      | inl t ↦
          let eq : net_rx accepts frame len s ≡ (false, s) = rw (net_rx, t) refl in
          subst (λ r. IsBalanced others r.1) (sym eq) b
      | inr t ↦ elim (Option-cases (net_proto_rx i.loopback i.address frame len)) [
        | inl en ↦
            let eq : net_rx accepts frame len s
                ≡ enqueue (take len frame) (record s { iface = i }) =
              rw (net_rx, t, en) refl in
            subst (λ r. IsBalanced others r.1) (sym eq)
              (enqueue-IsBalanced others (take len frame) (record s { iface = i })
                (record { packets = b.packets; counted = b.counted }))
        | inr (reply, er) ↦
            let eq : net_rx accepts frame len s
                ≡ (false, record s { iface = answer accepts reply i }) =
              rw (net_rx, t, er) refl in
            let (queue, counter) = answer-Kept accepts reply i in
            subst (λ r. IsBalanced others r.1) (sym eq)
              (SameQueue-IsBalanced others s (record s { iface = answer accepts reply i })
                (record { free = refl; queue = queue; counter = counter }) b)
      ]
    ]

net_recv-IsBalanced :
    (others buflen : ℕ) (s : Net) → IsBalanced others s → IsBalanced others (net_recv buflen s).1
unfolding net_recv
net_recv-IsBalanced others buflen s b = elim (List-cases s.iface.rx_queue) [
  | inl e ↦
      let eq : net_recv buflen s ≡ ([], s) = rw (net_recv, e, e) refl in
      subst (λ r. IsBalanced others r.1) (sym eq) b
  | inr (p, (ps, e)) ↦
      let eq : net_recv buflen s ≡ (
        take (min (length p) buflen) p,
        record {
          iface = record s.iface { rx_queue = ps; rx_count = bump s.iface.rx_count (2 ^ 32 - 1) };
          pool_free = s.pool_free + 1;
        },
      ) =
        rw (net_recv, e) refl in
      let size : length s.iface.rx_queue ≡ suc (length ps) = ap length e in
      subst (λ r. IsBalanced others r.1) (sym eq)
        (record {
          packets = omega (arith, b.packets, size);
          counted = omega (arith, b.counted, b.packets, size);
        })
]

-- No packet of the pool is lost: while its 48 packets are free, in the queue of the interface or
-- in those of the others, and the counter is the length of the queue, that stays so whatever
-- frame is received, with any driver whose transmit does not come back to net_rx, and whenever a
-- frame is handed out.
pub net_rx-net_recv-IsBalanced :
    (others : ℕ) (accepts : List ℕ → Bool) (frame : List ℕ) (len buflen : ℕ) (s : Net)
    → IsBalanced others s
    → IsBalanced others (net_rx accepts frame len s).1 × IsBalanced others (net_recv buflen s).1
net_rx-net_recv-IsBalanced others accepts frame len buflen s b =
    (net_rx-IsBalanced others accepts frame len s b, net_recv-IsBalanced others buflen s b)
