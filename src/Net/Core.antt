-- ===== src/Net/Core.antt =====
-- net/net.c: interfaces, their receive queues and the pool of packets. Whether the driver accepts
-- a frame is a parameter; that of the loopback interface, which comes back to `net_rx`, is not
-- modelled.
pub mod Packets
use scepter.Net.Proto.{Address, net_proto_rx}
use scepter.Base.{
  ℕ, some, ◌^◌, not, zero, ltb, min, ◌%◌, false, if◌then◌else◌, true, Option, ◌-◌, ◌||◌, length,
  none, ◌∷◌, ◌+◌, take, ◌==◌, List, ◌++◌, suc, Bool, [],
}

abbrev pub net_max_frame : ℕ
net_max_frame = 2048

abbrev pub net_pool_size : ℕ
net_pool_size = 48

-- `net_stats_t`, of uint32_t counters.
pub record NetStats : Type 0 where
  pub rx_packets : ℕ
  pub tx_packets : ℕ
  pub rx_bytes : ℕ
  pub tx_bytes : ℕ
  pub rx_dropped : ℕ
  pub tx_dropped : ℕ

-- `net_iface_t`: its addresses, whether its type is the loopback one, whether it is up and has a
-- transmit callback, and the packets from `rx_head` on.
pub record Iface : Type 0 where
  pub address : Address
  pub loopback : Bool
  pub up : Bool
  pub has_transmit : Bool
  pub stats : NetStats
  pub rx_queue : List (List ℕ)
  pub rx_count : ℕ

-- An interface and the number of packets in `g_pool_free`.
pub record Net : Type 0 where
  pub iface : Iface
  pub pool_free : ℕ

abbrev pub bump : ℕ → ℕ → ℕ
bump counter n = (counter + n) % 2 ^ 32

abbrev pub count_tx : Bool → ℕ → NetStats → NetStats
count_tx true len s = record s { tx_packets = bump s.tx_packets 1; tx_bytes = bump s.tx_bytes len }
count_tx false len s = record s { tx_dropped = bump s.tx_dropped 1 }

-- `net_transmit` on an interface that is not NULL: the frame that the driver is given, if any.
unfoldable pub net_transmit : (accepts : List ℕ → Bool) → List ℕ → Iface → Option (List ℕ) × Iface
net_transmit accepts bytes i =
    let len = length bytes in
    if not i.has_transmit
    then (none, i)
    else if not i.up
    then (none, i)
    else if (len == 0) || ltb net_max_frame len
    then (none, i)
    else (some bytes, record i { stats = count_tx (accepts bytes) len i.stats })

-- A frame for user space: into a packet of the pool, or dropped.
unfoldable pub enqueue : List ℕ → Net → Bool × Net
enqueue bytes s = elim s.pool_free [
  | zero ↦ (
    false,
    record s {
      iface = record s.iface {
        stats = record s.iface.stats { rx_dropped = bump s.iface.stats.rx_dropped 1 };
      };
    },
  )
  | suc n ↦ (
    true,
    record {
      iface = record s.iface {
        rx_queue = s.iface.rx_queue ++ (bytes ∷ []);
        rx_count = bump s.iface.rx_count 1;
      };
      pool_free = n;
    },
  )
]

abbrev pub count_rx : ℕ → Iface → Iface
count_rx len i = record i {
  stats = record i.stats {
    rx_packets = bump i.stats.rx_packets 1;
    rx_bytes = bump i.stats.rx_bytes len;
  };
}

-- A frame that the protocol layer consumed, with its reply.
abbrev pub answer : (accepts : List ℕ → Bool) → Option (List ℕ) → Iface → Iface
answer accepts none i = i
answer accepts (some reply) i = (net_transmit accepts reply i).1

-- `net_rx` with pointers that are not NULL; `frame` is the memory from the frame on. The result
-- says whether the sleepers in net_recv are woken.
unfoldable pub net_rx : (accepts : List ℕ → Bool) → (frame : List ℕ) → (len : ℕ) → Net → Bool × Net
net_rx accepts frame len s =
    let i = count_rx len s.iface in
    if (len == 0) || ltb net_max_frame len
    then (false, s)
    else elim (net_proto_rx i.loopback i.address frame len) [
      | none ↦ enqueue (take len frame) (record s { iface = i })
      | some reply ↦ (false, record s { iface = answer accepts reply i })
    ]

abbrev pub net_poll : Iface → Bool
net_poll i = elim i.rx_queue [ [] ↦ false | p ∷ ps ↦ true ]

-- `net_recv` with pointers that are not NULL: the bytes copied.
unfoldable pub net_recv : (buflen : ℕ) → Net → List ℕ × Net
net_recv buflen s = elim s.iface.rx_queue [
  | [] ↦ ([], s)
  | p ∷ ps ↦ (
    take (min (length p) buflen) p,
    record {
      iface = record s.iface { rx_queue = ps; rx_count = bump s.iface.rx_count (2 ^ 32 - 1) };
      pool_free = s.pool_free + 1;
    },
  )
]
