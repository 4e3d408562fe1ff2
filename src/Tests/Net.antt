-- ===== src/Tests/Net.antt =====
-- net/ at concrete inputs: an echo request and a queue of packets.
use scepter.Net.Proto.Header.{icmp_rx_ip-Header}
use scepter.Net.Checksum.Valid.{AllBytes, no_bytes, more_bytes}
use scepter.Net.Checksum.{net_checksum, fold_carries}
use scepter.Net.Core.{Net, net_rx, net_recv}
use scepter.Net.Core.Packets.{IsBalanced, net_rx-net_recv-IsBalanced}
use scepter.Net.Proto.{Address, icmp_rx_ip, eth_header, byte_at}
use scepter.Base.{
  ℕ, both_true, some, ltb→lt, none, refl, ltb, ◌∷◌, ◌&&◌, true, ◌≡◌, List, [], ◌++◌, Bool, arith,
  drop, false, length,
}

abbrev here_ip : Address
here_ip = record { mac = 2 ∷ 0 ∷ 0 ∷ 0 ∷ 0 ∷ 1 ∷ []; ip = 10 ∷ 0 ∷ 0 ∷ 2 ∷ [] }

-- An echo request of 28 bytes from 10.0.0.1.
abbrev ping : List ℕ
ping =
    69 ∷ 0 ∷ 0 ∷ 28 ∷ 0 ∷ 1 ∷ 0 ∷ 0 ∷ 64 ∷ 1 ∷ 0 ∷ 0 ∷ 10 ∷ 0 ∷ 0 ∷ 1 ∷ 10 ∷ 0 ∷ 0 ∷ 2 ∷ 8 ∷ 0 ∷ 247
    ∷ 254 ∷ 0 ∷ 1 ∷ 0 ∷ 0 ∷ []

abbrev all_small : List ℕ → Bool
all_small [] = true
all_small (x ∷ xs) = ltb x 256 && all_small xs

bytes_of : (xs : List ℕ) → all_small xs ≡ true → AllBytes xs
bytes_of [] h = no_bytes
bytes_of (x ∷ xs) h =
    let (hx, hs) = both_true (ltb x 256) (all_small xs) h in
    more_bytes (ltb→lt x 256 hx) (bytes_of xs hs)

-- The reply keeps the checksum of the request in the sum: its own is wrong.
abbrev pong : List ℕ
pong =
    69 ∷ 0 ∷ 0 ∷ 28 ∷ 0 ∷ 0 ∷ 0 ∷ 0 ∷ 64 ∷ 1 ∷ 102 ∷ 223 ∷ 10 ∷ 0 ∷ 0 ∷ 2 ∷ 10 ∷ 0 ∷ 0 ∷ 1 ∷ 0 ∷ 0
    ∷ 8 ∷ 0 ∷ 0 ∷ 1 ∷ 0 ∷ 0 ∷ []

ping_run : icmp_rx_ip here_ip ping 28 none ≡ some (some pong)
unfolding icmp_rx_ip net_checksum fold_carries
ping_run = refl

icmp_rx_ip-Header_example :
    (header : List ℕ) × ((message : List ℕ) × ((some pong
          ≡ some (eth_header here_ip none ++ header ++ message))
        × ((length header ≡ 20) × ((byte_at header 0 ≡ 69) × (net_checksum header ≡ some 0)))))
icmp_rx_ip-Header_example =
    icmp_rx_ip-Header here_ip ping 28 none (some pong) (bytes_of ping refl)
      (bytes_of (10 ∷ 0 ∷ 0 ∷ 2 ∷ []) refl) (omega arith) (omega arith) refl ping_run

abbrev idle : Net
idle = record {
  iface = record {
    address = here_ip;
    loopback = false;
    up = true;
    has_transmit = true;
    stats = record {
      rx_packets = 0;
      tx_packets = 0;
      rx_bytes = 0;
      tx_bytes = 0;
      rx_dropped = 0;
      tx_dropped = 0;
    };
    rx_queue = (1 ∷ 2 ∷ []) ∷ [];
    rx_count = 1;
  };
  pool_free = 40;
}

net_rx-net_recv-IsBalanced_example :
    IsBalanced 7 (net_rx (λ _. true) ping 28 idle).1 × IsBalanced 7 (net_recv 64 idle).1
net_rx-net_recv-IsBalanced_example =
    net_rx-net_recv-IsBalanced 7 (λ _. true) ping 28 64 idle
      (record { packets = refl; counted = refl })

-- A receiver does not find the checksum of that reply's message right: it is 0 for a right one.
pong_message : net_checksum (drop 20 pong) ≡ some 63486
unfolding net_checksum fold_carries
pong_message = refl
