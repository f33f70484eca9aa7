-- ===== src/Net.antt =====
-- net.go: `UDPNetworkConn` over a `net.UDPConn`, which is a parameter. The lock makes a read one step.
use qotp.Base.{
  ℕ, ◌+◌, Bool, Option, none, some, List, Run, ok, err, Error, if◌then◌else◌, ◌==◌, u64, length,
}
use qotp.Base.Exec.{Exec, ◌>>◌}
use qotp.Conn.{AddrPort}

-- The methods of `net.UDPConn`. A deadline is the bit pattern of the int64 that `time.Unix` takes, and
-- `none` is the zero time, with which reads do not time out. `write` gives the bytes it has written,
-- and whether there was no error.
pub record Udp : Type 1 where
  pub UdpConn : Type 0
  pub set_read_deadline : Option ℕ → Exec UdpConn (Unit {0})
  pub read_from_udp : ℕ → Exec UdpConn (List ℕ × AddrPort)
  pub write_to_udp : List ℕ → AddrPort → UdpConn → UdpConn × ℕ × Bool
  pub close_udp : Exec UdpConn (Unit {0})

module _ (udp : Udp) where
  -- `ReadFromUDPAddrPort` into a slice of `size` bytes.
  unfoldable pub read_from : ℕ → ℕ → ℕ → Exec udp.UdpConn (List ℕ × AddrPort)
  read_from size timeout_nano now_nano =
      udp.set_read_deadline (some (u64 (now_nano + timeout_nano))) >> udp.read_from_udp size

  unfoldable pub timeout_read_now : Exec udp.UdpConn (Unit {0})
  timeout_read_now = udp.set_read_deadline none

  -- What `WriteToUDPAddrPort` makes of the count and the error.
  abbrev pub written_all : List ℕ → ℕ → Bool → Run (Unit {0})
  written_all b n fine =
      if n == length b
      then if fine then ok tt else err Error.write_refused
      else err Error.write_incomplete

  unfoldable pub write_to : List ℕ → AddrPort → Exec udp.UdpConn (Unit {0})
  write_to b remote_addr conn =
      let (conn', n, fine) = udp.write_to_udp b remote_addr conn in (conn', written_all b n fine)

  abbrev pub close : Exec udp.UdpConn (Unit {0})
  close = udp.close_udp

  -- `NotifyDataAvailable` of a stream.
  abbrev pub notify_data_available : Exec udp.UdpConn (Unit {0})
  notify_data_available = timeout_read_now

  -- What `Close` of a listener does with the socket, at its end.
  unfoldable pub close_socket : Exec udp.UdpConn (Unit {0})
  close_socket = timeout_read_now >> close
