-- ===== src/Tls/Examples.antt =====
-- The theorems about TLS connections at concrete inputs.
use xx_url.Common.{◌<◌, ◌≤◌, Bytes, take, [], ◌∷◌, ◌++◌, ◌≡◌, refl, arith, false, ok, stuck, Ends}
use xx_url.Io.Memory.{memory}
use xx_url.Tls.{TlsConn, tls_connect, connect_loop, recv, send}
use xx_url.Tls.Connect.{tls_connect-Ends}
use xx_url.Tls.Recv.{recv-Ends}
use xx_url.Tls.Send.{send-Ends}
use xx_url.Tls.Halves.{half_read, flush}
use xx_url.Tls.Halves.End.{IsAtEnd, half_read-IsAtEnd}
use xx_url.Tls.Concrete.{Socket, Plain, socket, plain}
use xx_url.Tls.Receives.{coming, plain-Handshakes, plain-Decrypts}
use xx_url.Tls.Sends.{whole, small, alone, busy, plain-Encrypts}

-- Two bytes of a handshake and three of data are to be received, and three bytes are to be sent.
abbrev new : TlsConn Socket Plain
new = record {
  connection = record { input = 1 ∷ 2 ∷ 3 ∷ 4 ∷ 5 ∷ []; output = [] };
  tls = record { handshake = 2; incoming = []; ready = []; pending = 7 ∷ 8 ∷ 9 ∷ [] };
}

tls_connect-Ends_example :
    Ends (λ _ t. plain.is_handshaking t.tls ≡ false) (tls_connect (socket 3) plain 10 new)
tls_connect-Ends_example = tls_connect-Ends plain-Handshakes 10 new (omega arith)

tls_connect_runs : tls_connect (socket 3) plain 10 new ≡ (
  ok tt,
  record {
    connection = record { input = 5 ∷ []; output = 7 ∷ 8 ∷ 9 ∷ [] };
    tls = record { handshake = 0; incoming = []; ready = 3 ∷ 4 ∷ []; pending = [] };
  },
)
unfolding tls_connect connect_loop
tls_connect_runs = refl

abbrev data_sent : Bytes
data_sent = 3 ∷ 4 ∷ 5 ∷ []

recv-Ends_example :
    Ends
      (λ bytes t. (data_sent ≡ bytes ++ (t.tls.ready ++ coming t)) × (bytes ≡ [] → data_sent ≡ []))
      (recv (socket 3) plain 10 1 new)
recv-Ends_example = recv-Ends plain-Decrypts 10 1 new (omega arith) (omega arith)

send-Ends_example :
    Ends
      (λ n t.
        (0 < n)
        × (n ≤ 2)
        × (t.tls.pending ≡ [])
        × (t.connection.output ≡ (7 ∷ 8 ∷ 9 ∷ []) ++ take n (5 ∷ 6 ∷ [])))
      (send (socket 3) plain 10 (5 ∷ 6 ∷ []) new)
send-Ends_example =
    send-Ends plain-Encrypts 10 (5 ∷ 6 ∷ []) new (λ e. absurd (ground (arith, e))) (omega arith)
      (omega arith)

-- An empty buffer is written again and again, although nothing is pending.
send_nothing_runs : (send (socket 3) plain 10 [] new).0 ≡ stuck
unfolding send
send_nothing_runs = refl

flush_sends : (flush whole small busy plain 6 new).1.connection.output ≡ 7 ∷ 8 ∷ 9 ∷ 0 ∷ 0 ∷ []
unfolding flush
flush_sends = refl

-- A socket that takes one byte of a buffer of two loses the other.
flush_loses : (flush (socket 1) small alone plain 4 new).1.connection.output ≡ 7 ∷ 9 ∷ []
unfolding flush
flush_loses = refl

abbrev closed : TlsConn Bytes Plain
closed = record {
  connection = [];
  tls = record { handshake = 0; incoming = []; ready = []; pending = [] };
}

closed-IsAtEnd : IsAtEnd memory alone plain 8 closed
closed-IsAtEnd = record {
  nothing_buffered = refl;
  nothing_filled = refl;
  nothing_ready = (refl, refl);
  not_shared = refl;
}

half_read-IsAtEnd_example : half_read memory alone plain 1000 8 closed ≡ (stuck, closed)
half_read-IsAtEnd_example = half_read-IsAtEnd memory alone plain 8 closed closed-IsAtEnd 1000
