-- ===== src/Ws/Socket.antt =====
-- ws/conn.rs and ws/request.rs: a WebSocket connection and its options.
use xx_url.Common.{
  ℕ, ◌*◌, Bool, false, Option, none, Bytes, M, Result, ok, err, panic, stuck, Ends, Ends-weaken,
}
use xx_url.Ws.Wire.{Op}
use xx_url.Ws.Shared.{Shared, Shutdown, shutdown}

-- Durations in milliseconds.
pub record WebSocketOptions : Type 0 where
  pub handshake_timeout : ℕ
  pub max_message_length : ℕ
  pub close_timeout : ℕ

abbrev pub default_max_message_length : ℕ
default_max_message_length = 128 * 1024 * 1024

unfoldable pub new_options : WebSocketOptions
new_options = record {
  handshake_timeout = 60000;
  max_message_length = default_max_message_length;
  close_timeout = 30000;
}

unfoldable pub new_shared : WebSocketOptions → Bool → Shared
new_shared options is_client = record {
  max_message_length = options.max_message_length;
  close_timeout = options.close_timeout;
  is_client = is_client;
  close_state = none;
}

-- The readers and writers borrow the fields of this one record.
pub record WebSocket (R : Type 0) : Type 0 where
  pub stream : R
  pub last_sent_message_op : Option Op
  pub current_message : Option (Op × Bytes)
  pub expect_continuation : Bool
  pub shared : Shared

module _ {R : Type 0} where
  -- `WebSocket::from`
  unfoldable pub from : R → WebSocketOptions → Bool → WebSocket R
  unfolding new_shared
  from stream options is_client = record {
    stream = stream;
    last_sent_message_op = none;
    current_message = none;
    expect_continuation = false;
    shared = new_shared options is_client;
  }

  unfoldable pub server : R → WebSocketOptions → WebSocket R
  unfolding from
  server stream options = from stream options false

  unfoldable pub set_max_message_length : ℕ → WebSocket R → WebSocket R
  set_max_message_length max s =
      let t : Shared = s.shared in record s { shared = record t { max_message_length = max } }

  unfoldable pub set_close_timeout : ℕ → WebSocket R → WebSocket R
  set_close_timeout timeout s =
      let t : Shared = s.shared in record s { shared = record t { close_timeout = timeout } }

  -- A call on the stream alone.
  abbrev pub put_stream : {A : Type 0} → WebSocket R → Result A × R → Result A × WebSocket R
  put_stream s (result, stream') = (result, record s { stream = stream' })

  abbrev pub on_stream : {A : Type 0} → M R A → M (WebSocket R) A
  on_stream f s = put_stream s (f s.stream)

  -- `self.data.shutdown(how)`
  abbrev pub shut : Shutdown → M (WebSocket R) Bool
  shut how s = (ok (shutdown how s.shared).1, record s { shared = (shutdown how s.shared).0 })

pub on_stream-Ends :
    {R A : Type 0} (P : A → WebSocket R → Type 0) (f : M R A) (s : WebSocket R)
    → Ends (λ a r. P a (record s { stream = r })) (f s.stream)
    → Ends P (on_stream f s)
on_stream-Ends {R} {A} P f s h = each (f s.stream) h
  where
    each :
        (m : Result A × R)
        → Ends (λ a r. P a (record s { stream = r })) m
        → Ends P (m.0, record s { stream = m.1 })
    each (ok a, r) h = h
    each (err e, r) h = tt
    each (panic, r) h = absurd h
    each (stuck, r) h = absurd h

-- With the state behind the call from what the call does to the stream.
pub on_stream-Ends_from :
    {R A : Type 0} (P : A → R → Type 0) (Q : A → WebSocket R → Type 0) (f : M R A) (s : WebSocket R)
    → Ends P (f s.stream)
    → ((a : A) (r : R) → P a r → Q a (record s { stream = r }))
    → Ends Q (on_stream f s)
on_stream-Ends_from P Q f s h k =
    on_stream-Ends Q f s (Ends-weaken P (λ a r. Q a (record s { stream = r })) (f s.stream) h k)
