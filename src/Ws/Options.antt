-- ===== src/Ws/Options.antt =====
-- ws/request.rs: the options of a WebSocket connection.
use xx_url.Common.{ℕ}
use xx_url.Ws.Socket.{WebSocketOptions}

unfoldable pub set_handshake_timeout : ℕ → WebSocketOptions → WebSocketOptions
set_handshake_timeout timeout this = record this { handshake_timeout = timeout }

unfoldable pub set_max_message_length : ℕ → WebSocketOptions → WebSocketOptions
set_max_message_length max this = record this { max_message_length = max }

unfoldable pub set_close_timeout : ℕ → WebSocketOptions → WebSocketOptions
set_close_timeout timeout this = record this { close_timeout = timeout }
