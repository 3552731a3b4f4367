-- ===== src/Ws/Frame.antt =====
-- ws/mod.rs: the frames that a program sends and gets.
pub mod Borrowed
use xx_url.Common.{
  ℕ, ◌+◌, ◌%◌, ◌^◌, Bool, true, false, ◌&&◌, [], ◌++◌, Bytes, length, take, drop, replicate, leb,
  if◌then◌else◌, Result, ok, panic,
}
use xx_url.Ws.Wire.{Op}

pub data CloseCode : Type 0 where
  normal going_away protocol_error unsupported_data_kind reserved no_status_code no_close :
      CloseCode
  invalid_message_data policy_violation message_too_long extensions_expected : CloseCode
  internal_server_error tls_handshake_failure : CloseCode

-- `value as u16`
unfoldable pub code_of : CloseCode → ℕ
code_of normal = 1000
code_of going_away = 1001
code_of protocol_error = 1002
code_of unsupported_data_kind = 1003
code_of reserved = 1004
code_of no_status_code = 1005
code_of no_close = 1006
code_of invalid_message_data = 1007
code_of policy_violation = 1008
code_of message_too_long = 1009
code_of extensions_expected = 1010
code_of internal_server_error = 1011
code_of tls_handshake_failure = 1015

-- A frame to send.
pub record BorrowedFrame : Type 0 where
  pub op : Op
  pub close_code : ℕ
  pub payload : Bytes
  pub fin : Bool

abbrev pub max_length : ℕ
max_length = 0x7d

-- The content of a control frame: an array of `max_length` bytes, of which a window is used.
pub record ControlFrame : Type 0 where
  pub content : Bytes
  pub offset : ℕ
  pub length : ℕ

abbrev pub new_control : ControlFrame
new_control = record { content = replicate max_length 0; offset = 0; length = 0 }

-- `&array[from..to]`
unfoldable pub slice : Bytes → ℕ → ℕ → Result Bytes
slice array from to =
    if leb from to && leb to (length array) then ok (drop from (take to array)) else panic

-- `data` and `data_mut` give the same window.
unfoldable pub window : ControlFrame → Result Bytes
window c = slice c.content c.offset c.length

-- A write through `data_mut`, from its start on.
unfoldable pub write_window : Bytes → ControlFrame → ControlFrame
write_window bytes c = record c {
  content = take c.offset c.content ++ (bytes ++ drop (c.offset + length bytes) c.content);
}

-- A frame that was received.
pub data Frame : Type 0 where
  ping : ControlFrame → Frame
  pong : ControlFrame → Frame
  close : ℕ → ControlFrame → Frame
  text : Bytes → Frame
  binary : Bytes → Frame
