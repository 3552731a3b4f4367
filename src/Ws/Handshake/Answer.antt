-- ===== src/Ws/Handshake/Answer.antt =====
-- ws/transfer.rs: what the server writes is read by the client as the response it expects.
use xx_url.Common.{
  ℕ, suc, ◌>>◌, ◌≤◌, ◌<◌, ◌≡◌, ap, ◌∙◌, Bytes, ◌++◌, length, append_assoc, ok, M, Ends,
  Ends-and_then, Ends-weaken,
}
use xx_url.Errors.{http11}
use xx_url.Http.Library.{HeaderLib, Searches}
use xx_url.Http.Options.{default_options}
use xx_url.Http.Response.{parse_response}
use xx_url.Io.{BufRead}
use xx_url.Io.Delivery.{Buffers}
use xx_url.Ws.Handshake.{CryptoLib, Words, accept, check_response}
use xx_url.Ws.Handshake.Exchange.{
  UpgradeIo, status_line, connection_line, upgrade_line, accept_prefix, crlf, write_answer,
}
use xx_url.Http.Lines.Visible.{IsVisible}
use xx_url.Ws.Handshake.Fields.{KeepsFields}
use xx_url.Ws.Handshake.Reading.{answer, answered, read_answer, check_answered}

-- A writer that does what it is asked to, or fails.
pub record Writes {R S P T : Type 0} (up : UpgradeIo R S P T) (sent : T → Bytes) : Type 0 where
  pub writes :
      (bytes : Bytes) (w : T) → Ends (λ _ t. sent t ≡ sent w ++ bytes) (up.write_string bytes w)
  pub flushes : (w : T) → Ends (λ _ t. sent t ≡ sent w) (up.flush w)

module _ {R S P T : Type 0} {up : UpgradeIo R S P T} {sent : T → Bytes} (w : Writes up sent) where
  abbrev Sends : Bytes → M T (Unit {0}) → Type 0
  Sends bytes m = (r : T) → Ends (λ _ t. sent t ≡ sent r ++ bytes) (m r)

  write_then :
      (bytes rest : Bytes) (k : M T (Unit {0}))
      → Sends rest k
      → Sends (bytes ++ rest) (do up.write_string bytes; k)
  write_then bytes rest k h r =
      Ends-and_then _ (λ _ t. sent t ≡ sent r ++ (bytes ++ rest)) (up.write_string bytes r) _
        (w.writes bytes r)
        λ _ t e.
          Ends-weaken _ (λ _ u. sent u ≡ sent r ++ (bytes ++ rest)) (k t) (h t)
            λ _ u f. f ∙ ap (λ z. z ++ rest) e ∙ append_assoc (sent r) bytes rest

  write_answer-Sends :
      {H : Type 0} (crypto : CryptoLib) (words : Words) (io : BufRead R) (lib : HeaderLib H)
      (value : Bytes)
      → Sends (answer value) (write_answer crypto words io lib up value)
  unfolding write_answer
  write_answer-Sends crypto words io lib value = write_then (status_line ++ crlf) _ _ (
      write_then (connection_line ++ crlf) _ _ (
        write_then (upgrade_line ++ crlf) _ _
          (write_then ((accept_prefix ++ value) ++ crlf) _ _ last)))
    where
      last : Sends crlf (do up.write_string crlf; up.flush)
      last r =
          Ends-and_then _ _ (up.write_string crlf r) _ (w.writes crlf r)
            λ _ t e. Ends-weaken _ _ (up.flush t) (w.flushes t) λ _ u f. f ∙ e

-- The server writes the answer with the value for the client's key, or fails. If the client has the
-- bytes of the answer in its buffer, then it reads status 101 and HTTP/1.1 with headers that pass
-- its checks for that key, and what follows the answer stays in its buffer.
pub write_answer-check_response :
    {R S P T C H : Type 0} {up : UpgradeIo R S P T} {sent : T → Bytes} {client : BufRead C}
    {unread : C → Bytes} {lib : HeaderLib H} {words : Words} (io : BufRead R) (crypto : CryptoLib)
    → Writes up sent
    → Buffers client unread
    → KeepsFields lib words
    → Searches lib.memchr
    → (rounds fuel : ℕ) (r : T) (c : C) (secret rest : Bytes)
    → IsVisible (accept crypto words secret)
    → length (accept crypto words secret) ≤ 1000
    → 3 < rounds
    → client.buffer c ≡ answer (accept crypto words secret) ++ rest
    → Ends
        (λ _ t. sent t ≡ sent r ++ answer (accept crypto words secret))
        (write_answer crypto words io lib up (accept crypto words secret) r)
      × ((c' : C) × (h : H) × (parse_response client lib rounds
              (suc fuel)
              default_options
              (c, lib.empty)
            ≡ (ok (101, http11), (c', h)))
          × (check_response crypto words lib secret 101 h ≡ ok tt)
          × (client.buffer c' ≡ rest))
write_answer-check_response {lib} {words} io crypto w b keeps finds rounds fuel r c secret rest v
      short enough e =
    let value = accept crypto words secret in
    let read = read_answer keeps b finds rounds fuel c value rest v short enough e in
    (
      write_answer-Sends w crypto words io lib value r,
      (read.0, answered keeps value, read.1, check_answered keeps crypto secret v, read.2),
    )
