-- ===== src/Tls/Parts.antt =====
-- A call on one part of a connection of tls/conn.rs keeps the other part.
use xx_url.Common.{Result, ok, err, panic, stuck, M, Ends}
use xx_url.Tls.{TlsConn, beside_tls, beside_connection, on_connection, on_tls}

module _ {C T A : Type 0} (P : A → TlsConn C T → Type 0) where
  beside_tls-Ends :
      (t : T) (m : Result A × C)
      → Ends (λ a c. P a (record { connection = c; tls = t })) m
      → Ends P (beside_tls t m)
  beside_tls-Ends t (ok a, c) h = h
  beside_tls-Ends t (err _, c) h = tt
  beside_tls-Ends t (panic, c) h = h
  beside_tls-Ends t (stuck, c) h = h

  beside_connection-Ends :
      (c : C) (m : Result A × T)
      → Ends (λ a t. P a (record { connection = c; tls = t })) m
      → Ends P (beside_connection c m)
  beside_connection-Ends c (ok a, t) h = h
  beside_connection-Ends c (err _, t) h = tt
  beside_connection-Ends c (panic, t) h = h
  beside_connection-Ends c (stuck, t) h = h

  pub on_connection-Ends :
      (f : M C A) (s : TlsConn C T)
      → Ends (λ a c. P a (record s { connection = c })) (f s.connection)
      → Ends P (on_connection f s)
  on_connection-Ends f s h = beside_tls-Ends s.tls (f s.connection) h

  pub on_tls-Ends :
      (f : M T A) (s : TlsConn C T)
      → Ends (λ a t. P a (record s { tls = t })) (f s.tls)
      → Ends P (on_tls f s)
  on_tls-Ends f s h = beside_connection-Ends s.connection (f s.tls) h
