-- ===== src/Ws/Handshake/Examples.antt =====
-- The theorems about the handshake at concrete inputs.
use xx_url.Common.{suc, ◌≡◌, refl, arith, none, Bytes, [], ◌∷◌, ◌++◌, ok, Ends}
use xx_url.Errors.{http11}
use xx_url.Http.Concrete.{Fields, fields-Searches}
use xx_url.Http.Options.{default_options}
use xx_url.Http.Response.{parse_response}
use xx_url.Io.Chunks.{Chunks, chunks, chunks-Buffers}
use xx_url.Io.Memory.{memory}
use xx_url.Ws.Handshake.Exchange.{UpgradeIo, write_answer}
use xx_url.Ws.Handshake.Reading.{answer as answer_bytes}
use xx_url.Ws.Handshake.Answer.{Writes, write_answer-check_response}
use xx_url.Ws.Handshake.{accept, check_response}
use xx_url.Ws.Handshake.Concrete.{
  plain, named, real_words, named-KeepsFields, letters, accept-letters,
}

abbrev writer : UpgradeIo Bytes Bytes (Unit {0}) Bytes
writer = record {
  new_reader = λ s. s;
  into_parts = λ r. (r, tt);
  from_parts = λ s _. s;
  new_writer = λ s. s;
  into_stream = λ w. w;
  write_string = λ bytes r. (ok tt, r ++ bytes);
  flush = λ r. (ok tt, r);
  timeout = λ duration f r. (none, r);
}

writer-Writes : Writes writer (λ r. r)
writer-Writes = record { writes = λ bytes r. refl; flushes = λ r. refl }

write_answer-check_response_example :
    Ends
      (λ _ t. t ≡ 7 ∷ answer_bytes (accept plain real_words letters))
      (write_answer plain real_words memory named writer (accept plain real_words letters) (7 ∷ []))
    × ((c' : Chunks) × (h : Fields) × (parse_response (chunks 99) named 4 (suc 1) default_options (
      record { buf = answer_bytes (accept plain real_words letters) ++ (1 ∷ 2 ∷ []); coming = [] },
      [],
    )
          ≡ (ok (101, http11), (c', h)))
        × (check_response plain real_words named letters 101 h ≡ ok tt)
        × (c'.buf ≡ 1 ∷ 2 ∷ []))
write_answer-check_response_example =
    write_answer-check_response memory plain writer-Writes (chunks-Buffers 99) named-KeepsFields
      fields-Searches 4 1 (7 ∷ [])
      (record { buf = answer_bytes (accept plain real_words letters) ++ (1 ∷ 2 ∷ []); coming = [] })
      letters (1 ∷ 2 ∷ []) (rw accept-letters (ground arith)) (rw accept-letters (omega arith))
      (omega arith) refl
