-- ===== src/Http/Transfer/Head.antt =====
-- http/transfer.rs: the head of a request as lines.
use xx_url.Common.{◌≡◌, refl, sym, ap, ap₂, ◌∙◌, Bytes, List, [], ◌∷◌, ◌++◌, append_assoc, map}
use xx_url.Errors.{http11}
use xx_url.Http.Lines.Buffered.{lines_bytes}
use xx_url.Http.Lines.Visible.{field_line, sent_line}
use xx_url.Http.Response.{as_str}
use xx_url.Http.Transfer.{Request, Parts, head_of, header_lines, request_line}

-- A text and the end of its line, in front of the rest.
end_line : (line rest : Bytes) → line ++ (13 ∷ (10 ∷ rest)) ≡ (line ++ (13 ∷ [])) ++ (10 ∷ rest)
end_line line rest = sym (append_assoc line (13 ∷ []) (10 ∷ rest))

field_line-end :
    (name value rest : Bytes)
    → name ++ (58 ∷ (32 ∷ (value ++ (13 ∷ (10 ∷ rest))))) ≡ sent_line (name, value) ++ (10 ∷ rest)
field_line-end name value rest =
    sym (append_assoc name (58 ∷ (32 ∷ value)) (13 ∷ (10 ∷ rest)))
    ∙ end_line (field_line (name, value)) rest

module _ {U H : Type 0} (parts : Parts U H) where
  header_lines-bytes :
      (fs : List (Bytes × Bytes)) → header_lines parts fs ≡ lines_bytes (map sent_line fs)
  unfolding header_lines
  header_lines-bytes [] = refl
  header_lines-bytes ((name, value) ∷ fs) =
      field_line-end name value (header_lines parts fs)
      ∙ ap (λ z. sent_line (name, value) ++ (10 ∷ z)) (header_lines-bytes fs)

  -- The first line of a request, without its end.
  abbrev pub first_line : Request U H → U → Bytes
  first_line r u = r.method ++ (32 ∷ (parts.path_and_query u ++ (32 ∷ as_str http11)))

  request_line-first :
      (r : Request U H) (u : U) → request_line parts http11 r u ≡ first_line r u ++ (13 ∷ (10 ∷ []))
  unfolding request_line
  request_line-first r u =
      let path = parts.path_and_query u in
      sym (
        append_assoc r.method (32 ∷ (path ++ (32 ∷ as_str http11))) (13 ∷ (10 ∷ []))
        ∙ ap (λ z. r.method ++ (32 ∷ z)) (append_assoc path (32 ∷ as_str http11) (13 ∷ (10 ∷ []))))

  pub head_of-lines :
      (r : Request U H) (u : U) (rest : Bytes)
      → head_of parts http11 r u ++ rest
        ≡ (first_line r u ++ (13 ∷ []))
          ++ (10
              ∷ (lines_bytes (map sent_line (parts.fields r.headers))
                  ++ ((13 ∷ []) ++ (10 ∷ rest))))
  unfolding head_of
  head_of-lines r u rest =
      let lines = lines_bytes (map sent_line (parts.fields r.headers)) in
      let end = 13 ∷ (10 ∷ []) in
      let behind = lines ++ (13 ∷ (10 ∷ rest)) in
      ap₂ (λ (x y : Bytes). (x ++ (y ++ end)) ++ rest) (request_line-first r u)
        (header_lines-bytes (parts.fields r.headers))
      ∙ append_assoc (first_line r u ++ end) (lines ++ end) rest
      ∙ ap (λ z. (first_line r u ++ end) ++ z) (append_assoc lines end rest)
      ∙ append_assoc (first_line r u) end behind
      ∙ end_line (first_line r u) behind
