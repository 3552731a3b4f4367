-- ===== src/Dns/NameServer/Filter.antt =====
-- dns/name_server.rs: which records of a response are the answer.
use xx_url.Common.{
  ◌≡◌, ◌≢◌, sym, arith, Bool, true, false, Bool-cases, inl, inr, Bytes, List, [], ◌∷◌, All, ok,
}
use xx_url.Errors.{Query, Record}
use xx_url.Dns.NameServer.{
  Packet, matches, has_answer, matching, all_records, records_or, answer_of,
}

matching-All :
    (query : Query) (rs : List Record) → All (λ r. matches query r ≡ true) (matching query rs)
unfolding matching
matching-All query [] = tt
matching-All query (r ∷ rs) = elim (Bool-cases (matches query r)) [
  | inl found ↦ rw found (found, matching-All query rs)
  | inr not_found ↦ rw not_found (matching-All query rs)
]

module _ (same_name : Bytes → Bytes → Bool) (query : Query) (p : Packet) where
  by_records :
      (has : Bool) (found rs : List Record)
      → All (λ r. matches query r ≡ true) found
      → records_or has p found ≡ ok rs
      → (rs ≢ []) × All (λ r. matches query r ≡ true) rs
  by_records true [] rs h e = absurd (ground (arith, e))
  by_records false [] rs h e = absurd (ground (arith, e))
  by_records true (r ∷ found) rs h e =
      let same : r ∷ found ≡ rs = ground (arith, e) in
      (λ q. ground (arith, same, q), rw (sym same) h)
  by_records false (r ∷ found) rs h e =
      let same : r ∷ found ≡ rs = ground (arith, e) in
      (λ q. ground (arith, same, q), rw (sym same) h)

  -- An answer is given only for a response without an error code. It has at least one record, and
  -- all of them have the class and the type of the query.
  answer_of-matches :
      (rs : List Record)
      → answer_of same_name query p ≡ ok rs
      → (p.rcode ≡ 0) × (rs ≢ []) × All (λ r. matches query r ≡ true) rs
  unfolding answer_of
  answer_of-matches rs e =
      let no_error : p.rcode ≡ 0 = ground (arith, e) in
      let chosen : records_or (has_answer same_name query (all_records p)) p
            (matching query (all_records p))
          ≡ ok rs =
        ground (arith, no_error, e) in
      let (some_found, all_match) =
        by_records (has_answer same_name query (all_records p)) (matching query (all_records p)) rs
          (matching-All query (all_records p)) chosen in
      (no_error, some_found, all_match)

  -- The name of a record is not compared: an address of another name, such as that of a name server
  -- among the additional records, is the answer where the response has no other record.
  pub answer_of-other_name :
      (r : Record)
      → p.rcode ≡ 0
      → p.answers ≡ []
      → p.name_servers ≡ []
      → p.additional_records ≡ r ∷ []
      → matches query r ≡ true
      → same_name query.qname r.name ≡ false
      → answer_of same_name query p ≡ ok (r ∷ [])
  unfolding answer_of matching has_answer
  answer_of-other_name r no_error none1 none2 only found other =
      let all : all_records p ≡ r ∷ [] = rw (none1, none2, only) in
      ground (arith, no_error, all, found, other)
