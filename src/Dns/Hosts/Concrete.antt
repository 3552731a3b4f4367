-- ===== src/Dns/Hosts/Concrete.antt =====
-- A file of two hosts, with simple texts. It shows that the law of names can be met.
use xx_url.Common.{
  ◌≡◌, sym, ap, ◌∙◌, arith, some, Bytes, List, [], ◌∷◌, equal, equal_iff, Bool-cases, inl, inr,
}
use xx_url.Dns.Hosts.{HostsLib}
use xx_url.Dns.Hosts.Entries.{IsKey}
use xx_url.Errors.{Query}
use xx_url.Net.{IpAddr, v4}

-- An address is a text of one byte, and every text is a name.
abbrev ip_of : Bytes → IpAddr
ip_of [] = v4 0
ip_of (b ∷ bs) = v4 b

abbrev pub simple : HostsLib
simple = record {
  parse_ip = λ bs. some (ip_of bs);
  to_lowercase = λ bs. bs;
  new_name = some;
  same_name = equal;
}

pub simple-IsKey : IsKey simple
simple-IsKey = record {
  same_sym = equal_sym;
  same_trans = λ k m n e. ap (λ z. equal z n) ((equal_iff k m).0 e);
}
  where
    equal_sym : (m n : Bytes) → equal m n ≡ equal n m
    equal_sym m n = elim (Bool-cases (equal m n)) [
      | inl y ↦ y ∙ sym ((equal_iff n m).1 (sym ((equal_iff m n).0 y)))
      | inr x ↦ elim (Bool-cases (equal n m)) [
        | inl y ↦ absurd (ground (arith, x, (equal_iff m n).1 (sym ((equal_iff n m).0 y))))
        | inr z ↦ x ∙ sym z
      ]
    ]

-- "1 a b", "#a" and "2 b"
abbrev pub lines : List Bytes
lines = (49 ∷ 32 ∷ 97 ∷ 32 ∷ 98 ∷ []) ∷ ((35 ∷ 97 ∷ []) ∷ ((50 ∷ 32 ∷ 98 ∷ []) ∷ []))

abbrev pub query_b : Query
query_b = record { qname = 98 ∷ []; qtype = 1; qclass = 1 }
