-- ===== src/Net/Tries.antt =====
-- net/conn.rs: which address `connect_addrs` takes, and how many it tries.
use xx_url.Common.{
  ℕ, ◌+◌, ◌%◌, ◌^◌, ◌<◌, ◌≡◌, refl, sym, ap, append-nil, ◌∙◌, arith, Option, none, some, List, [],
  ◌∷◌, ◌++◌, length, map, suc, All, ok, err, Result, Option-cases, inl, inr,
}
use xx_url.Errors.{Error, no_addresses}
use xx_url.Net.{
  NetLib, IpStrategy, any, ipv4_only, ipv6_only, prefer_ipv4, prefer_ipv6, v4, v6, ConnectOptions,
  ConnectStats, IpAddr, connect_addrs, last_error, LookupIp, order, connect_to,
}

-- A network whose sockets can be made, whose program is not interrupted, and whose hosts answer by
-- their address alone: `answer ip` is the error of a host that refuses.
pub record IsSteady {W C : Type 0} (net : NetLib W C) (socket : IpAddr → C)
    (answer : IpAddr → Option Error) : Type 0 where
  pub made :
      (ip : IpAddr) (port : ℕ) (w : W)
      → (w' : W) × (net.new_for_addr ip port w ≡ (ok (socket ip), w'))
  pub accepts :
      (ip : IpAddr) (port : ℕ) (w : W)
      → answer ip ≡ none
      → (w' : W) × (net.connect (socket ip) ip port w ≡ (ok tt, w'))
  pub refuses :
      (ip : IpAddr) (port : ℕ) (w : W) (e : Error)
      → answer ip ≡ some e
      → (w' : W) × (net.connect (socket ip) ip port w ≡ (err e, w'))
  pub goes_on : (w : W) → (w' : W) × (net.check_interrupt w ≡ (ok tt, w'))

-- The error of the last address, or the one from before.
abbrev error_after : (IpAddr → Option Error) → Option Error → List IpAddr → Option Error
error_after answer error [] = error
error_after answer error (ip ∷ ips) = error_after answer (answer ip) ips

abbrev pub refusal : Option Error → Error
refusal none = no_addresses
refusal (some e) = e

-- The kinds of address that a strategy takes, the preferred one first.
pub data Kind : Type 0 where
  ipv4 ipv6 : Kind

abbrev kinds : IpStrategy → List Kind
kinds any = ipv6 ∷ (ipv4 ∷ [])
kinds ipv4_only = ipv4 ∷ []
kinds ipv6_only = ipv6 ∷ []
kinds prefer_ipv4 = ipv4 ∷ (ipv6 ∷ [])
kinds prefer_ipv6 = ipv6 ∷ (ipv4 ∷ [])

abbrev addresses_of : LookupIp → Kind → List IpAddr
addresses_of addrs ipv4 = map v4 addrs.addrs4
addresses_of addrs ipv6 = map v6 addrs.addrs6

-- All addresses of these kinds, kind by kind.
abbrev of_kinds : LookupIp → List Kind → List IpAddr
of_kinds addrs [] = []
of_kinds addrs (kind ∷ others) = addresses_of addrs kind ++ of_kinds addrs others

abbrev pub candidates : IpStrategy → LookupIp → List IpAddr
candidates strategy addrs = of_kinds addrs (kinds strategy)

module _ {W C : Type 0} (net : NetLib W C) where
  order-candidates :
      (strategy : IpStrategy) (addrs : LookupIp)
      → order net strategy addrs ≡ candidates strategy addrs
  unfolding order
  order-candidates any addrs =
      ap (λ z. map v6 addrs.addrs6 ++ z) (sym (append-nil (map v4 addrs.addrs4)))
  order-candidates ipv4_only addrs = sym (append-nil (map v4 addrs.addrs4))
  order-candidates ipv6_only addrs = sym (append-nil (map v6 addrs.addrs6))
  order-candidates prefer_ipv4 addrs =
      ap (λ z. map v4 addrs.addrs4 ++ z) (sym (append-nil (map v6 addrs.addrs6)))
  order-candidates prefer_ipv6 addrs =
      ap (λ z. map v6 addrs.addrs6 ++ z) (sym (append-nil (map v4 addrs.addrs4)))

-- What trying these addresses in turn comes to, and how many are tried.
abbrev pub in_turn :
    {C : Type 0}
    → (IpAddr → C)
    → (IpAddr → Option Error)
    → Option Error
    → List IpAddr
    → Result C × ℕ
in_turn socket answer error [] = (err (refusal error), 0)
in_turn socket answer error (ip ∷ ips) = elim (answer ip) [
  | none ↦ (ok (socket ip), 1)
  | some e ↦ (let rest = in_turn socket answer (some e) ips in (rest.0, rest.1 + 1))
]

abbrev Refuses : (IpAddr → Option Error) → IpAddr → Type 0
Refuses answer ip = (e : Error) × (answer ip ≡ some e)

module _ {C : Type 0} (socket : IpAddr → C) (answer : IpAddr → Option Error) (error : Option Error)
    (ip : IpAddr) (ips : List IpAddr) where
  in_turn_accepts : answer ip ≡ none → in_turn socket answer error (ip ∷ ips) ≡ (ok (socket ip), 1)
  in_turn_accepts e = rw (in_turn, e) refl

  in_turn_refuses :
      (e : Error)
      → answer ip ≡ some e
      → let rest = in_turn socket answer (some e) ips in
        in_turn socket answer error (ip ∷ ips) ≡ (rest.0, rest.1 + 1)
  in_turn_refuses e q = rw (in_turn, q) refl

tried_none : (n : ℕ) → n ≡ n + 0
tried_none n = omega arith

module _ {W C : Type 0} {net : NetLib W C} {socket : IpAddr → C} {answer : IpAddr → Option Error}
    (steady : IsSteady net socket answer) where
  -- One address that refuses.
  connect_addrs-refused :
      (options : ConnectOptions) (error : Option Error) (ip : IpAddr) (ips : List IpAddr)
      (e : Error)
      → (s : ConnectStats W) → answer ip ≡ some e
      → s.tcp_tries + 1 < 2 ^ 32
      → (w' : W) × (connect_addrs net options error (ip ∷ ips) s
          ≡ connect_addrs net options
              (some e)
              ips
              (record { world = w'; tcp_tries = s.tcp_tries + 1 }))
  unfolding connect_addrs
  connect_addrs-refused options error ip ips e s refused few =
      let (w1, made) = steady.made ip options.port s.world in
      let (w2, told) = steady.refuses ip options.port w1 e refused in
      let (w3, on) = steady.goes_on w2 in
      let counted : (s.tcp_tries + 1) % 2 ^ 32 ≡ s.tcp_tries + 1 = omega arith in
      (w3, ground (arith, made, told, on, counted))

  connect_addrs-accepted :
      (options : ConnectOptions) (error : Option Error) (ip : IpAddr) (ips : List IpAddr)
      → (s : ConnectStats W) → answer ip ≡ none
      → s.tcp_tries + 1 < 2 ^ 32
      → (w' : W) × (connect_addrs net options error (ip ∷ ips) s
          ≡ (ok (socket ip), record { world = w'; tcp_tries = s.tcp_tries + 1 }))
  unfolding connect_addrs
  connect_addrs-accepted options error ip ips s accepted few =
      let (w1, made) = steady.made ip options.port s.world in
      let (w2, told) = steady.accepts ip options.port w1 accepted in
      let counted : (s.tcp_tries + 1) % 2 ^ 32 ≡ s.tcp_tries + 1 = omega arith in
      (w2, ground (arith, made, told, counted))

  -- In a steady network, and as long as the tries fit 32 bits: the first address that accepts is
  -- taken, the tries count it and those before it, and no address behind it is tried.
  connect_addrs-first :
      (options : ConnectOptions) (error : Option Error) (before after : List IpAddr) (ip : IpAddr)
      → (s : ConnectStats W) → All (Refuses answer) before
      → answer ip ≡ none
      → s.tcp_tries + (length before + 1) < 2 ^ 32
      → (w' : W) × (connect_addrs net options error (before ++ (ip ∷ after)) s
          ≡ (ok (socket ip), record { world = w'; tcp_tries = s.tcp_tries + (length before + 1) }))
  connect_addrs-first options error [] after ip s refused accepted few =
      let (w1, done) = connect_addrs-accepted options error ip after s accepted (omega arith) in
      let total : s.tcp_tries + 1 ≡ s.tcp_tries + (0 + 1) = omega arith in (w1, done ∙ rw total)
  connect_addrs-first options error (ip' ∷ before) after ip s ((e, nope), refused) accepted few =
      let (w1, one) =
        connect_addrs-refused options error ip' (before ++ (ip ∷ after)) e s nope (omega arith) in
      let (w2, others) =
        connect_addrs-first options (some e) before after ip
          (record { world = w1; tcp_tries = s.tcp_tries + 1 }) refused accepted (omega arith) in
      let total : (s.tcp_tries + 1) + (length before + 1)
          ≡ s.tcp_tries + (suc (length before) + 1) =
        omega arith in
      (w2, one ∙ others ∙ rw total)

  -- In a steady network, and as long as the tries fit 32 bits: where all addresses refuse, the
  -- error is that of the last one, or that there are no addresses, and every address is tried once.
  connect_addrs-none :
      (options : ConnectOptions) (error : Option Error) (ips : List IpAddr) (s : ConnectStats W)
      → All (Refuses answer) ips
      → s.tcp_tries + length ips < 2 ^ 32
      → (w' : W) × (connect_addrs net options error ips s ≡ (
        err (last_error net (error_after answer error ips)),
        record { world = w'; tcp_tries = s.tcp_tries + length ips },
      ))
  unfolding connect_addrs
  connect_addrs-none options error [] s refused few =
      let total : s.tcp_tries ≡ s.tcp_tries + 0 = omega arith in (s.world, rw⁻¹ total refl)
  connect_addrs-none options error (ip ∷ ips) s ((e, nope), refused) few =
      let (w1, one) = connect_addrs-refused options error ip ips e s nope (omega arith) in
      let (w2, others) =
        connect_addrs-none options (some e) ips (record { world = w1; tcp_tries = s.tcp_tries + 1 })
          refused (omega arith) in
      let total : (s.tcp_tries + 1) + length ips ≡ s.tcp_tries + suc (length ips) = omega arith in
      (w2, one ∙ others ∙ rw (total, nope))

  connect_addrs-in_turn :
      (options : ConnectOptions) (error : Option Error) (ips : List IpAddr) (s : ConnectStats W)
      → s.tcp_tries + length ips < 2 ^ 32
      → let outcome = in_turn socket answer error ips in
        (w' : W) × (connect_addrs net options error ips s
          ≡ (outcome.0, record { world = w'; tcp_tries = s.tcp_tries + outcome.1 }))
  unfolding connect_addrs
  connect_addrs-in_turn options none [] s few = (s.world, rw⁻¹ (tried_none s.tcp_tries) refl)
  connect_addrs-in_turn options (some e) [] s few = (s.world, rw⁻¹ (tried_none s.tcp_tries) refl)
  connect_addrs-in_turn options error (ip ∷ ips) s few = elim (Option-cases (answer ip)) [
    | inl accepted ↦
        let (w1, done) = connect_addrs-accepted options error ip ips s accepted (omega arith) in
        (w1, done ∙ rw (in_turn_accepts socket answer error ip ips accepted) refl)
    | inr (e, refused) ↦
        let (w1, one) = connect_addrs-refused options error ip ips e s refused (omega arith) in
        let (w2, others) =
          connect_addrs-in_turn options (some e) ips
            (record { world = w1; tcp_tries = s.tcp_tries + 1 }) (omega arith) in
        let total : (s.tcp_tries + 1) + (in_turn socket answer (some e) ips).1
            ≡ s.tcp_tries + ((in_turn socket answer (some e) ips).1 + 1) =
          omega arith in
        (w2, one ∙ others ∙ rw (in_turn_refuses socket answer error ip ips e refused, total) refl)
  ]

  -- In a steady network, and as long as the tries fit 32 bits: `connect_to` comes to what trying the
  -- addresses of the strategy's kinds in turn does, all those of the preferred kind first. The first that accepts is taken, with those
  -- before it and itself counted; where all refuse, the error is that of the last one, or that there
  -- are no addresses, and each is tried once.
  pub connect_to-in_turn :
      (options : ConnectOptions) (addrs : LookupIp) (s : ConnectStats W)
      → s.tcp_tries + length (candidates options.strategy addrs) < 2 ^ 32
      → let outcome = in_turn socket answer none (candidates options.strategy addrs) in
        (w' : W) × (connect_to net options addrs s
          ≡ (outcome.0, record { world = w'; tcp_tries = s.tcp_tries + outcome.1 }))
  unfolding connect_to
  connect_to-in_turn options addrs s few =
      rw (order-candidates net options.strategy addrs)
        (connect_addrs-in_turn options none (candidates options.strategy addrs) s few)
