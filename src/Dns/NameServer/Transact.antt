-- ===== src/Dns/NameServer/Transact.antt =====
-- dns/name_server.rs: the datagrams that `transact` passes over.
use xx_url.Common.{
  ℕ, zero, suc, ◌<◌, ◌≡◌, arith, false, none, some, Bytes, List, [], ◌∷◌, ◌++◌, length, All, ◌==◌,
  ok, ◌⊎◌, inl, inr,
}
use xx_url.Dns.NameServer.{DnsLib, Packet, await_response}

module _ {W S : Type 0} (lib : DnsLib W S) where
  -- `pending socket w` are the datagrams that the socket receives from the name server.
  abbrev pub Receives : (S → W → List Bytes) → Type 0
  Receives pending =
      (socket : S) (w : W) (bytes : Bytes) (more : List Bytes)
      → pending socket w ≡ bytes ∷ more
      → (w' : W) × (lib.recv_from_addr socket w ≡ (ok bytes, w')) × (pending socket w' ≡ more)

  -- No packet, or one that answers another query.
  abbrev pub IsForeign : ℕ → Bytes → Type 0
  IsForeign id bytes =
      (lib.parse bytes ≡ none) ⊎ ((p : Packet) × (lib.parse bytes ≡ some p) × (p.id == id ≡ false))

module _ {W S : Type 0} (lib : DnsLib W S) {pending : S → W → List Bytes}
    (receives : Receives lib pending) where
  -- The first datagram that parses and has the id of the query is the response, with one round for
  -- each datagram up to it. Those behind it are left in the socket.
  pub await_response-first :
      (fuel id : ℕ) (socket : S) (w : W) (foreign : List Bytes) (bytes : Bytes) (rest : List Bytes)
      → (p : Packet) → length foreign < fuel
      → All (IsForeign lib id) foreign
      → lib.parse bytes ≡ some p
      → p.id ≡ id
      → pending socket w ≡ foreign ++ (bytes ∷ rest)
      → (w' : W) × (await_response lib fuel id socket w ≡ (ok p, w')) × (pending socket w' ≡ rest)
  unfolding await_response
  await_response-first zero id socket w foreign bytes rest p enough fs parsed own e =
      absurd (omega arith)
  await_response-first (suc fuel) id socket w [] bytes rest p enough fs parsed own e =
      let (w1, received, left) = receives socket w bytes rest e in
      (w1, ground (arith, received, parsed, own), left)
  await_response-first (suc fuel) id socket w (f ∷ fs') bytes rest p enough (inl bad, fs) parsed own
        e =
      let (w1, received, left) = receives socket w f (fs' ++ (bytes ∷ rest)) e in
      let (w2, others, behind) =
        await_response-first fuel id socket w1 fs' bytes rest p (omega arith) fs parsed own left in
      (w2, ground (arith, received, bad, others), behind)
  await_response-first (suc fuel) id socket w (f ∷ fs') bytes rest p enough
        (inr (q, good, other), fs) parsed own e =
      let (w1, received, left) = receives socket w f (fs' ++ (bytes ∷ rest)) e in
      let (w2, others, behind) =
        await_response-first fuel id socket w1 fs' bytes rest p (omega arith) fs parsed own left in
      (w2, ground (arith, received, good, other, others), behind)
