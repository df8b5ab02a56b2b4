-- ===== src/Net/Udp/Sum.antt =====
-- What UDP's `checksum` computes.
use launch_core.Prelude.{
  ℕ, suc, ◌+◌, ◌-◌, ◌*◌, ◌%◌, ◌^◌, ◌<◌, ◌≡◌, refl, sym, ap₂, ◌∙◌, List, [], ◌∷◌, ◌==◌, true, false,
  arith,
}
use launch_core.Net.ByteOrder.{ntoh16, ntoh-hton}
use launch_core.Net.Udp.{add_bytes, fold_sum, header_length, checksum_sum, udp_checksum}

-- RFC 768: the bytes in words of 16 bits, padded with a zero byte.
abbrev pub sum_bytes : List ℕ → ℕ
sum_bytes [] = 0
sum_bytes (high ∷ []) = high * 256
sum_bytes (high ∷ low ∷ bytes) = high * 256 + low + sum_bytes bytes

-- the sum of the pseudo header, the header and the payload
abbrev pub sum_all : List ℕ → List ℕ → List ℕ → List ℕ → ℕ
sum_all header src_ip dst_ip payload =
    sum_bytes payload
    + sum_bytes src_ip
    + sum_bytes dst_ip
    + sum_bytes header
    + 17
    + ntoh16 (header_length header)

-- The loop adds the words if the sum stays in 32 bits.
add_bytes-sum_bytes :
    (bytes : List ℕ) (i sum : ℕ)
    → i % 2 ≡ 0
    → sum + sum_bytes bytes < 2 ^ 32
    → add_bytes bytes i sum ≡ sum + sum_bytes bytes
unfolding add_bytes
add_bytes-sum_bytes [] i sum e h = omega arith
add_bytes-sum_bytes (high ∷ []) i sum e h = ground (arith, e)
add_bytes-sum_bytes (high ∷ low ∷ bytes) i sum e h =
    let even : (i % 2 == 1) ≡ false = ground (arith, e) in
    let odd : (suc i % 2 == 1) ≡ true = ground (arith, e) in
    let first : (sum + high * 2 ^ 8) % 2 ^ 32 ≡ sum + high * 256 = omega arith in
    let second : (sum + high * 256 + low) % 2 ^ 32 ≡ sum + high * 256 + low = omega arith in
    rw (even, odd, first, second)
      (add_bytes-sum_bytes bytes (suc (suc i)) (sum + high * 256 + low) (omega arith) (omega arith)
        ∙ omega arith)

-- The loop ends after two turns, and its result is the sum modulo 65535 in 16 bits.
fold_sum_lem :
    (sum : ℕ) → sum < 2 ^ 32 → (fold_sum 3 sum < 65536) × (fold_sum 3 sum % 65535 ≡ sum % 65535)
unfolding fold_sum
fold_sum_lem sum h = ground arith

fold_swap :
    (s t : ℕ) → t < 65536 → t % 65535 ≡ s % 65535 → ((2 ^ 32 - 1 - t) % 2 ^ 16 + s) % 65535 ≡ 0
fold_swap s t h e = omega arith

checksum_sum-sum_all :
    (header src_ip dst_ip payload : List ℕ)
    → sum_all header src_ip dst_ip payload < 2 ^ 32
    → checksum_sum header src_ip dst_ip payload ≡ sum_all header src_ip dst_ip payload
unfolding checksum_sum
checksum_sum-sum_all header src_ip dst_ip payload h =
    let p = add_bytes-sum_bytes payload 0 0 refl (omega arith) in
    let s = add_bytes-sum_bytes src_ip 0 (0 + sum_bytes payload) refl (omega arith) in
    let d =
      add_bytes-sum_bytes dst_ip 0 (0 + sum_bytes payload + sum_bytes src_ip) refl (omega arith) in
    let w =
      add_bytes-sum_bytes header 0 (0 + sum_bytes payload + sum_bytes src_ip + sum_bytes dst_ip)
        refl (omega arith) in
    rw (p, s, d, w) (omega arith)

-- The checksum of a datagram whose sum stays in 32 bits: with the checksum, in host order, the sum
-- of all words is 0 in one's complement.
pub checksum-complements :
    (header src_ip dst_ip payload : List ℕ)
    → sum_all header src_ip dst_ip payload < 2 ^ 32
    → (ntoh16 (udp_checksum header src_ip dst_ip payload) + sum_all header src_ip dst_ip payload)
        % 65535
      ≡ 0
unfolding udp_checksum
checksum-complements header src_ip dst_ip payload h =
    let sum = checksum_sum header src_ip dst_ip payload in
    let e = checksum_sum-sum_all header src_ip dst_ip payload h in
    let (small, same) = fold_sum_lem sum (omega (arith, e)) in
    let x = (2 ^ 32 - 1 - fold_sum 3 sum) % 2 ^ 16 in
    ap₂ (λ a b. (a + b) % 65535) ((ntoh-hton x).0 (omega arith)) (sym e)
    ∙ fold_swap sum (fold_sum 3 sum) small same
