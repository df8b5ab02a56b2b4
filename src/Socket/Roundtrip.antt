-- ===== src/Socket/Roundtrip.antt =====
-- A packet from `receive` to `recv`.
use mathlib.Core.Path.{subst}
use launch_core.Prelude.{
  ◌*◌, ◌%◌, ◌^◌, ℕ, zero, suc, Bool-cases, ltb→lt, take-length, take-min, ◌≤◌, ◌<◌, ◌≡◌, inl, inr,
  ◌∙◌, refl, sym, ap, false, [], ◌∷◌, ◌++◌, arith, List, ltb, if◌then◌else◌, length, take, success,
}
use launch_core.Queue.Heap.{Ptr}
use launch_core.Queue.Chain.{Cells}
use launch_core.Packet
use launch_core.Packet.{Packet}
use launch_core.Packet.Invariant.{IsValid}
use launch_core.Packet.Stream.{unread, IsReadable}
use launch_core.Udp.{Info}
use launch_core.Sched.{Sched}
use launch_core.Sched.Moves.{IsSched}
use launch_core.Socket.{Socket, Received, mtu, source_octets, wrong_address, receive, take_packet}
use launch_core.Socket.Inbox.{IsSocket, Takes, Takes-run, take_packet-inbox}
use launch_core.Socket.Deliver.{Knows, Kept, Delivers, Delivers-run, receive-inbox}

take-take : {A : Type 0} (n k : ℕ) (xs : List A) → n ≤ k → take n (take k xs) ≡ take n xs
take-take zero k xs le = refl
take-take (suc n) zero xs le = absurd (omega (arith, le))
take-take (suc n) (suc k) [] le = refl
take-take (suc n) (suc k) (x ∷ xs) le = ap (λ l. x ∷ l) (take-take n k xs (omega (arith, le)))

-- What is copied of the `k` bytes `u` in a buffer.
take_room :
    (len k : ℕ) (xs u : List ℕ)
    → take k xs ≡ u
    → k ≡ length u
    → take (if ltb len k then len else k) xs ≡ take len u
take_room len k xs u e size = elim (Bool-cases (ltb len k)) [
  | inl o ↦
      let lt = ltb→lt len k o in
      rw o (sym (take-take len k xs (omega (arith, lt))) ∙ ap (take len) e)
  | inr o ↦
      let ge : k ≤ len = ground arith in
      rw o (e ∙ sym (take-length u) ∙ take-min len (length u) u (omega (arith, ge, size)))
]

-- The three shifts to the left leave nothing in the low byte.
source_octets_lem : (addr : ℕ) → source_octets addr ≡ 0 ∷ 0 ∷ 0 ∷ addr % 256 ∷ []
unfolding source_octets
source_octets_lem addr =
    let a : addr * 2 ^ 24 % 2 ^ 32 % 256 ≡ 0 = omega arith in
    let b : addr * 2 ^ 16 % 2 ^ 32 % 256 ≡ 0 = omega arith in
    let c : addr * 2 ^ 8 % 2 ^ 32 % 256 ≡ 0 = omega arith in rw (a, b, c) refl

pub nothing_left : (s : Socket) (n : ℕ) (s' : Socket) (ds : Cells Ptr) → Kept s n [] s' ds → ds ≡ []
nothing_left s n s' [] k = refl
nothing_left s n s' ((p, d) ∷ ds) (inl (_, e)) = absurd (omega (arith, ap length e))
nothing_left s n s' ((p, d) ∷ ds) (inr (_, (v, e))) = absurd (omega (arith, ap length e))

-- What the caller of `recv` is given of the packet `p`.
abbrev pub Passed : ℕ → Packet → Info → Received → Type 0
Passed len p info r =
    (r.ret ≡ success)
    × (r.len ≡ length (unread p))
    × (r.out ≡ take len (unread p))
    × (r.from_ip ≡ 0 ∷ 0 ∷ 0 ∷ info.src_addr % 256 ∷ [])
    × (r.from_port ≡ info.src_port)

-- A packet that `receive` accepts on a socket that holds no other is what the next `recv` takes: the
-- caller gets its length, its bytes as far as there is room for `len` of them, and its port; of its
-- address the caller gets the last octet only, and 0 for the first three, whatever they are. The
-- socket is well formed and empty again.
pub take_packet-receive :
    {s : Socket} {n : ℕ} {t : Sched} {p : Packet} (len : ℕ) (info : Info)
    → IsSocket s n []
    → 0 < n
    → IsSched t
    → Knows s.waiting t
    → IsValid p
    → IsReadable p
    → Packet.available p ≤ mtu
    → wrong_address s info ≡ false
    → Delivers
        (receive p info s t)
        (λ _ s' _. Takes (take_packet len s') (λ r s''. Passed len p info r × IsSocket s'' n []))
take_packet-receive {s} {n} {t} {p} len info i pos it knows v le small right =
    let ((r, p'), s', t', run, (_, _, _, _, (q, d, ds, socket, kept, (size, bytes, ip, port)))) =
      Delivers-run (receive p info s t) _ (receive-inbox [] info i pos it knows v le small right) in
    let empty = nothing_left s n s' ds kept in
    let alone : IsSocket s' n ([] ++ ((q, d) ∷ [])) =
      subst (λ cs. IsSocket s' n ((q, d) ∷ cs)) empty socket in
    let (u, s'', run', ((ok, out, len_eq, from, from_port), socket', _)) =
      Takes-run (take_packet len s') _ (take_packet-inbox len [] q d alone) in
    let given : Passed len p info u = (
      ok,
      len_eq ∙ size,
      out ∙ take_room len (s'.packets d).len (s'.packets d).buff (unread p) bytes size,
      from ∙ ip ∙ source_octets_lem info.src_addr,
      from_port ∙ port,
    ) in
    rw run (rw run' (given, socket'))
