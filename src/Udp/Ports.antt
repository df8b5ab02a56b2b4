-- ===== src/Udp/Ports.antt =====
-- Which layer a datagram is handed to.
use mathlib.Core.Path.{subst}
use launch_core.Prelude.{
  ℕ, ◌+◌, ◌≡◌, ◌≢◌, refl, sym, ap, ◌∙◌, true, false, Option, none, some, ◌==◌, Ret, success, error,
  Option-cases, inl, inr, arith,
}
use launch_core.Packet.{Packet, read_ptr, skip_read}
use launch_core.Hashmap.{Key, Hashmap, add, get, set_value, lookup}
use launch_core.Hashmap.Slots.{IsValid}
use launch_core.Hashmap.Laws.{AddSpec, lookup-add}
use launch_core.Net.ByteOrder.{ntoh16}
use launch_core.Udp.{Info, Router, header_size, load16, subscribe_port, deliver, receive}

module _ ⦃key : Key ℕ⦄ where
  unpack :
      (m : Hashmap ℕ ℕ) (v : IsValid m) (k x i : ℕ) (t : Option ℕ × Hashmap ℕ ℕ)
      → AddSpec m v k x t
      → t.0 ≡ some i
      → (lookup (set_value t.1 i x) k ≡ some x)
        × ((k' : ℕ) → k' ≢ k → lookup (set_value t.1 i x) k' ≡ lookup m k')
  unpack m v k x i (none, m') s e = cc
  unpack m v k x i (some j, m') s e =
      let same : j ≡ i = cc in
      subst
        (λ n.
          (lookup (set_value m' n x) k ≡ some x)
          × ((k' : ℕ) → k' ≢ k → lookup (set_value m' n x) k' ≡ lookup m k'))
        same s

  added :
      (m : Hashmap ℕ ℕ) (v : IsValid m) (k x i : ℕ)
      → get m k ≡ none
      → (add m k).0 ≡ some i
      → (lookup (set_value (add m k).1 i x) k ≡ some x)
        × ((k' : ℕ) → k' ≢ k → lookup (set_value (add m k).1 i x) k' ≡ lookup m k')
  added m v k x i new e = unpack m v k x i (add m k) (lookup-add m v k x new) e

  error-success : {A : Type 0} → error ≡ success → A
  error-success e = cc

  -- Where `subscribe_port` succeeds, there is a slot for the port.
  subscribed :
      (r : Router) (layer port : ℕ)
      → (subscribe_port r layer port).0 ≡ success
      → (i : ℕ) × ((add r.port_bindings port).0 ≡ some i)
        × ((subscribe_port r layer port).1.port_bindings
            ≡ set_value (add r.port_bindings port).1 i layer)
  unfolding subscribe_port
  subscribed r layer port done = elim (Option-cases ((add r.port_bindings port).0)) [
    | inl e ↦ error-success (rw (e, subscribe_port) at done)
    | inr (i, e) ↦ elim (Option-cases ((add r.layer_bindings layer).0)) [
      | inl e' ↦ error-success (rw (e, subscribe_port, e') at done)
      | inr (j, e') ↦ (i, e, rw (e, subscribe_port, e') refl)
    ]
  ]

  deliver-lookup :
      (next : ℕ → Packet → Info → Ret × Packet × Info) (r : Router) (port layer : ℕ) (p : Packet)
      (info : Info)
      → lookup r.port_bindings port ≡ some layer
      → layer ≢ 0
      → deliver next r port p info ≡ next layer p info
  unfolding deliver
  deliver-lookup next r port layer p info e ne =
      let no : (layer == 0) ≡ false = ground (arith, ne) in rw (e, deliver, no) refl

  deliver_congr :
      (next : ℕ → Packet → Info → Ret × Packet × Info) (r r' : Router) (port : ℕ) (p : Packet)
      (info : Info)
      → lookup r'.port_bindings port ≡ lookup r.port_bindings port
      → deliver next r' port p info ≡ deliver next r port p info
  unfolding deliver
  deliver_congr next r r' port p info e = rw (e, deliver) refl

  receive-ignored :
      (next : ℕ → Packet → Info → Ret × Packet × Info) (r : Router) (p : Packet) (info : Info)
      (at : ℕ)
      → read_ptr p header_size ≡ some at
      → info.ignore_checksums ≡ true
      → receive next r p info
        ≡ some (
            deliver next r
              (ntoh16 (load16 p (at + 2)))
              (skip_read p header_size).1
              (record info { src_port = ntoh16 (load16 p at) }))
  unfolding receive
  receive-ignored next r p info at header ignored = rw (header, receive, ignored) refl

  -- After a port that was not bound is subscribed, a datagram for the port goes to the layer that
  -- subscribed it, behind its header and with its source port, and datagrams for any other port go
  -- where they went before; this is for packets whose checksum is not tested.
  pub receive-subscribe_port :
      (next : ℕ → Packet → Info → Ret × Packet × Info) (r : Router) (layer port : ℕ)
      → IsValid r.port_bindings
      → get r.port_bindings port ≡ none
      → (subscribe_port r layer port).0 ≡ success
      → layer ≢ 0
      → (p : Packet) (info : Info) (at : ℕ) → read_ptr p header_size ≡ some at
      → info.ignore_checksums ≡ true
      → (ntoh16 (load16 p (at + 2)) ≡ port
          → receive next (subscribe_port r layer port).1 p info
            ≡ some (
                next layer
                  (skip_read p header_size).1
                  (record info { src_port = ntoh16 (load16 p at) })))
        × (ntoh16 (load16 p (at + 2)) ≢ port
            → receive next (subscribe_port r layer port).1 p info ≡ receive next r p info)
  receive-subscribe_port next r layer port v new done nonnull p info at header ignored =
      let (i, slot, bound) = subscribed r layer port done in
      let (here, other) = added r.port_bindings v port layer i new slot in
      let ahead = (skip_read p header_size).1 in
      let from = record info { src_port = ntoh16 (load16 p at) } in
      let r' = (subscribe_port r layer port).1 in
      let to = ntoh16 (load16 p (at + 2)) in
      let arrives = receive-ignored next r' p info at header ignored in
      (
        λ same.
            arrives
            ∙ ap (λ t. some (deliver next r' t ahead from)) same
            ∙ ap some (
                deliver-lookup next r' port layer ahead from (ap (λ m. lookup m port) bound ∙ here)
                  nonnull),
        λ ne.
            arrives
            ∙ ap some
                (deliver_congr next r r' to ahead from (ap (λ m. lookup m to) bound ∙ other to ne))
            ∙ sym (receive-ignored next r p info at header ignored),
      )
