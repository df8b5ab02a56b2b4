-- ===== src/Sched/Settle.antt =====
-- A task is put in a place, or leaves its place.
use mathlib.Core.Path.{subst}
use launch_core.Prelude.{
  ℕ, ◌≤◌, ◌<◌, ◌≡◌, ◌≢◌, inl, inr, ◌∙◌, sym, ap, Bool, false, some, List, ◌∷◌, ◌++◌, arith, ◌==◌,
  length, length-set, get_elem?, get_elem?-set, set, Bool-cases,
}
use launch_core.Queue.Heap.{null}
use launch_core.Queue.Chain.{Cells, has}
use launch_core.AllocQueue.Order.{insert}
use launch_core.Sched.{Task}
use launch_core.Sched.Cells.{occ, occ-without, occ-insert}
use launch_core.Sched.Places.{
  Spot, StateOk, TaskOk, IsPlaced, Spot-cons, Spot-without, Spot-insert, Spot-off, Spot-item,
  Spot-removed, injective, in_table, get_other,
}

-- Spots are carried from one queue to another for every task but `loose`.
abbrev Carries : ℕ → Cells ℕ → Cells ℕ → Type 0
Carries loose cs ds = (i q : ℕ) → i ≢ loose → Spot cs i q → Spot ds i q

abbrev Inside : ℕ → Cells ℕ → Type 0
Inside n cs = (j : ℕ) → n ≤ j → occ j cs ≡ 0

module _ {run loose : ℕ} {ts : List Task} {rs ss : Cells ℕ} (p : IsPlaced run loose ts rs ss)
    (lt : loose < length ts) where
  -- The loose task gets a place.
  settle :
      (t : Task) (rs' ss' : Cells ℕ)
      → Carries loose rs rs'
      → Carries loose ss ss'
      → TaskOk run rs' ss' loose t
      → Inside (length ts) rs'
      → Inside (length ts) ss'
      → IsPlaced run (length ts) (set ts loose t) rs' ss'
  settle t rs' ss' cr cs ok ir is =
      let len = length-set ts loose t in
      record {
        others = λ i u ne e. elim (Bool-cases (i == loose)) [
          | inl o ↦
              let same : loose ≡ i = ground arith in
              let own : get_elem? (set ts loose t) loose ≡ some t =
                get_elem?-set ts loose loose t lt ∙ ground arith in
              let eq : t ≡ u = injective (sym own ∙ ap (get_elem? (set ts loose t)) same ∙ e) in
              subst (λ k. TaskOk run rs' ss' k u) same (subst (TaskOk run rs' ss' loose) eq ok)
          | inr o ↦
              let other : i ≢ loose = ground arith in
              let (r, s, k) = p.others i u other (sym (get_other p i t other lt) ∙ e) in
              (cr i u.ready_loc other r, cs i u.sleep_loc other s, k)
        ];
        off_ready = ir (length ts) (omega arith);
        off_sleep = is (length ts) (omega arith);
        ready_inside = λ j le. ir j (omega (arith, le, len));
        sleep_inside = λ j le. is j (omega (arith, le, len));
      }

  -- onto the ready queue
  pub settle_ready :
      (t : Task)
      → has t.ready_loc rs ≡ false
      → t.ready_loc ≢ null
      → t.sleep_loc ≡ null
      → StateOk run loose t.state t.ready_loc t.sleep_loc t.tid
      → IsPlaced run (length ts) (set ts loose t) ((t.ready_loc, loose) ∷ rs) ss
  settle_ready t fresh ne off ok =
      settle t ((t.ready_loc, loose) ∷ rs) ss
        (λ i q other. Spot-cons rs t.ready_loc i loose q fresh other) (λ i q other s. s)
        (inr (ne, ground (arith, p.off_ready), ground arith), inl (off, p.off_sleep), ok)
        (λ j le. ground (arith, p.ready_inside j le)) p.sleep_inside

  -- onto the sleep queue
  pub settle_sleep :
      (sort : ℕ → ℕ → Bool) (t : Task)
      → has t.sleep_loc ss ≡ false
      → t.sleep_loc ≢ null
      → t.ready_loc ≡ null
      → StateOk run loose t.state t.ready_loc t.sleep_loc t.tid
      → IsPlaced run (length ts) (set ts loose t) rs (insert sort t.sleep_loc loose ss)
  settle_sleep sort t fresh ne off ok =
      let p' = t.sleep_loc in
      settle t rs (insert sort p' loose ss) (λ i q other s. s)
        (λ i q other s.
          Spot-insert sort ss p' i loose q fresh (Spot-cons ss p' i loose q fresh other s))
        (
          inl (off, p.off_ready),
          Spot-insert sort ss p' loose loose p' fresh
              (inr (ne, ground (arith, p.off_sleep), ground arith)),
          ok,
        )
        p.ready_inside (λ j le. occ-insert sort j p' loose ss ∙ ground (arith, p.sleep_inside j le))

  -- on no queue
  pub settle_off :
      (t : Task)
      → t.ready_loc ≡ null
      → t.sleep_loc ≡ null
      → StateOk run loose t.state t.ready_loc t.sleep_loc t.tid
      → IsPlaced run (length ts) (set ts loose t) rs ss
  settle_off t r s ok =
      settle t rs ss (λ i q other s. s) (λ i q other s. s)
        (inl (r, p.off_ready), inl (s, p.off_sleep), ok) p.ready_inside p.sleep_inside

-- A task leaves its queue and becomes the loose one.
module _ {run : ℕ} {ts : List Task} {rs ss : Cells ℕ} (p : IsPlaced run (length ts) ts rs ss)
    (i : ℕ) (t : Task) (at : get_elem? ts i ≡ some t) where
  pub own : TaskOk run rs ss i t
  own = p.others i t (in_table ts i t at) at

  pub loosen_off : t.ready_loc ≡ null → t.sleep_loc ≡ null → IsPlaced run i ts rs ss
  loosen_off r s = record {
    others = λ j u ne e. p.others j u (in_table ts j u e) e;
    off_ready = Spot-off rs i t.ready_loc own.0 r;
    off_sleep = Spot-off ss i t.sleep_loc own.1 s;
    ready_inside = p.ready_inside;
    sleep_inside = p.sleep_inside;
  }

  pub loosen_ready :
      (cs ds : Cells ℕ)
      → rs ≡ cs ++ ((t.ready_loc, i) ∷ ds)
      → t.ready_loc ≢ null
      → t.sleep_loc ≡ null
      → IsPlaced run i ts (cs ++ ds) ss
  loosen_ready cs ds e ne s = record {
    others = λ j u other k.
        let (r, q, o) = p.others j u (in_table ts j u k) k in
        let spot = subst (λ l. Spot l i t.ready_loc) e own.0 in
        (
          Spot-without cs t.ready_loc i ds j u.ready_loc other
              (subst (λ l. Spot l j u.ready_loc) e r)
              (Spot-item (cs ++ ((t.ready_loc, i) ∷ ds)) i t.ready_loc spot ne),
          q,
          o,
        );
    off_ready = Spot-removed cs t.ready_loc i ds (subst (λ l. Spot l i t.ready_loc) e own.0) ne;
    off_sleep = Spot-off ss i t.sleep_loc own.1 s;
    ready_inside =
        λ j le. omega (arith, occ-without j t.ready_loc i cs ds, ap (occ j) e, p.ready_inside j le);
    sleep_inside = p.sleep_inside;
  }

  pub loosen_sleep :
      (cs ds : Cells ℕ)
      → ss ≡ cs ++ ((t.sleep_loc, i) ∷ ds)
      → t.sleep_loc ≢ null
      → t.ready_loc ≡ null
      → IsPlaced run i ts rs (cs ++ ds)
  loosen_sleep cs ds e ne r = record {
    others = λ j u other k.
        let (q, s, o) = p.others j u (in_table ts j u k) k in
        let spot = subst (λ l. Spot l i t.sleep_loc) e own.1 in
        (
          q,
          Spot-without cs t.sleep_loc i ds j u.sleep_loc other
              (subst (λ l. Spot l j u.sleep_loc) e s)
              (Spot-item (cs ++ ((t.sleep_loc, i) ∷ ds)) i t.sleep_loc spot ne),
          o,
        );
    off_ready = Spot-off rs i t.ready_loc own.0 r;
    off_sleep = Spot-removed cs t.sleep_loc i ds (subst (λ l. Spot l i t.sleep_loc) e own.1) ne;
    ready_inside = p.ready_inside;
    sleep_inside =
        λ j le. omega (arith, occ-without j t.sleep_loc i cs ds, ap (occ j) e, p.sleep_inside j le);
  }
