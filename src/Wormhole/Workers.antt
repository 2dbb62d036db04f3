-- ===== src/Wormhole/Workers.antt =====
-- src/kv/wormhole.h: the states that workers reach from the constructor, how they leave again, and the
-- destructor.
use sidle_baselines.Base.{
  ℕ, zero, suc, ◌≤◌, ◌<◌, ◌≡◌, refl, ◌∙◌, none, Bool-cases, ◌==◌, inl, inr, arith,
}
use sidle_baselines.Memory.{Returns-done}
use sidle_baselines.Keys.Stored.{StoredKey}
use sidle_baselines.Wormhole.Library.{WormholeLib}
use sidle_baselines.Wormhole.Wrapper.{WormholeKv, create}
use sidle_baselines.Wormhole.Protocol.{
  Step, enters, exits, refs, unrefs, gets, inserts, removes, scans, Reach, here, next, IsBalanced,
  count_refs-none, create-IsBalanced,
}
use sidle_baselines.Wormhole.Balance.{
  outside, idle, active, standing, gave, gave-IsBalanced, some_held, worker_exit_active,
  worker_enter-keeps, ref-keeps, worker_exit-keeps, unref-keeps, get-keeps, insert-keeps,
  remove-keeps, scan-keeps,
}

module _ {Map : Type 0 → Type 0} {Ref : Type 0} {Iter : Type 0 → Type 0}
    (lib : WormholeLib Map Ref Iter) {V K : Type 0} (key : StoredKey K) where
  pub Step-IsBalanced :
      (kv kv' : WormholeKv Map Ref V) → Step lib key kv kv' → IsBalanced kv → IsBalanced kv'
  Step-IsBalanced kv kv' (enters w e) h = Returns-done _ _ _ (worker_enter-keeps lib kv w h) e
  Step-IsBalanced kv kv' (exits w e) h = Returns-done _ _ _ (worker_exit-keeps lib kv w h) e
  Step-IsBalanced kv kv' (refs w r e) h = Returns-done _ _ _ (ref-keeps lib kv w h) e
  Step-IsBalanced kv kv' (unrefs w r e) h = Returns-done _ _ _ (unref-keeps lib kv w h) e
  Step-IsBalanced kv kv' (gets w k o e) h = Returns-done _ _ _ (get-keeps lib kv w key k h) e
  Step-IsBalanced kv kv' (inserts w k v r e) h =
      Returns-done _ _ _ (insert-keeps lib kv w key k h v) e
  Step-IsBalanced kv kv' (removes w k r e) h = Returns-done _ _ _ (remove-keeps lib kv w key k h) e
  Step-IsBalanced kv kv' (scans w k n count rows e) h =
      Returns-done _ _ _ (scan-keeps lib kv w key k h n) e

  pub Reach-keeps :
      (kv kv' : WormholeKv Map Ref V) → Reach lib key kv kv' → IsBalanced kv → IsBalanced kv'
  Reach-keeps kv kv' here h = h
  Reach-keeps kv kv' (next run step) h = Step-IsBalanced _ _ step (Reach-keeps _ _ run h)

  -- Whatever calls the workers make after the constructor, in any order, as long as each returns: the
  -- library has out one reference for each worker that holds one, no iterator and no copy of a row.
  pub Reach-IsBalanced :
      (wh : Map V) (worker_num : ℕ) (kv : WormholeKv Map Ref V)
      → Reach lib key (create lib wh worker_num) kv
      → IsBalanced kv
  Reach-IsBalanced wh worker_num kv run =
      Reach-keeps (create lib wh worker_num) kv run (create-IsBalanced lib wh worker_num)

  -- a state that kv can go on to, in which none of the first n workers holds a reference
  record Left (kv : WormholeKv Map Ref V) (n : ℕ) : Type 0 where
    after : WormholeKv Map Ref V
    run : Reach lib key kv after
    balanced : IsBalanced after
    same : after.worker_info.size ≡ kv.worker_info.size
    empty : (j : ℕ) → j < n → after.worker_info.cell j ≡ none

  leave_one :
      (kv : WormholeKv Map Ref V) (n : ℕ) → n < kv.worker_info.size → Left kv n → Left kv (suc n)
  leave_one kv n small left = elim (standing left.after n) [
    | outside h ↦ absurd (omega (arith, left.same))
    | idle h e ↦ record {
      after = left.after;
      run = left.run;
      balanced = left.balanced;
      same = left.same;
      empty = λ j below. elim (Bool-cases (j == n)) [
        | inl last ↦ let at : j ≡ n = ground (arith, last) in rw at e
        | inr before ↦ left.empty j (ground (arith, before))
      ];
    }
    | active r h e ↦
        let (refs', more) = some_held left.after n r left.balanced h e in
        let map = lib.wormhole_unref r left.after.wh_ptr in
        record {
          after = gave left.after n refs' map;
          run = next left.run (exits n (worker_exit_active lib left.after n r refs' h e more));
          balanced = gave-IsBalanced left.after n map r refs' left.balanced h e more;
          same = left.same;
          empty = λ j below. elim (Bool-cases (j == n)) [
            | inl last ↦ rw last refl
            | inr before ↦ rw before (left.empty j (ground (arith, before)))
          ];
        }
  ]

  leave_below :
      (n : ℕ) (kv : WormholeKv Map Ref V) → IsBalanced kv → n ≤ kv.worker_info.size → Left kv n
  leave_below zero kv h small = record {
    after = kv;
    run = here;
    balanced = h;
    same = refl;
    empty = λ j bad. absurd (omega (arith, bad));
  }
  leave_below (suc n) kv h small = leave_one kv n small (leave_below n kv h (omega (arith, small)))

  -- From every state that the workers reach, calls that return lead to a state in which no worker holds a
  -- reference and the library has none out: those that hold one can leave one after another.
  pub Reach-leaves :
      (wh : Map V) (worker_num : ℕ) (kv : WormholeKv Map Ref V)
      → Reach lib key (create lib wh worker_num) kv
      → (kv' : WormholeKv Map Ref V) × Reach lib key kv kv'
        × ((w : ℕ) → w < kv'.worker_info.size → kv'.worker_info.cell w ≡ none)
        × (kv'.held.refs ≡ 0)
  Reach-leaves wh worker_num kv run =
      let left =
        leave_below kv.worker_info.size kv (Reach-IsBalanced wh worker_num kv run) (omega arith) in
      let empty : (w : ℕ) → w < left.after.worker_info.size → left.after.worker_info.cell w ≡ none =
        λ w h. left.empty w (omega (arith, h, left.same)) in
      (
        left.after,
        left.run,
        empty,
        left.balanced.refs
            ∙ count_refs-none left.after.worker_info.cell left.after.worker_info.size empty,
      )
