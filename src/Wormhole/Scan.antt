-- ===== src/Wormhole/Scan.antt =====
-- src/kv/wormhole.h: `scan`, by a worker that has entered.
use sidle_baselines.Base.{
  ℕ, zero, suc, ◌≤◌, ◌≡◌, refl, ap, ◌∙◌, none, some, List, [], ◌∷◌, ◌++◌, length, take, arith,
  Option-cases, inl, inr,
}
use mathlib.Core.List.{append_assoc, append-nil}
use sidle_baselines.Memory.{done}
use sidle_baselines.Keys.Stored.{StoredKey}
use sidle_baselines.Keys.StoredRows.{rows_from, restored_rows, length-restored_rows, length-take_le}
use sidle_baselines.Wormhole.Library.{WormholeLib, IsIterator}
use sidle_baselines.Wormhole.Wrapper.{WormholeKv, scan_loop, scan}
use sidle_baselines.Wormhole.WrapperMap.{HasEntered, ref_of_entered, give_back_lem}

module _ {Map : Type 0 → Type 0} {Ref : Type 0} {Iter : Type 0 → Type 0}
    (lib : WormholeLib Map Ref Iter) {V K : Type 0} (key : StoredKey K) where
  scan_loop-none :
      (n : ℕ) (it : Iter V) (kvs : ℕ) (result : List (K × V))
      → (lib.iter_next it).0 ≡ none
      → scan_loop lib key (suc n) it kvs result ≡ done (result, kvs)
  unfolding scan_loop
  scan_loop-none n it kvs result e = ground (arith, e)

  scan_loop-some :
      (n : ℕ) (it : Iter V) (kvs : ℕ) (result : List (K × V)) (s : List ℕ) (v : V)
      → (lib.iter_next it).0 ≡ some (s, v)
      → scan_loop lib key (suc n) it kvs result
        ≡ scan_loop lib key n (lib.iter_next it).1 kvs (result ++ (key.restored s, v) ∷ [])
  unfolding scan_loop
  scan_loop-some n it kvs result s v e = ground (arith, e, give_back_lem kvs)

  -- Whatever the iterator gives, the loop ends, and has given back each copy of a row.
  pub scan_loop-done :
      (n : ℕ) (it : Iter V) (kvs : ℕ) (result : List (K × V))
      → (rows : List (K × V)) × (scan_loop lib key n it kvs result ≡ done (rows, kvs))
  unfolding scan_loop
  scan_loop-done zero it kvs result = (result, refl)
  scan_loop-done (suc n) it kvs result = elim (Option-cases (lib.iter_next it).0) [
    | inl e ↦ (result, scan_loop-none n it kvs result e)
    | inr ((s, v), e) ↦
        let more = result ++ (key.restored s, v) ∷ [] in
        let (rows, rest) = scan_loop-done n (lib.iter_next it).1 kvs more in
        (rows, scan_loop-some n it kvs result s v e ∙ rest)
  ]

module _ {Map : Type 0 → Type 0} {Ref : Type 0} {Iter : Type 0 → Type 0}
    (lib : WormholeLib Map Ref Iter) (iterator : IsIterator lib) {V K : Type 0}
    (key : StoredKey K) where
  scan_loop-rows :
      (n : ℕ) (it : Iter V) (kvs : ℕ) (result : List (K × V)) (rows : List (List ℕ × V))
      → iterator.remaining it ≡ rows
      → scan_loop lib key n it kvs result ≡ done (result ++ restored_rows key (take n rows), kvs)
  unfolding scan_loop
  scan_loop-rows zero it kvs result rows e = rw append-nil
  scan_loop-rows (suc n) it kvs result [] e =
      rw append-nil (scan_loop-none lib key n it kvs result (iterator.next_nil it e))
  scan_loop-rows (suc n) it kvs result ((s, v) ∷ rows) e =
      let (first, rest) = iterator.next_cons it (s, v) rows e in
      scan_loop-some lib key n it kvs result s v first
      ∙ scan_loop-rows n (lib.iter_next it).1 kvs (result ++ (key.restored s, v) ∷ []) rows rest
      ∙ ap (λ xs. done (xs, kvs))
          (append_assoc result ((key.restored s, v) ∷ []) (restored_rows key (take n rows)))

  -- By a worker that has entered, `scan` returns the first n rows of the map from the key on, or those that
  -- there are, with their keys restored, and how many they are. The wrapper is left as it was: the iterator and every copy of a
  -- row are given back.
  pub scan-take :
      (kv : WormholeKv Map Ref V) (k_start : K) (n w : ℕ) (r : Ref)
      → HasEntered kv w r
      → let rows =
          restored_rows key (take n (rows_from (key.stored k_start) (iterator.rows kv.wh_ptr))) in
        (scan lib key kv k_start n w ≡ done (length rows, rows, kv)) × (length rows ≤ n)
  unfolding scan
  scan-take kv k_start n w r e =
      let it = lib.iter_seek (lib.iter_create r kv.wh_ptr) (key.stored k_start) in
      let rows = rows_from (key.stored k_start) (iterator.rows kv.wh_ptr) in
      let sought = iterator.seek_rows r kv.wh_ptr (key.stored k_start) in
      (
        rw (
          ref_of_entered lib kv w r e,
          scan_loop-rows n it kv.held.kvs [] rows sought,
          give_back_lem kv.held.iters,
        ),
        omega (arith, length-restored_rows key (take n rows), length-take_le n rows),
      )
